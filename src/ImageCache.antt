-- ===== src/ImageCache.antt =====
-- internal/fastlet/cache/tracker.go: the image inventory that a Fastlet tells its registries.
--
-- The listing of images is an argument of `snapshot`, `none` for its error; a `Tracker` without a source
-- is not modelled. `clean` is `strings.TrimSpace` after `strings.ToLower`.
pub mod Agreement
use Prim.Native.Nat.{◌%◌, ◌^◌}
use Prim.Native.Char.{code}
use fast_sandbox.Base.{
  ℕ, ◌+◌, Bool, true, false, not, ◌&&◌, ◌||◌, Option, none, some, List, [], ◌∷◌, String, length,
  ltb, leb, text_lt, ◌==◌, nat_equality, text_equality, if◌then◌else◌, ℤ, pos, leb_ℤ,
}
use fast_sandbox.Placement.Types.{CacheSnapshot}

pub record Cursor : Type 0 where
  pub epoch : String
  pub revision : ℕ
  pub force_full : Bool

pub record Tracker : Type 0 where
  pub epoch : String
  pub revision : ℕ
  pub inventory : List String
  pub initialized : Bool
  pub max_inventory : ℕ

abbrev pub default_max_inventory : ℕ
default_max_inventory = 4096

abbrev pub bound_of : ℤ → ℕ
bound_of (pos n) = if n == 0 then default_max_inventory else n
bound_of _ = default_max_inventory

unfoldable pub new_tracker : String → ℤ → Tracker
new_tracker epoch bound = record {
  epoch = epoch;
  revision = 0;
  inventory = [];
  initialized = false;
  max_inventory = bound_of bound;
}

-- What follows the prefix, if the text has it.
abbrev pub after_prefix : String → String → Option String
after_prefix String.[] s = some s
after_prefix (String.◌∷◌ c p) String.[] = none
after_prefix (String.◌∷◌ c p) (String.◌∷◌ d s) =
    let rest = after_prefix p s in if code c == code d then rest else none

abbrev pub has : Option String → Bool
has none = false
has (some s) = true

abbrev pub or_same : String → Option String → String
or_same s none = s
or_same s (some rest) = rest

unfoldable pub trim_prefix : String → String → String
trim_prefix p s = or_same s (after_prefix p s)

unfoldable pub normalize_reference : (String → String) → String → String
unfolding trim_prefix
normalize_reference clean image =
    trim_prefix "library/"
      (trim_prefix "docker.io/" (trim_prefix "http://" (trim_prefix "https://" (clean image))))

unfoldable pub is_platform_or_content : String → Bool
is_platform_or_content image =
    has (after_prefix "sha256:" image)
    || has (after_prefix "import-" image)
    || has (after_prefix "kindest/" image)
    || has (after_prefix "fast-sandbox/" image)
    || has (after_prefix "registry.k8s.io/" image)
    || has (after_prefix "k8s.gcr.io/" image)

-- The map of unique names and the sort after it, as one insertion.
unfoldable pub insert_unique : String → List String → List String
insert_unique x [] = x ∷ []
insert_unique x (y ∷ ys) =
    let rest = insert_unique x ys in
    if x == y then y ∷ ys else if text_lt x y then x ∷ y ∷ ys else y ∷ rest

abbrev pub skipped : String → Bool
skipped name = name == "" || is_platform_or_content name

unfoldable pub normalize_inventory : (String → String) → List String → List String
unfolding insert_unique normalize_reference is_platform_or_content
normalize_inventory clean [] = []
normalize_inventory clean (image ∷ images) =
    let rest = normalize_inventory clean images in
    let name = normalize_reference clean image in
    if skipped name then rest else insert_unique name rest

abbrev pub equal_strings : List String → List String → Bool
equal_strings [] [] = true
equal_strings (x ∷ xs) (y ∷ ys) = x == y && equal_strings xs ys
equal_strings _ _ = false

-- A list that is too long is told as incomplete, without images.
abbrev pub bounded : ℕ → List String → List String
bounded bound images = if leb (length images) bound then images else []

unfoldable pub take_inventory : List String → Tracker → Tracker
take_inventory images t =
    if not t.initialized || not (equal_strings t.inventory images)
    then record t { revision = (t.revision + 1) % 2 ^ 64; inventory = images; initialized = true }
    else t

abbrev pub needs_full : Cursor → Tracker → Bool
needs_full c t = c.force_full || not (c.epoch == t.epoch) || not (c.revision == t.revision)

unfoldable pub snapshot_of : Cursor → Bool → Tracker → CacheSnapshot
snapshot_of c complete t = record {
  epoch = t.epoch;
  revision = t.revision;
  full = needs_full c t;
  complete = complete;
  images = if needs_full c t && complete then t.inventory else [];
}

-- `Snapshot`: the tracker after it, and what it returns; the Boolean is the error.
unfoldable pub snapshot :
    (String → String) → Cursor → Option (List String) → Tracker → Tracker × CacheSnapshot × Bool
unfolding take_inventory snapshot_of normalize_inventory
snapshot clean c none t = (
  t,
  record { epoch = t.epoch; revision = t.revision; full = false; complete = false; images = [] },
  true,
)
snapshot clean c (some listing) t =
    let images = normalize_inventory clean listing in
    let u = take_inventory (bounded t.max_inventory images) t in
    (u, snapshot_of c (leb (length images) t.max_inventory) u, false)
