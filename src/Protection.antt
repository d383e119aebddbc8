-- ===== src/Protection.antt =====
-- internal/fastlet/cache/protection.go: which cached images must not be evicted.
--
-- The clock is an argument, and the zero time is 0. The reasons are texts, and a count of protections is a
-- natural number. `clean` is `strings.TrimSpace` after `strings.ToLower`, as in ImageCache.
pub mod Counts
pub mod Effects
pub mod Eviction
use fast_sandbox.Base.{
  ℕ, ◌+◌, ◌-◌, Bool, true, false, not, ◌&&◌, ◌||◌, Option, none, some, List, [], ◌∷◌, String, Dict,
  lookup, insert, remove, ltb, text_lt, ◌==◌, text_equality, if◌then◌else◌,
}
use fast_sandbox.ImageCache.{normalize_reference}

pub record Protection : Type 0 where
  pub counts : Dict ℕ
  pub hot_until : ℕ

abbrev pub Index : Type 0
Index = Dict Protection

abbrev pub no_protection : Protection
no_protection = record { counts = []; hot_until = 0 }

abbrev pub item_or_new : Option Protection → Protection
item_or_new none = no_protection
item_or_new (some item) = item

-- A missing key reads as 0.
abbrev pub count_or_zero : Option ℕ → ℕ
count_or_zero none = 0
count_or_zero (some n) = n

abbrev pub is_empty : Dict ℕ → Bool
is_empty [] = true
is_empty _ = false

-- `itemLocked`, for an item that is written back.
unfoldable pub item_of : String → Index → Protection
item_of name items = item_or_new (lookup name items)

unfoldable pub increment : String → Dict ℕ → Dict ℕ
increment reason counts = insert reason (count_or_zero (lookup reason counts) + 1) counts

unfoldable pub decrement : String → Dict ℕ → Dict ℕ
decrement reason counts =
    let n = count_or_zero (lookup reason counts) in
    if ltb 1 n then insert reason (n - 1) counts else remove reason counts

-- `deleteEmptyLocked`, of an item that is written back if it stays.
unfoldable pub delete_empty : ℕ → String → Protection → Index → Index
delete_empty now name item items =
    if is_empty item.counts && not (ltb now item.hot_until)
    then remove name items
    else insert name item items

abbrev pub unprotect_item : ℕ → String → String → Option Protection → Index → Index
unprotect_item now name reason none items = items
unprotect_item now name reason (some item) items =
    delete_empty now name (record item { counts = decrement reason item.counts }) items

abbrev pub is_held : ℕ → Protection → Bool
is_held now item = not (is_empty item.counts) || ltb now item.hot_until

abbrev pub check_item : ℕ → String → Option Protection → Index → Bool × Index
check_item now name none items = (false, items)
check_item now name (some item) items =
    if is_held now item then (true, items) else (false, remove name items)

-- `sort.Strings`
unfoldable pub sort_insert : String → List String → List String
sort_insert x [] = x ∷ []
sort_insert x (y ∷ ys) = let rest = sort_insert x ys in if text_lt y x then y ∷ rest else x ∷ y ∷ ys

unfoldable pub sort_strings : List String → List String
unfolding sort_insert
sort_strings [] = []
sort_strings (x ∷ xs) = sort_insert x (sort_strings xs)

-- A call of another goroutine, with the clock that it reads.
pub data Change : Type 0 where
  protects : String → String → Change
  unprotects : ℕ → String → String → Change
  keeps_hot : String → ℕ → Change
  checks : ℕ → String → Change

-- A candidate of `PlanEviction`, the clock at its turn, and what others did since the turn before.
pub record Turn : Type 0 where
  pub candidate : String
  pub now : ℕ
  pub changes : List Change

module _ (clean : String → String) where
  unfoldable pub protect : String → String → Index → Index
  unfolding item_of increment
  protect reference reason items =
      let name = normalize_reference clean reference in
      let item = item_of name items in
      if name == ""
      then items
      else insert name (record item { counts = increment reason item.counts }) items

  unfoldable pub unprotect : ℕ → String → String → Index → Index
  unfolding decrement delete_empty
  unprotect now reference reason items =
      let name = normalize_reference clean reference in
      unprotect_item now name reason (lookup name items) items

  unfoldable pub protect_hot_until : String → ℕ → Index → Index
  unfolding item_of
  protect_hot_until reference until items =
      let name = normalize_reference clean reference in
      let item = item_of name items in
      if name == ""
      then items
      else if ltb item.hot_until until
      then insert name (record item { hot_until = until }) items
      else insert name item items

  -- The first loop of `Replace`.
  unfoldable pub drop_reason : ℕ → String → Index → Index
  drop_reason now reason [] = []
  drop_reason now reason ((name, item) ∷ items) =
      let rest = drop_reason now reason items in
      let left : Protection = record item { counts = remove reason item.counts } in
      if is_empty left.counts && not (ltb now left.hot_until) then rest else (name, left) ∷ rest

  -- The second.
  unfoldable pub add_reason : String → List String → Index → Index
  unfolding item_of
  add_reason reason [] items = items
  add_reason reason (reference ∷ references) items =
      let name = normalize_reference clean reference in
      let item = item_of name items in
      let next =
        if name == ""
        then items
        else insert name (record item { counts = insert reason 1 item.counts }) items in
      add_reason reason references next

  unfoldable pub replace : ℕ → String → List String → Index → Index
  unfolding drop_reason add_reason
  replace now reason references items = add_reason reason references (drop_reason now reason items)

  -- `IsProtected`; an item that is not held any more is deleted.
  unfoldable pub is_protected : ℕ → String → Index → Bool × Index
  is_protected now reference items =
      let name = normalize_reference clean reference in
      check_item now name (lookup name items) items

  -- What others do to the index between two turns.
  unfoldable pub change : Change → Index → Index
  unfolding protect unprotect protect_hot_until is_protected
  change (protects reference reason) items = protect reference reason items
  change (unprotects now reference reason) items = unprotect now reference reason items
  change (keeps_hot reference until) items = protect_hot_until reference until items
  change (checks now reference) items = (is_protected now reference items).1

  unfoldable pub changed : List Change → Index → Index
  unfolding change
  changed [] items = items
  changed (c ∷ rest) items = changed rest (change c items)

  -- The loop of `PlanEviction`, which locks the index for each candidate by itself.
  unfoldable pub eligible_images : List Turn → Index → List String × Index
  unfolding is_protected changed
  eligible_images [] items = ([], items)
  eligible_images (t ∷ rest) items =
      let (held, left) = is_protected t.now t.candidate (changed t.changes items) in
      let (names, final) = eligible_images rest left in
      if held then (names, final) else (normalize_reference clean t.candidate ∷ names, final)

  unfoldable pub plan_eviction : List Turn → Index → List String × Index
  unfolding eligible_images sort_strings
  plan_eviction turns items =
      let (names, final) = eligible_images turns items in (sort_strings names, final)
