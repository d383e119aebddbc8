-- ===== src/Placement/TopK.antt =====
-- placement/registry.go: `TopK` and the filter, load and order that it ranks by.
--
-- Floating point is a parameter. The order of a Go map is not fixed; the model takes the list's order,
-- and `sort.Slice` is insertion sort by the same comparison.
use Prim.Native.Nat.{◌%◌, ◌^◌, bit_xor}
use Prim.Native.Char.{code}
use fast_sandbox.Base.{
  ℕ, zero, suc, ◌-◌, ◌*◌, Bool, true, false, not, ◌&&◌, ◌||◌, List, [], ◌∷◌, ◌++◌, map, String,
  ◌==◌, text_equality, nat_equality, int_equality, if◌then◌else◌, ltb, ℤ, pos, ltb_ℤ, leb_ℤ,
  keep_if, take, text_lt,
}
use fast_sandbox.Placement.Quantity.{Quantities}
use fast_sandbox.Placement.Types.{Demand, FastletInfo, Registry, scheduling_used, slot_capacity}
use fast_sandbox.Placement.Reserve.{promised_cpu, promised_memory, infos}
use fast_sandbox.Placement.Capacity.{resource_schedulability, fits, pressure_nodes}

-- The operations of `float64` that the load uses; `tenfold x` is `int(x * 10)`.
pub record Floats : Type 1 where
  pub F : Type 0
  pub of_int : ℤ → F
  pub quotient : F → F → F
  pub max : F → F → F
  pub tenfold : F → ℤ

pub record CandidateRequest (Q : Type 0) : Type 0 where
  pub namespace : String
  pub pool_name : String
  pub runtime_name : String
  pub runtime_profile_hash : String
  pub resource_profile_hash : String
  pub infra_revision : String
  pub fastlet_revision : String
  pub resource_aware : Bool
  pub demand : Demand Q
  pub image : String
  pub stable_key : String
  pub now : ℕ
  pub excluded : List String

abbrev pub contains : List String → String → Bool
contains [] a = false
contains (x ∷ xs) a = x == a || contains xs a

-- The bytes of a text, which is ASCII in names and keys.
abbrev pub bytes : String → List ℕ
bytes String.[] = []
bytes (String.◌∷◌ c s) = code c ∷ bytes s

-- FNV-1a with 64 bits.
unfoldable pub fnv : ℕ → List ℕ → ℕ
fnv h [] = h
fnv h (b ∷ bs) = fnv ((bit_xor h b * 1099511628211) % 2 ^ 64) bs

unfoldable pub stable_order : String → String → ℕ
unfolding fnv
stable_order key id = fnv 14695981039346656037 (bytes key ++ b'|' ∷ bytes id)

-- The binary search of `sort.SearchStrings` and the test after it, on a sorted inventory.
unfoldable pub in_inventory : List String → String → Bool
in_inventory [] image = false
in_inventory (x ∷ xs) image =
    let rest = in_inventory xs image in if text_lt x image then rest else x == image

abbrev unset_or_same : String → String → Bool
unset_or_same wanted has = wanted == "" || has == wanted

module _ (q : Quantities) (fl : Floats) where
  open q use {Quantity, milli_value, value}

  abbrev Info : Type 0
  Info = FastletInfo Quantity

  abbrev Request : Type 0
  Request = CandidateRequest Quantity

  unfoldable pub image_hit : Info → String → Bool
  unfolding in_inventory
  image_hit i image = not (image == "" || not i.cache_complete) && in_inventory i.images image

  unfoldable pub hard_filter : Request → ℕ → List String → Info → Bool
  hard_filter r stale_after blocked_nodes i =
      not (contains r.excluded i.id)
      && (i.namespace == r.namespace && i.pool_name == r.pool_name)
      && (i.pod_ready
          && i.runtime_ready
          && i.infra_ready
          && not i.draining
          && not (i.last_heartbeat == 0))
      && not (ltb stale_after (r.now - i.last_heartbeat) || ltb r.now i.rejected_until)
      && not (leb_ℤ (slot_capacity i) (pos 0) || leb_ℤ (slot_capacity i) (scheduling_used i))
      && unset_or_same r.runtime_name i.runtime_name
      && unset_or_same r.runtime_profile_hash i.runtime_profile_hash
      && unset_or_same r.resource_profile_hash i.resource_profile_hash
      && unset_or_same r.infra_revision i.infra_revision
      && unset_or_same r.fastlet_revision i.fastlet_revision
      && (not r.resource_aware
          || (not (contains blocked_nodes i.node_name)
              && fits q (resource_schedulability q i r.now stale_after) r.demand))

  abbrev ratio : ℤ → ℤ → fl.F
  ratio a b = fl.quotient (fl.of_int a) (fl.of_int b)

  -- `dominantResourceLoad`
  unfoldable pub dominant_load : Info → Request → fl.F
  dominant_load i r =
      let slots = ratio (scheduling_used i) (slot_capacity i) in
      if r.resource_aware
      then fl.max (fl.max slots (ratio (promised_cpu q i) (milli_value i.resource_capacity.cpu)))
          (ratio (promised_memory q i) (value i.resource_capacity.memory))
      else slots

  pub record Ranked : Type 0 where
    pub info : Info
    pub hit : Bool
    pub load_bucket : ℤ
    pub server_order : ℕ
    pub stable : ℕ

  unfoldable pub rank : Request → String → Info → Ranked
  unfolding image_hit dominant_load
  rank r seed i = record {
    info = i;
    hit = image_hit i r.image;
    load_bucket = fl.tenfold (dominant_load i r);
    server_order = if seed == "" then 0 else stable_order seed i.id;
    stable = stable_order r.stable_key i.id;
  }

  -- The comparison of `sort.Slice`.
  abbrev pub before_id : Ranked → Ranked → Bool
  before_id a b = text_lt a.info.id b.info.id

  abbrev pub before_stable : Ranked → Ranked → Bool
  before_stable a b = if a.stable == b.stable then before_id a b else ltb a.stable b.stable

  abbrev pub before_server : Ranked → Ranked → Bool
  before_server a b =
      if a.server_order == b.server_order
      then before_stable a b
      else ltb a.server_order b.server_order

  abbrev pub before_load : Ranked → Ranked → Bool
  before_load a b =
      if a.load_bucket == b.load_bucket
      then before_server a b
      else ltb_ℤ a.load_bucket b.load_bucket

  abbrev pub hit_first : Bool → Bool → Bool → Bool
  hit_first true true rest = rest
  hit_first false false rest = rest
  hit_first true false rest = true
  hit_first false true rest = false

  unfoldable pub before : Ranked → Ranked → Bool
  before a b = hit_first a.hit b.hit (before_load a b)

  unfoldable pub insert_ranked : Ranked → List Ranked → List Ranked
  insert_ranked a [] = a ∷ []
  insert_ranked a (b ∷ bs) =
      let rest = insert_ranked a bs in if before a b then a ∷ b ∷ bs else b ∷ rest

  unfoldable pub sort_ranked : List Ranked → List Ranked
  unfolding insert_ranked before
  sort_ranked [] = []
  sort_ranked (a ∷ as') = insert_ranked a (sort_ranked as')

  abbrev pub first : ℕ → List Ranked → List Ranked
  first zero rs = rs
  first (suc k) rs = take (suc k) rs

  -- The request's time and image as `TopK` completes them.
  abbrev pub completed_request : (String → String) → ℕ → Request → Request
  completed_request normalize clock r = record r {
    now = if r.now == 0 then clock else r.now;
    image = normalize r.image;
  }

  unfoldable pub eligible : Request → Registry Quantity → List Info
  unfolding hard_filter
  eligible r g =
      keep_if
        (hard_filter r g.stale_after (pressure_nodes q (infos q g.fastlets) r.now g.stale_after))
        (infos q g.fastlets)

  abbrev pub info_of : Ranked → Info
  info_of x = x.info

  unfoldable pub ranking : Request → Registry Quantity → List Ranked
  unfolding eligible rank sort_ranked
  ranking r g = sort_ranked (map (rank r g.server_seed) (eligible r g))

  -- `k` is 0 for "all".
  unfoldable pub top_k : (String → String) → ℕ → Request → ℕ → Registry Quantity → List Info
  unfolding ranking
  top_k normalize clock r k g =
      map info_of (first k (ranking (completed_request normalize clock r) g))
