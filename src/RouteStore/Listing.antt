-- ===== src/RouteStore/Listing.antt =====
-- fastletproxy/store.go: `Snapshot`, and what it lists.
use mathlib.Core.List.{Perm}
use mathlib.Core.List.Perm
use fast_sandbox.Base.{
  ℕ, ◌≡◌, refl, inl, inr, Bool, false, some, List, [], ◌∷◌, String, Dict, lookup, Bool-cases,
  text_lt, text_lt-asym, ◌==◌, text_equality, if◌then◌else◌, Mem, mem-cons_self, mem-cons_of_mem,
}
use mathlib.Core.Option.{none-ne-some}
use fast_sandbox.RouteStore.Routes.{Route, Store}

pub record Snapshot : Type 0 where
  pub revision : ℕ
  pub routes : List Route

abbrev pub routes_of : Dict Route → List Route
routes_of [] = []
routes_of ((uid, r) ∷ active) = r ∷ routes_of active

abbrev by_uid : Route → Route → Bool
by_uid a b = text_lt a.sandbox_uid b.sandbox_uid

unfoldable pub insert_route : Route → List Route → List Route
insert_route a [] = a ∷ []
insert_route a (b ∷ bs) =
    let rest = insert_route a bs in if by_uid a b then a ∷ b ∷ bs else b ∷ rest

unfoldable pub sort_routes : List Route → List Route
unfolding insert_route
sort_routes [] = []
sort_routes (a ∷ rest) = insert_route a (sort_routes rest)

unfoldable pub snapshot_routes : Store → Snapshot
unfolding sort_routes
snapshot_routes s = record { revision = s.revision; routes = sort_routes (routes_of s.active) }

-- No route has a smaller UID than the route in front of it.
abbrev pub ByUid : List Route → Type 0
ByUid [] = Unit {0}
ByUid (a ∷ []) = Unit {0}
ByUid (a ∷ b ∷ rest) = (by_uid b a ≡ false) × ByUid (b ∷ rest)

insert_behind-ByUid :
    (a b : Route) (bs : List Route)
    → by_uid a b ≡ false
    → ByUid (b ∷ bs)
    → ByUid (b ∷ insert_route a bs)
unfolding insert_route
insert_behind-ByUid a b [] e sorted = (e, tt)
insert_behind-ByUid a b (c ∷ cs) e (x, sorted) = elim (Bool-cases (by_uid a c)) [
  | inl f ↦ rw f (e, (text_lt-asym a.sandbox_uid c.sandbox_uid f, sorted))
  | inr f ↦ rw f (x, insert_behind-ByUid a c cs f sorted)
]

insert_route-ByUid : (a : Route) (bs : List Route) → ByUid bs → ByUid (insert_route a bs)
unfolding insert_route
insert_route-ByUid a [] sorted = tt
insert_route-ByUid a (b ∷ bs) sorted = elim (Bool-cases (by_uid a b)) [
  | inl e ↦ rw e (text_lt-asym a.sandbox_uid b.sandbox_uid e, sorted)
  | inr e ↦ rw e (insert_behind-ByUid a b bs e sorted)
]

insert_route-Perm : (a : Route) (bs : List Route) → Perm (a ∷ bs) (insert_route a bs)
unfolding insert_route
insert_route-Perm a [] = Perm.refl (a ∷ [])
insert_route-Perm a (b ∷ bs) = elim (Bool-cases (by_uid a b)) [
  | inl e ↦ rw e (Perm.refl (a ∷ b ∷ bs))
  | inr e ↦ rw e (Perm.trans (Perm.swap b a bs) (Perm.cons b (insert_route-Perm a bs)))
]

sort_routes-ByUid : (rs : List Route) → ByUid (sort_routes rs)
unfolding sort_routes
sort_routes-ByUid [] = tt
sort_routes-ByUid (a ∷ rest) = insert_route-ByUid a (sort_routes rest) (sort_routes-ByUid rest)

sort_routes-Perm : (rs : List Route) → Perm rs (sort_routes rs)
unfolding sort_routes
sort_routes-Perm [] = Perm.refl []
sort_routes-Perm (a ∷ rest) =
    Perm.trans (Perm.cons a (sort_routes-Perm rest)) (insert_route-Perm a (sort_routes rest))

lookup-Mem :
    (uid : String) (r : Route) (active : Dict Route)
    → lookup uid active ≡ some r
    → Mem r (routes_of active)
unfolding lookup
lookup-Mem uid r [] e = absurd (none-ne-some r e)
lookup-Mem uid r ((k, old) ∷ rest) e = elim (Bool-cases (k == uid)) [
  | inl t ↦
      let found : some old ≡ some r = rw t at e in
      let same : old ≡ r = cc found in rw same mem-cons_self
  | inr f ↦ mem-cons_of_mem old (lookup-Mem uid r rest (rw f at e))
]

-- `Snapshot` lists every active route, in the order of UIDs, with the store's revision.
pub snapshot_routes-ByUid :
    (s : Store) (uid : String) (r : Route)
    → lookup uid s.active ≡ some r
    → ((snapshot_routes s).revision ≡ s.revision)
      × ByUid (snapshot_routes s).routes
      × Mem r (snapshot_routes s).routes
unfolding snapshot_routes
snapshot_routes-ByUid s uid r e = (
  refl,
  sort_routes-ByUid (routes_of s.active),
  (Perm.mem_iff (sort_routes-Perm (routes_of s.active))).0 (lookup-Mem uid r s.active e),
)
