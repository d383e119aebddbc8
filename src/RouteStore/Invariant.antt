-- ===== src/RouteStore/Invariant.antt =====
-- What holds of the route store between two operations.
use fast_sandbox.Base.{
  ◌≡◌, refl, inl, inr, Option, none, some, String, lookup, lookup-insert, lookup-remove, Bool-cases,
  ◌==◌, text_equality, eq_iff, ℤ, sym, ◌∙◌, Bool,
}
use fast_sandbox.RouteStore.Routes.{Route, draining, Store, new_store}
use fast_sandbox.RouteStore.Operations.{
  announce, install, apply_route, with_default, drain_store, mark_draining, retire, delete_route,
}
use fast_sandbox.RouteStore.Cases.{
  WellDescribed, apply_route-Installs, mark_draining-Drains, delete_route-Retires,
}

-- What the entries of one Sandbox UID in the two maps say of each other, with what `P` says of the route.
abbrev pub SlotInv : (Route → Type 0) → String → Option Route → Option ℤ → Type 0
SlotInv P uid none h = Unit
SlotInv P uid (some r) h = (r.sandbox_uid ≡ uid) × (h ≡ some r.route_generation) × P r

abbrev pub Inv : (Route → Type 0) → Store → Type 0
Inv P s = (uid : String) → SlotInv P uid (lookup uid s.active) (lookup uid s.high_water)

-- A well-described route has the property, and so has a route with it that is set to draining.
abbrev pub Kept : (String → Bool) → (Route → Type 0) → Type 0
Kept is_ip P =
    ((r : Route) → WellDescribed is_ip r → P r)
    × ((r : Route) → P r → P (record r { state = draining }))

pub WellDescribed-Kept : (is_ip : String → Bool) → Kept is_ip (WellDescribed is_ip)
WellDescribed-Kept is_ip =
    ((λ r h. h), (λ r (a, b, c, d, e, f, g, h). (a, b, c, d, e, f, g, inr refl)))

pub new_store-Inv : (P : Route → Type 0) → Inv P new_store
unfolding new_store lookup
new_store-Inv P uid = tt

module _ (P : Route → Type 0) where
  install-Inv : (r : Route) (s : Store) → P r → Inv P s → Inv P (install r s)
  unfolding install announce
  install-Inv r s p v j = elim (Bool-cases (r.sandbox_uid == j)) [
    | inl e ↦ simp (lookup-insert, e) ((eq_iff r.sandbox_uid j).0 e, refl, p)
    | inr e ↦ simp (lookup-insert, e) (v j)
  ]

  drain_store-Inv :
      (uid : String) (r : Route) (s : Store)
      → (P r → P (record r { state = draining }))
      → lookup uid s.active ≡ some r
      → Inv P s
      → Inv P (drain_store r s)
  unfolding drain_store announce
  drain_store-Inv uid r s keeps e v j = elim (Bool-cases (r.sandbox_uid == j)) [
    | inl t ↦
        let named = (eq_iff r.sandbox_uid j).0 t in
        let marked : lookup j s.high_water ≡ some r.route_generation =
          rw (sym named ∙ slot.0) slot.1 in
        simp (lookup-insert, t) (named, marked, keeps slot.2)
    | inr f ↦ simp (lookup-insert, f) (v j)
  ]
    where
      slot : SlotInv P uid (some r) (lookup uid s.high_water)
      slot = rw e at (v uid)

  retire-Inv : (uid : String) (g : ℤ) (s : Store) → Inv P s → Inv P (retire uid g s)
  unfolding retire announce
  retire-Inv uid g s v j = elim (Bool-cases (uid == j)) [
    | inl e ↦ simp (lookup-remove, e) tt
    | inr e ↦ simp (lookup-remove, lookup-insert, e) (v j)
  ]

  pub apply_route-Inv :
      (is_ip : String → Bool) (route : Route) (s : Store)
      → Kept is_ip P
      → Inv P s
      → Inv P (apply_route is_ip route s).0
  apply_route-Inv is_ip route s (gives, keeps) v = elim (apply_route-Installs is_ip route s) [
    | inl same ↦ rw same v
    | inr (e, _, p) ↦ rw e (install-Inv (with_default route) s (gives _ p) v)
  ]

  pub mark_draining-Inv :
      (uid : String) (g : ℤ) (s : Store)
      → ((r : Route) → P r → P (record r { state = draining }))
      → Inv P s
      → Inv P (mark_draining uid g s).0
  mark_draining-Inv uid g s keeps v = elim (mark_draining-Drains uid g s) [
    | inl same ↦ rw same v
    | inr (r, e, inl same) ↦ rw same v
    | inr (r, e, inr (t, _)) ↦ rw t (drain_store-Inv uid r s (keeps r) e v)
  ]

  pub delete_route-Inv :
      (uid : String) (g : ℤ) (s : Store) → Inv P s → Inv P (delete_route uid g s).0
  delete_route-Inv uid g s v = elim (delete_route-Retires uid g s) [
    | inl same ↦ rw same v
    | inr (e, _, _) ↦ rw e (retire-Inv uid g s v)
  ]
