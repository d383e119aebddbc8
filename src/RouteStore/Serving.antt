-- ===== src/RouteStore/Serving.antt =====
-- What the data plane looks up after `Apply`.
use fast_sandbox.Base.{
  lookup-insert_self, not, ◌&&◌, ltb_ℤ, true, ◌≡◌, refl, ◌⊎◌, inl, inr, Option, none, some, String,
  lookup, Bool-cases, ◌==◌, text_equality, arith, pos, Bool, int_equality, ap,
}
use fast_sandbox.RouteStore.Routes.{deep_equal, validate, Route, ready, Store, high}
use fast_sandbox.RouteStore.Operations.{
  apply_fresh, apply_existing, default_state, announce, install, apply_route, with_default,
  lookup_route, found,
}

abbrev Serves : Route → Store → Type 0
Serves r s =
    (e : Route) × (lookup_route r.sandbox_uid s ≡ found e) × ((deep_equal e r ≡ true) ⊎ (e ≡ r))

deep_equal-ready : (e r : Route) → deep_equal e r ≡ true → r.state ≡ ready → e.state ≡ ready
unfolding deep_equal
deep_equal-ready e r h st = ground arith

install-Serves : (r : Route) (s : Store) → r.state ≡ ready → Serves r (install r s)
unfolding install announce lookup_route
install-Serves r s st = (r, simp (lookup-insert_self, st), inr refl)

apply_fresh-Serves :
    (r : Route) (s : Store)
    → r.state ≡ ready
    → (apply_fresh r s).2 ≡ none
    → Serves r (apply_fresh r s).0
unfolding apply_fresh
apply_fresh-Serves r s st ok =
    elim (Bool-cases
      (r.route_generation == high s r.sandbox_uid && not (high s r.sandbox_uid == pos 0))) [
        | inl old ↦ cc (rw (old, apply_fresh) at ok)
        | inr new ↦ rw (new, apply_fresh) (install-Serves r s st)
      ]

apply_existing-Serves :
    (r : Route) (s : Store) (o : Option Route)
    → lookup r.sandbox_uid s.active ≡ o
    → r.state ≡ ready
    → (apply_existing r s o).2 ≡ none
    → Serves r (apply_existing r s o).0
unfolding apply_existing
apply_existing-Serves r s none at_uid st ok = apply_fresh-Serves r s st ok
apply_existing-Serves r s (some e) at_uid st ok =
    elim (Bool-cases (r.route_generation == e.route_generation)) [
      | inl g ↦ elim (Bool-cases (deep_equal e r)) [
        | inl d ↦
            rw (g, d) (e, unfold lookup_route in rw (at_uid, deep_equal-ready e r d st), inl d)
        | inr d ↦ cc (rw (g, d) at ok)
      ]
      | inr g ↦ rw g (apply_fresh-Serves r s st (rw g at ok))
    ]

-- A ready route that `Apply` accepts is what the data plane looks up from then on, or the route
-- that was there before and is `DeepEqual` to it.
pub apply_route-lookup_route :
    (is_ip : String → Bool) (route : Route) (s : Store)
    → route.state ≡ ready
    → (apply_route is_ip route s).2 ≡ none
    → (e : Route) × (lookup_route route.sandbox_uid (apply_route is_ip route s).0 ≡ found e)
      × ((deep_equal e (with_default route) ≡ true) ⊎ (e ≡ with_default route))
unfolding apply_route
apply_route-lookup_route is_ip route s st ok =
    elim (Bool-cases (validate is_ip (with_default route))) [
      | inl v ↦ elim (Bool-cases (ltb_ℤ route.route_generation (high s route.sandbox_uid))) [
        | inl old ↦ cc (rw (v, old) at ok)
        | inr h ↦
            rw (v, h)
              (apply_existing-Serves (with_default route) s _ refl (ap default_state st)
                (rw (v, h) at ok))
      ]
      | inr bad ↦ cc (rw bad at ok)
    ]
