-- ===== src/RouteStore/Fence.antt =====
-- Generation fencing: what a history of operations can do to one Sandbox UID.
use fast_sandbox.Base.{
  ◌≡◌, ◌⊎◌, inl, inr, ◌∷◌, [], List, Option, none, some, String, lookup, lookup-insert,
  lookup-remove, Bool-cases, ◌==◌, text_equality, eq_iff, arith, ℤ, ◌<ℤ◌, ◌≤ℤ◌, sym, ◌∙◌, Bool,
  ==_refl, int_equality,
}
use fast_sandbox.RouteStore.Routes.{Route, Store, high, or_zero}
use fast_sandbox.RouteStore.Operations.{
  announce, install, apply_route, with_default, drain_store, mark_draining, retire, delete_route,
}
use fast_sandbox.RouteStore.Cases.{
  WellDescribed, apply_route-Installs, mark_draining-Drains, delete_route-Retires,
}
use fast_sandbox.RouteStore.Invariant.{
  Inv, SlotInv, Kept, WellDescribed-Kept, apply_route-Inv, mark_draining-Inv, delete_route-Inv,
}

-- The control-plane calls of one store, with the parser of addresses fixed.
pub data Call : Type 0 where
  applies : Route → Call
  drains deletes : String → ℤ → Call

unfoldable pub step : (String → Bool) → Call → Store → Store
step is_ip (applies r) s = (apply_route is_ip r s).0
step is_ip (drains uid g) s = (mark_draining uid g s).0
step is_ip (deletes uid g) s = (delete_route uid g s).0

unfoldable pub run : (String → Bool) → List Call → Store → Store
run is_ip [] s = s
run is_ip (c ∷ cs) s = run is_ip cs (step is_ip c s)

pub step-Inv :
    (is_ip : String → Bool) (P : Route → Type 0) (c : Call) (s : Store)
    → Kept is_ip P
    → Inv P s
    → Inv P (step is_ip c s)
unfolding step
step-Inv is_ip P (applies r) s kept v = apply_route-Inv P is_ip r s kept v
step-Inv is_ip P (drains uid g) s kept v = mark_draining-Inv P uid g s (kept.1) v
step-Inv is_ip P (deletes uid g) s kept v = delete_route-Inv P uid g s v

-- Any calls keep the invariant: each active route has the UID of its slot, its generation is its UID's
-- high-water mark, and it is well described: it names its Sandbox, the namespace and the Pod, its attempt
-- and its generation are positive, its access is direct by an IP address, and it is ready or draining.
pub run-Inv :
    (is_ip : String → Bool) (cs : List Call) (s : Store)
    → Inv (WellDescribed is_ip) s
    → Inv (WellDescribed is_ip) (run is_ip cs s)
unfolding run
run-Inv is_ip [] s v = v
run-Inv is_ip (c ∷ cs) s v =
    run-Inv is_ip cs (step is_ip c s)
      (step-Inv is_ip (WellDescribed is_ip) c s (WellDescribed-Kept is_ip) v)

-- The part of the invariant that fencing needs: an active route has the UID of its slot, and its generation is its UID's high-water mark.
abbrev pub Linked : Store → Type 0
Linked = Inv (λ r. Unit {0})

linked-Kept : (is_ip : String → Bool) → Kept is_ip (λ r. Unit {0})
linked-Kept is_ip = ((λ r h. tt), (λ r h. tt))

abbrev pub Above : ℤ → Option Route → Type 0
Above g none = Unit {0}
Above g (some r) = g <ℤ r.route_generation

-- Generation `g` of a UID is over: only a later one can be active.
abbrev pub Fenced : String → ℤ → Store → Type 0
Fenced uid g s = (g ≤ℤ high s uid) × Above g (lookup uid s.active)

install-Fenced :
    (uid : String) (g : ℤ) (r : Route) (s : Store)
    → high s r.sandbox_uid <ℤ r.route_generation
    → Fenced uid g s
    → Fenced uid g (install r s)
unfolding install announce high
install-Fenced uid g r s h f = elim (Bool-cases (r.sandbox_uid == uid)) [
  | inl e ↦
      let below : or_zero (lookup uid s.high_water) <ℤ r.route_generation =
        rw (sym ((eq_iff r.sandbox_uid uid).0 e)) h in
      simp (lookup-insert, e) (omega arith, omega arith)
  | inr e ↦ simp (lookup-insert, e) f
]

drain_store-Fenced :
    (uid j : String) (g : ℤ) (r : Route) (s : Store)
    → lookup j s.active ≡ some r
    → r.sandbox_uid ≡ j
    → Fenced uid g s
    → Fenced uid g (drain_store r s)
unfolding drain_store announce high
drain_store-Fenced uid j g r s e named f = elim (Bool-cases (r.sandbox_uid == uid)) [
  | inl t ↦
      let at_uid : lookup uid s.active ≡ some r =
        rw (sym ((eq_iff r.sandbox_uid uid).0 t) ∙ named) e in
      simp (lookup-insert, t) (f.0, rw at_uid at (f.1))
  | inr t ↦ simp (lookup-insert, t) f
]

retire-Fenced :
    (uid j : String) (g k : ℤ) (s : Store)
    → high s j ≤ℤ k
    → Fenced uid g s
    → Fenced uid g (retire j k s)
unfolding retire announce high
retire-Fenced uid j g k s h f = elim (Bool-cases (j == uid)) [
  | inl e ↦
      let below : or_zero (lookup uid s.high_water) ≤ℤ k = rw (sym ((eq_iff j uid).0 e)) h in
      simp (lookup-insert, lookup-remove, e) (omega arith, tt)
  | inr e ↦ simp (lookup-insert, lookup-remove, e) f
]

step-Fenced :
    (is_ip : String → Bool) (uid : String) (g : ℤ) (c : Call) (s : Store)
    → Linked s
    → Fenced uid g s
    → Fenced uid g (step is_ip c s)
unfolding step
step-Fenced is_ip uid g (applies r) s v f = elim (apply_route-Installs is_ip r s) [
  | inl same ↦ rw (same, step) f
  | inr (e, h, _) ↦ rw (e, step) (install-Fenced uid g (with_default r) s h f)
]
step-Fenced is_ip uid g (drains j k) s v f = elim (mark_draining-Drains j k s) [
  | inl same ↦ rw (same, step) f
  | inr (r, e, inl same) ↦ rw (same, step) f
  | inr (r, e, inr (t, _)) ↦
      let slot : SlotInv (λ r. Unit {0}) j (some r) (lookup j s.high_water) = rw e at (v j) in
      rw (t, step) (drain_store-Fenced uid j g r s e slot.0 f)
]
step-Fenced is_ip uid g (deletes j k) s v f = elim (delete_route-Retires j k s) [
  | inl same ↦ rw (same, step) f
  | inr (e, h, _) ↦ rw (e, step) (retire-Fenced uid j g k s h f)
]

run-Fenced :
    (is_ip : String → Bool) (uid : String) (g : ℤ) (cs : List Call) (s : Store)
    → Linked s
    → Fenced uid g s
    → Fenced uid g (run is_ip cs s)
unfolding run
run-Fenced is_ip uid g [] s v f = f
run-Fenced is_ip uid g (c ∷ cs) s v f =
    run-Fenced is_ip uid g cs (step is_ip c s)
      (step-Inv is_ip (λ r. Unit) c s (linked-Kept is_ip) v) (step-Fenced is_ip uid g c s v f)

delete_route-accepted :
    (uid : String) (g : ℤ) (s : Store)
    → (delete_route uid g s).2 ≡ none
    → (((delete_route uid g s).0 ≡ s) × (g ≡ high s uid) × (lookup uid s.active ≡ none))
      ⊎ ((delete_route uid g s).0 ≡ retire uid g s)
unfolding delete_route
delete_route-accepted uid g s ok = ground arith

retire-Retired : (uid : String) (g : ℤ) (s : Store) → Fenced uid g (retire uid g s)
unfolding retire announce high
retire-Retired uid g s = simp (lookup-insert, lookup-remove, ==_refl) (omega arith, tt)

delete_route-Fenced :
    (uid : String) (g : ℤ) (s : Store)
    → (delete_route uid g s).2 ≡ none
    → Fenced uid g (delete_route uid g s).0
delete_route-Fenced uid g s ok = elim (delete_route-accepted uid g s ok) [
  | inl (same, e, gone) ↦ rw (same, e, gone) (omega arith, tt)
  | inr e ↦ rw e (retire-Retired uid g s)
]

-- Once `Delete` of a generation has succeeded on a store with the invariant, no history of calls makes
-- that generation, or an older one, active again: whatever is active for the UID later has a larger
-- generation.
pub delete-never_resurrects :
    (is_ip : String → Bool) (uid : String) (g : ℤ) (s : Store) (cs : List Call) (r : Route)
    → Linked s
    → (delete_route uid g s).2 ≡ none
    → lookup uid (run is_ip cs (delete_route uid g s).0).active ≡ some r
    → g <ℤ r.route_generation
delete-never_resurrects is_ip uid g s cs r v ok e = rw e at (
    (run-Fenced is_ip uid g cs (delete_route uid g s).0 (delete_route-Inv (λ r. Unit) uid g s v)
      (delete_route-Fenced uid g s ok)).1)
