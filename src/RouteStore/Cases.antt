-- ===== src/RouteStore/Cases.antt =====
-- Each operation either leaves the store as it is or makes one change, under the conditions that its
-- guards leave. The properties of the store go through these lemmas.
use fast_sandbox.Base.{
  ◌≡◌, ◌≢◌, ◌==◌, text_equality, eq_iff, ◌⊎◌, inl, inr, Bool, true, false, Option, none, some,
  String, lookup, Bool-cases, Option-cases, arith, ℤ, pos, ◌<ℤ◌, ◌≤ℤ◌, ltb_ℤ,
}
use fast_sandbox.RouteStore.Routes.{Route, ready, draining, Store, high, validate}
use fast_sandbox.RouteStore.Operations.{
  Outcome, install, apply_existing, apply_route, with_default, drain_existing, mark_draining_found,
  mark_draining, retire, delete_route, drain_store,
}

-- A full description of a route: it names its Sandbox, the namespace and the Pod, its attempt and its
-- generation are positive, it is reached directly by an address, and its state is known.
abbrev pub WellDescribed : (String → Bool) → Route → Type 0
WellDescribed is_ip r =
    (r.namespace ≢ "")
    × (r.sandbox_uid ≢ "")
    × (r.fastlet_pod_uid ≢ "")
    × (pos 0 <ℤ r.assignment_attempt)
    × (pos 0 <ℤ r.route_generation)
    × (r.access.kind ≡ "DirectIP")
    × (is_ip r.access.address ≡ true)
    × ((r.state ≡ ready) ⊎ (r.state ≡ draining))

given : (t : String) → (t == "") ≡ false → t ≢ ""
given t h e = cc ((eq_iff t "").1 e, h)

with_default-WellDescribed :
    (is_ip : String → Bool) (route : Route)
    → validate is_ip (with_default route) ≡ true
    → WellDescribed is_ip (with_default route)
unfolding validate
with_default-WellDescribed is_ip route h = (
  given route.namespace (ground arith),
  given route.sandbox_uid (ground arith),
  given route.fastlet_pod_uid (ground arith),
  ground arith,
  ground arith,
  ground (arith, eq_iff route.access.kind "DirectIP"),
  ground arith,
  ground arith,
)

abbrev pub Installs : (String → Bool) → Route → Store → Outcome → Type 0
Installs is_ip r s o =
    (o.0 ≡ s)
    ⊎ ((o ≡ (install r s, (install r s).revision, none))
        × (high s r.sandbox_uid <ℤ r.route_generation)
        × WellDescribed is_ip r)

apply_existing-Installs :
    (is_ip : String → Bool) (r : Route) (s : Store) (e : Option Route)
    → WellDescribed is_ip r
    → ltb_ℤ r.route_generation (high s r.sandbox_uid) ≡ false
    → Installs is_ip r s (apply_existing r s e)
unfolding apply_existing
apply_existing-Installs is_ip r s none v h = ground arith
apply_existing-Installs is_ip r s (some e) v h = ground arith

-- `Apply` installs only a well-described route of a generation above the high-water mark.
pub apply_route-Installs :
    (is_ip : String → Bool) (route : Route) (s : Store)
    → Installs is_ip (with_default route) s (apply_route is_ip route s)
unfolding apply_route
apply_route-Installs is_ip route s = elim (Bool-cases (validate is_ip (with_default route))) [
  | inl v ↦ elim (Bool-cases (ltb_ℤ route.route_generation (high s route.sandbox_uid))) [
    | inl old ↦ inl (rw (v, old))
    | inr h ↦
        rw (v, h)
          (apply_existing-Installs is_ip (with_default route) s _
            (with_default-WellDescribed is_ip route v) h)
  ]
  | inr bad ↦ inl (rw bad)
]

abbrev DrainsRoute : ℤ → Route → Store → Outcome → Type 0
DrainsRoute g r s o =
    (o.0 ≡ s)
    ⊎ ((o ≡ (drain_store r s, (drain_store r s).revision, none)) × (r.route_generation ≡ g))

abbrev pub Drains : String → ℤ → Store → Outcome → Type 0
Drains uid g s o = (o.0 ≡ s) ⊎ ((r : Route) × (lookup uid s.active ≡ some r) × DrainsRoute g r s o)

drain_existing-Drains : (g : ℤ) (s : Store) (r : Route) → DrainsRoute g r s (drain_existing g s r)
unfolding drain_existing
drain_existing-Drains g s r = ground arith

-- `MarkDraining` changes only an active route of exactly the generation that it names.
pub mark_draining-Drains :
    (uid : String) (g : ℤ) (s : Store) → Drains uid g s (mark_draining uid g s)
unfolding mark_draining
mark_draining-Drains uid g s = elim (Option-cases (lookup uid s.active)) [
  | inl e ↦ inl (rw (e, mark_draining_found))
  | inr (r, e) ↦ inr (r, e, rw (e, mark_draining_found) (drain_existing-Drains g s r))
]

abbrev pub Retires : String → ℤ → Store → Outcome → Type 0
Retires uid g s o =
    (o.0 ≡ s)
    ⊎ ((o ≡ (retire uid g s, (retire uid g s).revision, none)) × (high s uid ≤ℤ g) × (pos 0 <ℤ g))

-- `Delete` retires a generation at or above the high-water mark.
pub delete_route-Retires :
    (uid : String) (g : ℤ) (s : Store) → Retires uid g s (delete_route uid g s)
unfolding delete_route
delete_route-Retires uid g s = ground arith
