-- ===== src/RouteStore/Operations.antt =====
-- fastletproxy/store.go: the operations of the store and what they publish.
use fast_sandbox.Base.{
  ℕ, Bool, true, false, not, ◌&&◌, ◌||◌, Option, none, some, List, [], ◌∷◌, ◌++◌, String, lookup,
  insert, remove, length, ltb, ◌==◌, text_equality, nat_equality, if◌then◌else◌, ℤ, pos,
  int_equality, ltb_ℤ, leb_ℤ, keep_if,
}
use fast_sandbox.RouteStore.Routes.{
  RouteState, Route, RouteError, EventType, Event, Watcher, Store, next_revision, watcher_buffer,
  high, state_beq, validate, deep_equal, unset, ready, draining, not_found, stale, conflict,
  is_draining, applied, deleted, drained,
}

-- `select { case watcher <- event: default: delete, close }` for each watcher.
unfoldable pub publish : Event → List Watcher → List Watcher
publish e [] = []
publish e (w ∷ ws) =
    let rest = publish e ws in
    if ltb (length w.pending) watcher_buffer
    then record w { pending = w.pending ++ e ∷ [] } ∷ rest
    else rest

-- `s.revision++` and `publishLocked` of an event that carries the new revision.
unfoldable pub announce : EventType → String → ℤ → Option Route → Store → Store
announce type uid generation spec s = record s {
  revision = next_revision s.revision;
  watchers = publish event s.watchers;
}
  where
    event : Event
    event = record {
      revision = next_revision s.revision;
      type = type;
      sandbox_uid = uid;
      route_generation = generation;
      spec = spec;
    }

abbrev pub Outcome : Type 0
Outcome = Store × ℕ × Option RouteError

unfoldable pub install : Route → Store → Store
install r s = announce applied r.sandbox_uid r.route_generation (some r) (record s {
  high_water = insert r.sandbox_uid r.route_generation s.high_water;
  active = insert r.sandbox_uid r s.active;
})

unfoldable pub apply_fresh : Route → Store → Outcome
apply_fresh r s =
    if r.route_generation == high s r.sandbox_uid && not (high s r.sandbox_uid == pos 0)
    then (s, s.revision, some stale)
    else (install r s, (install r s).revision, none)

unfoldable pub apply_existing : Route → Store → Option Route → Outcome
unfolding apply_fresh
apply_existing r s none = apply_fresh r s
apply_existing r s (some e) =
    if r.route_generation == e.route_generation
    then (if deep_equal e r then (s, s.revision, none) else (s, s.revision, some conflict))
    else apply_fresh r s

abbrev pub default_state : RouteState → RouteState
default_state unset = ready
default_state st = st

abbrev pub with_default : Route → Route
with_default r = record r { state = default_state r.state }

unfoldable pub apply_route : (String → Bool) → Route → Store → Outcome
unfolding apply_existing
apply_route is_ip route s =
    let r = with_default route in
    if not (validate is_ip r)
    then (s, 0, some conflict)
    else if ltb_ℤ r.route_generation (high s r.sandbox_uid)
    then (s, s.revision, some stale)
    else apply_existing r s (lookup r.sandbox_uid s.active)

abbrev pub drain_of : Route → Route
drain_of r = record r { state = draining }

unfoldable pub drain_store : Route → Store → Store
drain_store r s =
    announce drained r.sandbox_uid r.route_generation (some (drain_of r))
      (record s { active = insert r.sandbox_uid (drain_of r) s.active })

unfoldable pub drain_existing : ℤ → Store → Route → Outcome
drain_existing generation s r =
    if ltb_ℤ generation r.route_generation
    then (s, s.revision, some stale)
    else if ltb_ℤ r.route_generation generation
    then (s, s.revision, some conflict)
    else if state_beq r.state draining
    then (s, s.revision, none)
    else (drain_store r s, (drain_store r s).revision, none)

unfoldable pub mark_draining_found : String → ℤ → Store → Option Route → Outcome
unfolding drain_existing
mark_draining_found uid generation s none =
    (s, s.revision, if ltb_ℤ generation (high s uid) then some stale else some not_found)
mark_draining_found uid generation s (some r) = drain_existing generation s r

unfoldable pub mark_draining : String → ℤ → Store → Outcome
unfolding mark_draining_found
mark_draining uid generation s = mark_draining_found uid generation s (lookup uid s.active)

abbrev pub present {ℓ} : {A : Type ℓ} → Option A → Bool
present none = false
present (some _) = true

unfoldable pub retire : String → ℤ → Store → Store
retire uid generation s =
    announce deleted uid generation none
      (record s { high_water = insert uid generation s.high_water; active = remove uid s.active })

unfoldable pub delete_route : String → ℤ → Store → Outcome
delete_route uid generation s =
    if uid == "" || leb_ℤ generation (pos 0)
    then (s, 0, some conflict)
    else if ltb_ℤ generation (high s uid)
    then (s, s.revision, some stale)
    else if generation == high s uid && not (present (lookup uid s.active))
    then (s, s.revision, none)
    else (retire uid generation s, (retire uid generation s).revision, none)

pub data Found : Type 0 where
  found : Route → Found
  failed : RouteError → Found

abbrev pub serve : Option Route → Found
serve none = failed not_found
serve (some r) = if state_beq r.state draining then failed is_draining else found r

-- `Lookup`: a data-plane read.
unfoldable pub lookup_route : String → Store → Found
lookup_route uid s = serve (lookup uid s.active)

-- `Subscribe` and the function that it returns.
unfoldable pub subscribe : Store → Store × ℕ
subscribe s =
    let id = next_revision s.next_watcher in
    (record s { next_watcher = id; watchers = record { id = id; pending = [] } ∷ s.watchers }, id)

unfoldable pub unsubscribe : ℕ → Store → Store
unsubscribe id s = record s { watchers = keep_if (λ w. not (w.id == id)) s.watchers }
