-- ===== src/RouteStore/Watch.antt =====
-- What waits in a subscriber's channel: events of consecutive revisions up to the store's.
use fast_sandbox.Base.{
  ℕ, ◌≤◌, ◌≡◌, refl, inl, inr, ◌∷◌, [], ◌++◌, List, Option, String, Bool, Bool-cases, ◌==◌,
  nat_equality, arith, ℤ, All, length, length-append, ltb, ltb→lt, keep_if, if◌then◌else◌,
}
use fast_sandbox.RouteStore.Routes.{
  Route, Store, Event, Watcher, next_revision, watcher_buffer, EventType,
}
use fast_sandbox.RouteStore.Operations.{
  announce, install, publish, apply_route, mark_draining, delete_route, subscribe, unsubscribe,
  drain_store, retire,
}
use fast_sandbox.RouteStore.Cases.{apply_route-Installs, mark_draining-Drains, delete_route-Retires}

-- The subscriber with this id reads one event from its channel.
abbrev drop_first : List Event → List Event
drop_first [] = []
drop_first (e ∷ es) = es

unfoldable pub receive_from : ℕ → List Watcher → List Watcher
receive_from id [] = []
receive_from id (w ∷ ws) =
    (if w.id == id then record w { pending = drop_first w.pending } else w) ∷ receive_from id ws

unfoldable pub receive : ℕ → Store → Store
unfolding receive_from
receive id s = record s { watchers = receive_from id s.watchers }

pub data Action : Type 0 where
  applies : Route → Action
  drains deletes : String → ℤ → Action
  subscribes : Action
  unsubscribes receives : ℕ → Action

unfoldable pub act : (String → Bool) → Action → Store → Store
act is_ip (applies r) s = (apply_route is_ip r s).0
act is_ip (drains uid g) s = (mark_draining uid g s).0
act is_ip (deletes uid g) s = (delete_route uid g s).0
act is_ip subscribes s = (subscribe s).0
act is_ip (unsubscribes id) s = unsubscribe id s
act is_ip (receives id) s = receive id s

unfoldable pub history : (String → Bool) → List Action → Store → Store
history is_ip [] s = s
history is_ip (a ∷ as') s = history is_ip as' (act is_ip a s)

-- The events carry consecutive revisions, the last of them the given one.
abbrev pub EndsAt : ℕ → List Event → Type 0
EndsAt rev [] = Unit {0}
EndsAt rev (e ∷ []) = e.revision ≡ rev
EndsAt rev (e ∷ f ∷ es) = (f.revision ≡ next_revision e.revision) × EndsAt rev (f ∷ es)

abbrev pub UpToDate : ℕ → Watcher → Type 0
UpToDate rev w = EndsAt rev w.pending × (length w.pending ≤ watcher_buffer)

abbrev pub NoGaps : Store → Type 0
NoGaps s = All (UpToDate s.revision) s.watchers

EndsAt-snoc :
    (rev : ℕ) (e : Event) (es : List Event)
    → e.revision ≡ next_revision rev
    → EndsAt rev es
    → EndsAt (next_revision rev) (es ++ e ∷ [])
EndsAt-snoc rev e [] h c = h
EndsAt-snoc rev e (a ∷ []) h c = (rw c h, h)
EndsAt-snoc rev e (a ∷ b ∷ es) h c = (c.0, EndsAt-snoc rev e (b ∷ es) h c.1)

EndsAt-drop_first : (rev : ℕ) (es : List Event) → EndsAt rev es → EndsAt rev (drop_first es)
EndsAt-drop_first rev [] c = tt
EndsAt-drop_first rev (a ∷ []) c = tt
EndsAt-drop_first rev (a ∷ b ∷ es) c = c.1

length-drop_first : (es : List Event) → length (drop_first es) ≤ length es
length-drop_first [] = omega arith
length-drop_first (e ∷ es) = omega arith

publish-UpToDate :
    (rev : ℕ) (e : Event) (ws : List Watcher)
    → e.revision ≡ next_revision rev
    → All (UpToDate rev) ws
    → All (UpToDate (next_revision rev)) (publish e ws)
unfolding publish
publish-UpToDate rev e [] h c = tt
publish-UpToDate rev e (w ∷ ws) h c = elim (Bool-cases (ltb (length w.pending) watcher_buffer)) [
  | inl room ↦ rw room (
    (
      EndsAt-snoc rev e w.pending h c.0.0,
      omega (arith, length-append w.pending (e ∷ []), ltb→lt _ _ room),
    ),
    publish-UpToDate rev e ws h c.1,
  )
  | inr full ↦ rw full (publish-UpToDate rev e ws h c.1)
]

announce-NoGaps :
    (type : EventType) (uid : String) (g : ℤ) (spec : Option Route) (s : Store)
    → NoGaps s
    → NoGaps (announce type uid g spec s)
unfolding announce
announce-NoGaps type uid g spec s c = publish-UpToDate s.revision _ s.watchers refl c

receive_from-UpToDate :
    (rev id : ℕ) (ws : List Watcher)
    → All (UpToDate rev) ws
    → All (UpToDate rev) (receive_from id ws)
unfolding receive_from
receive_from-UpToDate rev id [] c = tt
receive_from-UpToDate rev id (w ∷ ws) c = elim (Bool-cases (w.id == id)) [
  | inl e ↦ rw e (
    (EndsAt-drop_first rev w.pending c.0.0, omega (arith, length-drop_first w.pending)),
    receive_from-UpToDate rev id ws c.1,
  )
  | inr e ↦ rw e (c.0, receive_from-UpToDate rev id ws c.1)
]

keep_if-UpToDate :
    (rev : ℕ) (p : Watcher → Bool) (ws : List Watcher)
    → All (UpToDate rev) ws
    → All (UpToDate rev) (keep_if p ws)
keep_if-UpToDate rev p [] c = tt
keep_if-UpToDate rev p (w ∷ ws) c = elim (Bool-cases (p w)) [
  | inl e ↦ rw e (c.0, keep_if-UpToDate rev p ws c.1)
  | inr e ↦ rw e (keep_if-UpToDate rev p ws c.1)
]

-- Every step keeps the channels free of gaps.
pub act-NoGaps :
    (is_ip : String → Bool) (a : Action) (s : Store) → NoGaps s → NoGaps (act is_ip a s)
unfolding act
act-NoGaps is_ip (applies r) s c = elim (apply_route-Installs is_ip r s) [
  | inl same ↦ rw (same, act) c
  | inr (e, _, _) ↦ rw (e, act) (unfold install in announce-NoGaps _ _ _ _ _ c)
]
act-NoGaps is_ip (drains uid g) s c = elim (mark_draining-Drains uid g s) [
  | inl same ↦ rw (same, act) c
  | inr (r, e, inl same) ↦ rw (same, act) c
  | inr (r, e, inr (t, _)) ↦ rw (t, act) (unfold drain_store in announce-NoGaps _ _ _ _ _ c)
]
act-NoGaps is_ip (deletes uid g) s c = elim (delete_route-Retires uid g s) [
  | inl same ↦ rw (same, act) c
  | inr (e, _, _) ↦ rw (e, act) (unfold retire in announce-NoGaps _ _ _ _ _ c)
]
act-NoGaps is_ip subscribes s c = unfold subscribe in ((tt, omega arith), c)
act-NoGaps is_ip (unsubscribes id) s c =
    unfold unsubscribe in keep_if-UpToDate s.revision _ s.watchers c
act-NoGaps is_ip (receives id) s c =
    unfold receive in receive_from-UpToDate s.revision id s.watchers c

-- Any history keeps the channels free of gaps: what waits in a live subscriber's channel are consecutive
-- revisions that end at the store's own, at most 64 of them.
pub history-NoGaps :
    (is_ip : String → Bool) (as' : List Action) (s : Store)
    → NoGaps s
    → NoGaps (history is_ip as' s)
unfolding history
history-NoGaps is_ip [] s c = c
history-NoGaps is_ip (a ∷ as') s c =
    history-NoGaps is_ip as' (act is_ip a s) (act-NoGaps is_ip a s c)
