-- ===== src/AgentState/ExactlyOnce.antt =====
-- A request id takes effect once.
use fast_sandbox.Base.{
  ◌≡◌, refl, inl, inr, Option, none, some, List, [], ◌∷◌, String, lookup, remove, lookup-insert,
  lookup-remove, Bool-cases, Option-cases, ◌==◌, text_equality, eq_iff, if◌then◌else◌, Bool, true,
  false,
}
use fast_sandbox.AgentState.Leases.{
  Identity, State, Op, Args, Result, Completed, Inflight, Lease, completed_result, op_beq,
  lease_devices, release_devices, leased,
}
use fast_sandbox.AgentState.Calls.{
  replayed, conflict, begin_run, begin_seen, begin_new, end_run, finish_run, commit, lease_existing,
  remember_completed, or_no_lease, Begun, begin_lease, begin_lease_for, begin_release, foreign,
}
use fast_sandbox.AgentState.History.{Action, begins, ends, reuses, act, history}
use fast_sandbox.AgentState.Effects.{apply_result-Keeps}

-- The request is over, with the outcome `c`.
abbrev pub Done : String → Completed → State → Type 0
Done id c s = (lookup id s.completed ≡ some c) × (lookup id s.inflight ≡ none)

begin_new-Done :
    (k : String) (c : Completed) (id : Identity) (op : Op) (args : Args) (ok : Bool) (s : State)
    (o : Option Inflight)
    → (id.request_id == k) ≡ false
    → Done k c s
    → Done k c (begin_new id op args ok s o).1
unfolding begin_new
begin_new-Done k c id op args ok s (some p) e h = h
begin_new-Done k c id op args true s none e h = simp (lookup-insert, e) h
begin_new-Done k c id op args false s none e h = h

begin_run-Done :
    (k : String) (c : Completed) (id : Identity) (op : Op) (args : Args) (ok : Bool) (s : State)
    → Done k c s
    → Done k c (begin_run id op args ok s).1
unfolding begin_run
begin_run-Done k c id op args ok s h = elim (Bool-cases (id.request_id == k)) [
  | inl e ↦
      let found : lookup id.request_id s.completed ≡ some c =
        rw ((eq_iff id.request_id k).0 e) (h.0) in
      rw (found, begin_run, begin_seen) h
  | inr e ↦ elim (Option-cases (lookup id.request_id s.completed)) [
    | inr (d, f) ↦ rw (f, begin_run, begin_seen) h
    | inl f ↦ rw (f, begin_run, begin_seen) (begin_new-Done k c id op args ok s _ e h)
  ]
]

-- A call in flight is another call.
commit-Done :
    (k j : String) (c : Completed) (p : Inflight) (r : Result) (ok : Bool) (s : State)
    → lookup j s.inflight ≡ some p
    → Done k c s
    → Done k c (commit j p r ok s)
unfolding commit
commit-Done k j c p r ok s e h = elim (Bool-cases (j == k)) [
  | inl t ↦ cc (e, h.1, (eq_iff j k).0 t)
  | inr f ↦
      rw ((apply_result-Keeps p.op p.args r s).0, (apply_result-Keeps p.op p.args r s).1)
        (simp (lookup-insert, lookup-remove, f) h)
]

abandon-Done :
    (k j : String) (c : Completed) (s : State)
    → Done k c s
    → Done k c (record s { inflight = remove j s.inflight })
abandon-Done k j c s h = elim (Bool-cases (j == k)) [
  | inl t ↦ simp (lookup-remove, t) (h.0, refl)
  | inr f ↦ simp (lookup-remove, f) h
]

finish_run-Done :
    (k j : String) (c : Completed) (outcome : Option Result) (ok : Bool) (s : State)
    (o : Option Inflight)
    → lookup j s.inflight ≡ o
    → Done k c s
    → Done k c (finish_run j outcome ok s o)
unfolding finish_run
finish_run-Done k j c outcome ok s none e h = h
finish_run-Done k j c none ok s (some p) e h = abandon-Done k j c s h
finish_run-Done k j c (some r) ok s (some p) e h = commit-Done k j c p r ok s e h

remember-Done :
    (k : String) (c : Completed) (id : Identity) (op : Op) (l : Lease) (s : State)
    (o : Option Completed)
    → lookup id.request_id s.completed ≡ o
    → Done k c s
    → Done k c (remember_completed id op l s o).1
unfolding remember_completed
remember-Done k c id op l s (some d) e h = h
remember-Done k c id op l s none e h = elim (Bool-cases (id.request_id == k)) [
  | inl t ↦ cc (e, h.0, (eq_iff id.request_id k).0 t)
  | inr f ↦ simp (lookup-insert, f) h
]

lease_existing-Done :
    (k : String) (c : Completed) (id : Identity) (lease_id : String) (s : State)
    → Done k c s
    → Done k c (lease_existing id lease_id s).1
unfolding lease_existing
lease_existing-Done k c id lease_id s h =
    elim (Bool-cases ((or_no_lease (lookup lease_id s.leases)).pod_uid == id.pod_uid)) [
      | inl mine ↦ rw (mine, lease_existing) (remember-Done k c id lease_devices _ s _ refl h)
      | inr other ↦ rw (other, lease_existing) h
    ]

history-Done :
    (k : String) (c : Completed) (as' : List Action) (s : State)
    → Done k c s
    → Done k c (history as' s)
unfolding history act end_run
history-Done k c [] s h = h
history-Done k c (begins id op args ok ∷ as') s h =
    history-Done k c as' (begin_run id op args ok s).1 (begin_run-Done k c id op args ok s h)
history-Done k c (ends j outcome ok ∷ as') s h =
    history-Done k c as' (end_run j outcome ok s) (finish_run-Done k j c outcome ok s _ refl h)
history-Done k c (reuses id lease_id ∷ as') s h =
    history-Done k c as' (lease_existing id lease_id s).1 (lease_existing-Done k c id lease_id s h)

-- The first outcome, for a replay of the same operation by the same pod.
abbrev pub first_outcome : Completed → Identity → Op → Begun
first_outcome c id op =
    if op_beq c.op op
    then (if c.pod_uid == id.pod_uid then replayed (completed_result c) else conflict)
    else conflict

-- What `LeaseDevices` answers to a replay: for a Sandbox that has a lease, that lease.
abbrev pub lease_reply : Completed → Identity → State → Option String → Begun
lease_reply c id s none = first_outcome c id lease_devices
lease_reply c id s (some lease_id) =
    let l = or_no_lease (lookup lease_id s.leases) in
    if l.pod_uid == id.pod_uid
    then (if c.pod_uid == id.pod_uid then replayed (leased l) else conflict)
    else conflict

-- What `ReleaseDevices` answers to a replay.
abbrev pub release_reply : Completed → Identity → Args → State → Begun
release_reply c id args s =
    if foreign id (lookup args.lease_id s.leases)
    then conflict
    else first_outcome c id release_devices

replay-begin_run :
    (id : Identity) (op : Op) (args : Args) (ok : Bool) (c : Completed) (s : State)
    → lookup id.request_id s.completed ≡ some c
    → begin_run id op args ok s ≡ (first_outcome c id op, s)
unfolding begin_run
replay-begin_run id op args ok c s e = rw (e, begin_seen)

replay-remember :
    (id : Identity) (l : Lease) (c : Completed) (s : State) (o : Option Completed)
    → o ≡ some c
    → remember_completed id lease_devices l s o
      ≡ (if c.pod_uid == id.pod_uid then replayed (leased l) else conflict, s)
unfolding remember_completed
replay-remember id l c s o e = rw e refl

replay-begin_lease_for :
    (id : Identity) (args : Args) (ok : Bool) (c : Completed) (s : State) (o : Option String)
    → lookup id.request_id s.completed ≡ some c
    → begin_lease_for id args ok s o ≡ (lease_reply c id s o, s)
unfolding begin_lease_for lease_existing
replay-begin_lease_for id args ok c s none e = replay-begin_run id lease_devices args ok c s e
replay-begin_lease_for id args ok c s (some lease_id) e =
    let l = or_no_lease (lookup lease_id s.leases) in
    elim (Bool-cases (l.pod_uid == id.pod_uid)) [
      | inl mine ↦ rw mine (replay-remember id l c s _ e)
      | inr other ↦ rw other refl
    ]

replay-begin_release :
    (id : Identity) (args : Args) (ok : Bool) (c : Completed) (s : State)
    → lookup id.request_id s.completed ≡ some c
    → begin_release id args ok s ≡ (release_reply c id args s, s)
unfolding begin_release
replay-begin_release id args ok c s e =
    elim (Bool-cases (foreign id (lookup args.lease_id s.leases))) [
      | inl other ↦ rw other refl
      | inr mine ↦ rw mine (replay-begin_run id release_devices args ok c s e)
    ]

-- Once a call has completed, a replay of its request id, after any further history, changes nothing.
-- Through `run`, and so for the pins, it returns the first outcome, or a conflict under another operation
-- or from another pod. `ReleaseDevices` does the same unless another pod holds the lease, which is a
-- conflict. `LeaseDevices` does the same for a Sandbox without a lease; for one that has a lease, its
-- own pod, if it is the first call's, gets that lease, be it the first outcome or a later one, and any
-- other a conflict.
pub replay-first_outcome :
    (id : Identity) (op : Op) (args : Args) (ok : Bool) (c : Completed) (as' : List Action)
    (s : State)
    → Done id.request_id c s
    → let t = history as' s in
      (begin_run id op args ok t ≡ (
        if op_beq c.op op
            then (if c.pod_uid == id.pod_uid then replayed (completed_result c) else conflict)
            else conflict,
        t,
      ))
      × (begin_release id args ok t ≡ (release_reply c id args t, t))
      × (begin_lease id args ok t ≡ (lease_reply c id t (lookup args.sandbox_id t.by_sandbox), t))
unfolding begin_lease
replay-first_outcome id op args ok c as' s h =
    let t = history as' s in
    let found = (history-Done id.request_id c as' s h).0 in
    (
      replay-begin_run id op args ok c t found,
      replay-begin_release id args ok c t found,
      replay-begin_lease_for id args ok c t _ found,
    )
