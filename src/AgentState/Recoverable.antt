-- ===== src/AgentState/Recoverable.antt =====
-- The journal on disk and the tables in memory agree after every step of a history.
use fast_sandbox.Base.{
  ◌≡◌, refl, inl, inr, Option, none, some, List, [], ◌∷◌, String, Dict, lookup, insert, remove,
  lookup-insert, lookup-remove, Bool-cases, ◌==◌, text_equality, true, eq_iff, All,
}
use fast_sandbox.AgentState.Leases.{
  Identity, Lease, State, Op, Result, Entry, Completed, Inflight, apply_result, completed_entry,
  lease_devices,
}
use fast_sandbox.AgentState.Calls.{
  commit, end_run, finish_run, lease_existing, remember_completed, result_line, or_no_lease,
}
use fast_sandbox.AgentState.History.{Action, begins, ends, reuses, act, history}
use fast_sandbox.AgentState.Tables.{Tables}
use fast_sandbox.AgentState.Effects.{apply_result-Keeps, effect-Tables}
use fast_sandbox.AgentState.Replay.{
  Recovering, fresh, replay-snoc, visit, visit_next, visit_result, replay_effect, replay_apply,
  complete_as,
}
use fast_sandbox.AgentState.Mirror.{
  Intended, Mirrors, Recoverable, Durable, rebase, begin_run-Recoverable,
}

-- The intent of the call `request_id` with what is known of it.
abbrev Intent : String → Inflight → Recovering → Type 0
Intent request_id p v =
    (e : Entry) × (lookup request_id v.intents ≡ some e) × Intended request_id (some p) (some e)

find-Intent :
    (request_id : String) (p : Inflight) (v : Recovering) (o : Option Entry)
    → lookup request_id v.intents ≡ o
    → Intended request_id (some p) o
    → Intent request_id p v
find-Intent request_id p v none e h = absurd h
find-Intent request_id p v (some i) e h = (i, e, h)

visit-result_line :
    (request_id : String) (p : Inflight) (r : Result) (v : Recovering) (i : Entry) (t : State)
    → lookup request_id v.intents ≡ some i
    → i.op ≡ p.op
    → i.args ≡ some p.args
    → replay_effect p.op p.args r v.state ≡ some t
    → visit (result_line request_id p.op r) v
      ≡ some (record { intents = remove request_id v.intents; state = complete_as i r t })
unfolding visit
visit-result_line request_id p r v i t at_id same_op same_args e =
    rw (at_id, visit_result) (rw (same_op, same_args, e, replay_apply))

forget_intent :
    (request_id : String) (p : Inflight) (r : Result) (s : State) (v : Recovering)
    → Mirrors s v
    → (k : String)
    → Intended k (lookup k (remove request_id s.inflight)) (lookup k (remove request_id v.intents))
forget_intent request_id p r s v m k = elim (Bool-cases (request_id == k)) [
  | inl e ↦ simp (lookup-remove, e) tt
  | inr e ↦ simp (lookup-remove, e) (m.intended k)
]

-- Both tables of completed calls get the same entry.
recall :
    (key : String) (new : Completed) (old live : Dict Completed)
    → ((k : String) (c : Completed) → lookup k old ≡ some c → lookup k live ≡ some c)
    → (k : String) (c : Completed) → lookup k (insert key new old) ≡ some c
    → lookup k (insert key new live) ≡ some c
recall key new old live h k c e = elim (Bool-cases (key == k)) [
  | inl t ↦ simp (lookup-insert, t) (simp (lookup-insert, t) at e)
  | inr f ↦ simp (lookup-insert, f) (h k c (simp (lookup-insert, f) at e))
]

commit-Mirrors :
    (request_id : String) (p : Inflight) (r : Result) (s t : State) (v : Recovering) (i : Entry)
    → Intended request_id (some p) (some i)
    → Mirrors s v
    → Tables (apply_result p.op p.args r s) t
    → t.completed ≡ v.state.completed
    → Mirrors
        (commit request_id p r true s)
        (record { intents = remove request_id v.intents; state = complete_as i r t })
unfolding commit
commit-Mirrors request_id p r s t v i known m tb same = record {
  tables = rebase (apply_result p.op p.args r s) t _ _ _ _ tb;
  intended = rw ((apply_result-Keeps p.op p.args r s).1) (forget_intent request_id p r s v m);
  remembered =
      rw ((apply_result-Keeps p.op p.args r s).0, known.0, known.1, known.2, same)
        (recall request_id (completed_entry p.op p.pod_uid r) v.state.completed s.completed
          m.remembered);
}

commit-Recoverable :
    (request_id : String) (p : Inflight) (r : Result) (s : State)
    → lookup request_id s.inflight ≡ some p
    → Recoverable s
    → Recoverable (commit request_id p r true s)
commit-Recoverable request_id p r s at_id (v, e, m) =
    let (i, found, known) =
      find-Intent request_id p v _ refl (rw at_id at (m.intended request_id)) in
    let (t, et, tb, tc) = effect-Tables p.op p.args r s v.state known.4 m.tables in
    (
      record { intents = remove request_id v.intents; state = complete_as i r t },
      unfold commit in
          rw
            (
              (apply_result-Keeps p.op p.args r s).2,
              replay-snoc s.journal (result_line request_id p.op r) (some fresh),
              e,
              visit_next,
            )
            (visit-result_line request_id p r v i t found known.1 known.3 et),
      commit-Mirrors request_id p r s t v i known m tb tc,
    )

abandon-Recoverable :
    (request_id : String) (s : State)
    → Recoverable s
    → Recoverable (record s { inflight = remove request_id s.inflight })
abandon-Recoverable request_id s (v, e, m) = (
  v,
  e,
  record {
    tables = rebase s v.state s.completed v.state.completed _ s.journal m.tables;
    intended = λ k. fewer k;
    remembered = m.remembered;
  },
)
  where
    fewer : (k : String) → Intended k (lookup k (remove request_id s.inflight)) (lookup k v.intents)
    fewer k = elim (Bool-cases (request_id == k)) [
      | inl t ↦ simp (lookup-remove, t) tt
      | inr f ↦ simp (lookup-remove, f) (m.intended k)
    ]

finish_run-Recoverable :
    (request_id : String) (outcome : Option Result) (s : State) (o : Option Inflight)
    → lookup request_id s.inflight ≡ o
    → Recoverable s
    → Recoverable (finish_run request_id outcome true s o)
unfolding finish_run
finish_run-Recoverable request_id outcome s none e h = h
finish_run-Recoverable request_id none s (some p) e h = abandon-Recoverable request_id s h
finish_run-Recoverable request_id (some r) s (some p) e h = commit-Recoverable request_id p r s e h

-- Only a call that is new to the agent is remembered.
remember-Recoverable :
    (id : Identity) (op : Op) (l : Lease) (s : State) (o : Option Completed)
    → lookup id.request_id s.completed ≡ o
    → Recoverable s
    → Recoverable (remember_completed id op l s o).1
unfolding remember_completed
remember-Recoverable id op l s (some c) e h = h
remember-Recoverable id op l s none e (v, j, m) = (
  v,
  j,
  record {
    tables = rebase s v.state _ v.state.completed s.inflight s.journal m.tables;
    intended = m.intended;
    remembered = more;
  },
)
  where
    more :
        (k : String) (c : Completed)
        → lookup k v.state.completed ≡ some c
        → lookup k (
            insert id.request_id
              (record { op = op; pod_uid = id.pod_uid; pin_digest = ""; lease = some l })
              s.completed)
          ≡ some c
    more k c h = elim (Bool-cases (id.request_id == k)) [
      | inl t ↦ cc (e, m.remembered k c h, (eq_iff id.request_id k).0 t)
      | inr f ↦ simp (lookup-insert, f) (m.remembered k c h)
    ]

lease_existing-Recoverable :
    (id : Identity) (lease_id : String) (s : State)
    → Recoverable s
    → Recoverable (lease_existing id lease_id s).1
unfolding lease_existing
lease_existing-Recoverable id lease_id s h =
    elim (Bool-cases ((or_no_lease (lookup lease_id s.leases)).pod_uid == id.pod_uid)) [
      | inl mine ↦ rw (mine, lease_existing) (remember-Recoverable id lease_devices _ s _ refl h)
      | inr other ↦ rw (other, lease_existing) h
    ]

act-Recoverable : (a : Action) (s : State) → Durable a → Recoverable s → Recoverable (act a s)
unfolding act end_run
act-Recoverable (begins id op args ok) s d h =
    rw (d.0) (begin_run-Recoverable id op args s d.1 d.2 h)
act-Recoverable (ends request_id outcome ok) s d h =
    rw d (finish_run-Recoverable request_id outcome s _ refl h)
act-Recoverable (reuses id lease_id) s d h = lease_existing-Recoverable id lease_id s h

pub history-Recoverable :
    (as' : List Action) (s : State) → All Durable as' → Recoverable s → Recoverable (history as' s)
unfolding history
history-Recoverable [] s d h = h
history-Recoverable (a ∷ as') s d h =
    history-Recoverable as' (act a s) d.1 (act-Recoverable a s d.0 h)
