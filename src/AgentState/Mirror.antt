-- ===== src/AgentState/Mirror.antt =====
-- The journal on disk and the tables in memory agree: what that says, and the start of a call.
use fast_sandbox.Base.{
  ◌≡◌, ◌≢◌, refl, inl, inr, Option, none, some, List, String, Dict, lookup, insert, lookup-insert,
  Bool-cases, Option-cases, ◌==◌, text_equality, true, eq_iff, ==_false,
}
use fast_sandbox.AgentState.Leases.{Identity, State, Op, Args, Entry, Completed, Inflight}
use fast_sandbox.AgentState.Calls.{begin_run, begin_seen, begin_new, intent_line}
use fast_sandbox.AgentState.History.{Action, begins, ends, reuses}
use fast_sandbox.AgentState.Tables.{Tables, Sound}
use fast_sandbox.AgentState.Replay.{Recovering, fresh, replay, replay-snoc, visit, visit_next}

-- The intent of a call in flight is among those that recovery has read.
abbrev pub Intended : String → Option Inflight → Option Entry → Type 0
Intended id none e = Unit {0}
Intended id (some p) none = ⊥
Intended id (some p) (some e) =
    (e.request_id ≡ id)
    × (e.op ≡ p.op)
    × (e.pod_uid ≡ p.pod_uid)
    × (e.args ≡ some p.args)
    × Sound p.op p.args

pub record Mirrors (s : State) (v : Recovering) : Type 0 where
  pub tables : Tables s v.state
  pub intended : (id : String) → Intended id (lookup id s.inflight) (lookup id v.intents)
  pub remembered :
      (id : String) (c : Completed)
      → lookup id v.state.completed ≡ some c
      → lookup id s.completed ≡ some c

-- The journal on disk replays without an error, to the tables in memory.
abbrev pub Recoverable : State → Type 0
Recoverable s = (v : Recovering) × (replay s.journal (some fresh) ≡ some v) × Mirrors s v

-- The line of each step reaches the disk, and the server has checked what it checks of a call.
abbrev pub Durable : Action → Type 0
Durable (begins id op args ok) = (ok ≡ true) × (id.request_id ≢ "") × Sound op args
Durable (ends id outcome ok) = ok ≡ true
Durable (reuses id lease_id) = Unit {0}

abbrev Lines : Type 0
Lines = List Entry

pub rebase :
    (s t : State) (c d : Dict Completed) (i : Dict Inflight) (j : Lines)
    → Tables s t
    → Tables (record s { completed = c; inflight = i; journal = j }) (record t { completed = d })
rebase s t c d i j h = record {
  leases = h.leases;
  by_sandbox = h.by_sandbox;
  refs = h.refs;
  covered = h.covered;
  counted = h.counted;
}

intend :
    (id : Identity) (op : Op) (args : Args) (s : State) (v : Recovering)
    → Sound op args
    → Mirrors s v
    → (k : String)
    → Intended k
        (lookup k
          (insert id.request_id (record { op = op; pod_uid = id.pod_uid; args = args }) s.inflight))
        (lookup k (insert id.request_id (intent_line id op args) v.intents))
intend id op args s v ok m k = elim (Bool-cases (id.request_id == k)) [
  | inl e ↦ simp (lookup-insert, e) ((eq_iff id.request_id k).0 e, refl, refl, refl, ok)
  | inr e ↦ simp (lookup-insert, e) (m.intended k)
]

begin_new-Recoverable :
    (id : Identity) (op : Op) (args : Args) (s : State) (p : Option Inflight)
    → id.request_id ≢ ""
    → Sound op args
    → Recoverable s
    → Recoverable (begin_new id op args true s p).1
unfolding begin_new
begin_new-Recoverable id op args s (some p) n k h = h
begin_new-Recoverable id op args s none n k (v, e, m) = (
  record v { intents = insert id.request_id (intent_line id op args) v.intents },
  rw (replay-snoc s.journal (intent_line id op args) (some fresh), e, visit_next)
      (unfold visit in rw (==_false id.request_id "" n)),
  record {
    tables = rebase s v.state s.completed v.state.completed _ _ m.tables;
    intended = intend id op args s v k m;
    remembered = m.remembered;
  },
)

pub begin_run-Recoverable :
    (id : Identity) (op : Op) (args : Args) (s : State)
    → id.request_id ≢ ""
    → Sound op args
    → Recoverable s
    → Recoverable (begin_run id op args true s).1
unfolding begin_run
begin_run-Recoverable id op args s n k h = elim (Option-cases (lookup id.request_id s.completed)) [
  | inl e ↦ rw (e, begin_run, begin_seen) (begin_new-Recoverable id op args s _ n k h)
  | inr (c, e) ↦ rw (e, begin_run, begin_seen) h
]
