-- ===== src/AgentState/Recovery.antt =====
-- Crash recovery: the journal determines the tables.
use fast_sandbox.Base.{◌≡◌, refl, some, List, String, lookup, arith, All}
use fast_sandbox.AgentState.Leases.{State, Completed, empty_state}
use fast_sandbox.AgentState.History.{Action, history}
use fast_sandbox.AgentState.Held.{held}
use fast_sandbox.AgentState.Mirror.{Recoverable, Durable}
use fast_sandbox.AgentState.Recoverable.{history-Recoverable}
use fast_sandbox.AgentState.Refs.{refs_of}
use fast_sandbox.AgentState.Replay.{fresh, replay, recover}

empty_state-Recoverable : Recoverable empty_state
unfolding empty_state replay lookup held
empty_state-Recoverable = (
  fresh,
  refl,
  record {
    tables = record {
      leases = refl;
      by_sandbox = refl;
      refs = λ i. refl;
      covered = λ i. omega arith;
      counted = λ i. omega arith;
    };
    intended = λ id. tt;
    remembered = λ id c h. cc;
  },
)

-- After any interleaving of calls from the empty state whose journal lines all reached the disk, and
-- that have a request id and an image where they need one, recovery from the journal
-- succeeds. It gives the same leases, the same lease of each Sandbox and the same counts of every image, and every call that it takes for completed
-- is completed in memory with the same outcome.
pub recover-history :
    (as' : List Action)
    → All Durable as'
    → let s = history as' empty_state in
      (t : State) × (recover s.journal ≡ some t)
      × (t.leases ≡ s.leases)
      × (t.by_sandbox ≡ s.by_sandbox)
      × ((image : String) → refs_of image t.images ≡ refs_of image s.images)
      × ((id : String) (c : Completed)
          → lookup id t.completed ≡ some c
          → lookup id s.completed ≡ some c)
unfolding recover
recover-history as' d =
    let (v, e, m) = history-Recoverable as' empty_state d empty_state-Recoverable in
    (v.state, rw e, m.tables.leases, m.tables.by_sandbox, m.tables.refs, m.remembered)
