-- ===== src/AgentState/History.antt =====
-- Histories of the node agent: the critical sections of its calls in any order.
use fast_sandbox.Base.{Bool, Option, List, [], ◌∷◌, String}
use fast_sandbox.AgentState.Leases.{Op, Identity, Args, Result, State}
use fast_sandbox.AgentState.Calls.{begin_run, end_run, lease_existing}

-- The Booleans say whether the journal line of the step reached the disk.
pub data Action : Type 0 where
  begins : Identity → Op → Args → Bool → Action
  ends : String → Option Result → Bool → Action
  -- `LeaseDevices` for a Sandbox that has the lease with this id
  reuses : Identity → String → Action

unfoldable pub act : Action → State → State
act (begins id op args ok) s = (begin_run id op args ok s).1
act (ends request_id outcome ok) s = end_run request_id outcome ok s
act (reuses id lease_id) s = (lease_existing id lease_id s).1

unfoldable pub history : List Action → State → State
history [] s = s
history (a ∷ as') s = history as' (act a s)
