-- ===== src/FastletManager/Drain.antt =====
-- internal/fastlet/sandbox/admission.go: draining, and readiness.
use fast_sandbox.Base.{
  Bool, true, not, ◌&&◌, Option, none, some, String, ◌==◌, text_equality, if◌then◌else◌,
}
use fast_sandbox.FastletManager.Identity.{Failure, conflict, stale_assignment, failure_if, or_else}
use fast_sandbox.FastletManager.Records.{ActionManager, Manager}

pub record DrainRequest : Type 0 where
  pub pod_uid : String
  pub id : String
  pub drain : Bool
  pub reason : String

abbrev pub actions_are_ready : Option ActionManager → Bool
actions_are_ready none = true
actions_are_ready (some a) = a.is_ready

abbrev pub next_drain_id : DrainRequest → String → String
next_drain_id r id = if r.drain then (if r.id == "" then id else r.id) else ""

module _ {Q : Type 0} where
  unfoldable pub drain_failure : DrainRequest → Manager Q → Option Failure
  drain_failure r m =
      or_else
        (failure_if
          (not (r.pod_uid == "")
            && not (m.fastlet_pod_uid == "")
            && not (r.pod_uid == m.fastlet_pod_uid))
          stale_assignment)
        (or_else
          (failure_if
            (m.draining && not (m.drain_id == "") && not (r.id == "") && not (m.drain_id == r.id))
            conflict)
          (failure_if
            (not r.drain && m.draining && not (m.drain_id == "") && not (r.id == m.drain_id))
            conflict))

  abbrev pub drain_checked : Option Failure → DrainRequest → Manager Q → Option Failure × Manager Q
  drain_checked (some f) r m = (some f, m)
  drain_checked none r m = (
    none,
    record m { draining = r.drain; drain_reason = r.reason; drain_id = next_drain_id r m.drain_id },
  )

  unfoldable pub set_draining : DrainRequest → Manager Q → Option Failure × Manager Q
  unfolding drain_failure
  set_draining r m = drain_checked (drain_failure r m) r m

  unfoldable pub is_ready_fastlet : Manager Q → Bool
  is_ready_fastlet m =
      not m.recovering
      && m.runtime_ready
      && m.route_ready
      && not m.draining
      && actions_are_ready m.action_manager
