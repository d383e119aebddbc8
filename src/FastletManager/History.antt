-- ===== src/FastletManager/History.antt =====
-- The regions of any number of creates and deletes, in any order.
use fast_sandbox.Base.{ℕ, Bool, Option, List, [], ◌∷◌, String}
use fast_sandbox.Placement.Quantity.{Quantities}
use fast_sandbox.Placement.Types.{Demand, AdmissionState}
use fast_sandbox.Pressure.{set_resource_admission_state}
use fast_sandbox.FastletManager.Identity.{SandboxIdentity}
use fast_sandbox.FastletManager.Records.{RuntimeConfig, forget}
use fast_sandbox.FastletManager.Create.{State, CreateInput}
use fast_sandbox.FastletManager.Reserve.{
  reserve_sandbox, runtime_create_failed, commit_runtime_create, park, resume_boot,
  mark_create_failed,
}
use fast_sandbox.FastletManager.Delete.{
  delete_sandbox, dispatch_delete, async_delete_failed, async_delete_done, begin_cleanup,
  end_cleanup,
}
use fast_sandbox.FastletManager.Drain.{DrainRequest, set_draining}

-- One region, with what the calls before it gave.
pub data Event : Type 0 where
  reserves : CreateInput → Bool → ℕ → Event
  binding_fails create_parks boot_resumes boot_fails delete_fails delete_ends : ℕ → Event
  create_fails cleanup_ends : ℕ → Bool → Event
  create_commits : CreateInput → ℕ → ℕ → Event
  deletes : SandboxIdentity → Event
  delete_dispatches : ℕ → Bool → Bool → Bool → Event
  cleanup_begins : ℕ → RuntimeConfig → Event
  drains : DrainRequest → Event
  pressure : AdmissionState → String → Event

module _ (q : Quantities) (requests_of : RuntimeConfig → Option (Demand q.Quantity)) where
  unfoldable pub step : Event → State q → State q
  step (reserves input clean now) m = (reserve_sandbox q requests_of input clean now m).1
  step (binding_fails a) m = forget a m
  step (create_parks a) m = (park q requests_of a m).1
  step (boot_resumes a) m = (resume_boot q requests_of a m).1
  step (boot_fails a) m = mark_create_failed q requests_of a m
  step (delete_fails a) m = async_delete_failed a m
  step (delete_ends a) m = async_delete_done a m
  step (create_fails a cleaned) m = (runtime_create_failed q requests_of a cleaned m).1
  step (cleanup_ends a cleaned) m = (end_cleanup a cleaned m).1
  step (create_commits input a now) m = (commit_runtime_create q requests_of input a now m).1
  step (deletes i) m = (delete_sandbox i m).1
  step (delete_dispatches a strict was_creating busy) m =
      (dispatch_delete a strict was_creating busy m).1
  step (cleanup_begins a requested) m = (begin_cleanup a requested m).1
  step (drains r) m = (set_draining r m).1
  step (pressure state reason) m = record m {
    gate = (set_resource_admission_state state reason m.gate).0;
  }

  unfoldable pub run : List Event → State q → State q
  unfolding step
  run [] m = m
  run (e ∷ rest) m = run rest (step e m)
