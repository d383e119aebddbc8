-- ===== src/FastletManager/Create.antt =====
-- internal/fastlet/sandbox/admission.go: what a create of a managed Sandbox is answered.
use fast_sandbox.Base.{
  ℕ, Bool, not, ◌&&◌, ◌||◌, Option, none, some, String, ◌==◌, nat_equality, text_equality,
  int_equality, if◌then◌else◌, ℤ,
}
use fast_sandbox.Placement.Quantity.{Quantities}
use fast_sandbox.FastletManager.Phases.{
  Phase, creating, deleting, image_pending, infra_pending, running, terminating, action_pending,
  RuntimeState, DataPlaneState, reported, initializing_infra, route_pending, publishing_route,
  route_unavailable, infra_unavailable as phase_infra_unavailable,
  action_unavailable as phase_action_unavailable, runtime_failure_cleanup, runtime_failed,
}
use fast_sandbox.FastletManager.Identity.{
  SandboxIdentity, Failure, capacity_rejected, is_draining, in_progress, conflict, stale_generation,
  runtime_unavailable, action_unavailable, generation_fenced, profile_mismatch, failure_if,
  validate_identity_fence,
}
use fast_sandbox.FastletManager.Records.{RuntimeConfig, Metadata, ActionManager, Manager}

abbrev pub actions_v1 : String
actions_v1 = "sandbox.fast.io/actions/v1"

pub data Disposition : Type 0 where
  created_new already_existing in_progress_already rejected_before_side_effects : Disposition
  failed_needs_cleanup unknown_disposition fenced_generation : Disposition

unfoldable pub default_create_disposition : Failure → Disposition
default_create_disposition (capacity_rejected reason) = rejected_before_side_effects
default_create_disposition is_draining = rejected_before_side_effects
default_create_disposition profile_mismatch = rejected_before_side_effects
default_create_disposition in_progress = in_progress_already
default_create_disposition generation_fenced = fenced_generation
default_create_disposition stale_generation = fenced_generation
default_create_disposition _ = unknown_disposition

pub record StatusReport : Type 0 where
  pub identity : SandboxIdentity
  pub accepted_generation : ℤ
  pub applied_generation : ℤ
  pub runtime : RuntimeState
  pub data_plane : DataPlaneState

pub record CreateResponse : Type 0 where
  pub disposition : Disposition
  pub failure : Option Failure
  pub sandbox : Option StatusReport

-- The request, after `prepareCreateInput`; `bindings` is the number of its Action Bindings.
pub record CreateInput : Type 0 where
  pub config : RuntimeConfig
  pub spec_generation : ℤ
  pub bindings : ℕ

-- What `reserveSandboxForCreate` gives its caller.
pub data Reservation : Type 0 where
  refused : Failure → Disposition → Reservation
  cleanup_existing : ℕ → Reservation
  responded : CreateResponse → Reservation
  placed : ℕ → Reservation

abbrev pub create_failure : Failure → CreateResponse
create_failure f = record {
  disposition = default_create_disposition f;
  failure = some f;
  sandbox = none;
}

abbrev pub effective_action_api_version : String → String
effective_action_api_version version = if version == "" then actions_v1 else version

abbrev pub same_sandbox_claim : RuntimeConfig → RuntimeConfig → Bool
same_sandbox_claim existing requested =
    existing.identity.namespace == requested.identity.namespace
    && existing.identity.name == requested.identity.name
    && effective_action_api_version existing.actions_api_version
      == effective_action_api_version requested.actions_api_version
    && existing.desired.runtime_profile_hash == requested.desired.runtime_profile_hash
    && existing.desired.resource_profile_hash == requested.desired.resource_profile_hash
    && existing.desired.infra_revision == requested.desired.infra_revision
    && existing.limits.cpu == requested.limits.cpu
    && existing.limits.memory == requested.limits.memory
    && existing.limits.pids == requested.limits.pids

abbrev pub actions_not_ready : ActionManager → Bool
actions_not_ready a = not (a.api_version == actions_v1) && a.is_required && not a.is_ready

abbrev pub actions_failure : ℕ → Option ActionManager → Option Failure
actions_failure bindings none = failure_if (not (bindings == 0)) action_unavailable
actions_failure bindings (some a) = failure_if (actions_not_ready a) action_unavailable

module _ (q : Quantities) where
  open q use {Quantity}

  abbrev pub State : Type 0
  State = Manager Quantity

  unfoldable pub sandbox_status : State → Metadata → StatusReport
  sandbox_status m metadata =
      let (runtime, plane) = reported (not m.has_route_publisher || m.route_ready) metadata.phase in
      record {
        identity = metadata.config.identity;
        accepted_generation = metadata.accepted_generation;
        applied_generation = metadata.applied_generation;
        runtime = runtime;
        data_plane = plane;
      }

  abbrev pub respond_existing : State → Metadata → CreateResponse
  respond_existing m metadata = record {
    disposition = already_existing;
    failure = none;
    sandbox = some (sandbox_status m metadata);
  }

  -- The phases of `createExistingLocked`, in its order.
  abbrev pub respond_by_phase : State → Metadata → Phase → CreateResponse
  respond_by_phase m metadata creating = record {
    disposition = in_progress_already;
    failure = some in_progress;
    sandbox = some (sandbox_status m metadata);
  }
  respond_by_phase m metadata image_pending = record {
    disposition = in_progress_already;
    failure = some in_progress;
    sandbox = some (sandbox_status m metadata);
  }
  respond_by_phase m metadata terminating = create_failure conflict
  respond_by_phase m metadata deleting = create_failure conflict
  respond_by_phase m metadata runtime_failure_cleanup = respond_existing m metadata
  respond_by_phase m metadata runtime_failed = respond_existing m metadata
  respond_by_phase m metadata infra_pending = respond_existing m metadata
  respond_by_phase m metadata initializing_infra = respond_existing m metadata
  respond_by_phase m metadata phase_infra_unavailable = respond_existing m metadata
  respond_by_phase m metadata route_pending = respond_existing m metadata
  respond_by_phase m metadata publishing_route = respond_existing m metadata
  respond_by_phase m metadata route_unavailable = respond_existing m metadata
  respond_by_phase m metadata action_pending = respond_existing m metadata
  respond_by_phase m metadata phase_action_unavailable = respond_existing m metadata
  respond_by_phase m metadata running = respond_existing m metadata
  respond_by_phase m metadata _ = create_failure runtime_unavailable

  abbrev pub respond_fenced : Option Failure → State → Metadata → RuntimeConfig → CreateResponse
  respond_fenced (some f) m metadata requested = create_failure f
  respond_fenced none m metadata requested =
      if same_sandbox_claim metadata.config requested
      then respond_by_phase m metadata metadata.phase
      else create_failure conflict

  unfoldable pub create_existing : State → Metadata → RuntimeConfig → CreateResponse
  unfolding sandbox_status validate_identity_fence default_create_disposition reported
  create_existing m metadata requested =
      respond_fenced
        (validate_identity_fence m.fastlet_pod_uid metadata.config.identity requested.identity) m
        metadata requested
