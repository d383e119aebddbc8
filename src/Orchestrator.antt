-- ===== src/Orchestrator.antt =====
-- internal/controlplane/orchestrator/orchestrator.go: the assignment to a Fastlet, and one create call of it
-- with the reservation and the feedback in this replica's registry.
--
-- The Fastlet's answer enters as a value, and what others do to the registry meanwhile as a function.
pub mod Kept
pub mod InFlight
use fast_sandbox.Base.{
  ℕ, ◌+◌, Bool, true, false, not, ◌&&◌, ◌||◌, Option, none, some, List, [], ◌∷◌, String, lookup,
  ◌==◌, text_equality, int_equality, if◌then◌else◌, ltb, ℤ,
}
use fast_sandbox.Placement.Quantity.{Quantities}
use fast_sandbox.Placement.Types.{
  Demand, FastletInfo, Registry, AdmissionStatus, SandboxStatus, ResourceStatus,
}
use fast_sandbox.Placement.Reserve.{reserve_local, release_local}
use fast_sandbox.Placement.Feedback.{
  ErrorCode, capacity_rejected, other_code, no_error, LocalFeedback, record_feedback,
}
use fast_sandbox.Assignment.{AssignmentEnvelope, valid_envelope}

pub data CreateDisposition : Type 0 where
  created existing in_progress rejected_before_side_effects failed_needs_cleanup unknown_outcome
        generation_fenced :
      CreateDisposition

-- An error of a create: no Fastlet was called since none has room in this replica's view, one answered
-- with an error, or another.
pub data CreateError : Type 0 where
  local_conflict other_error : CreateError
  fastlet_error : ErrorCode → CreateDisposition → CreateError

abbrev pub is_before_side_effects : CreateDisposition → Bool
is_before_side_effects rejected_before_side_effects = true
is_before_side_effects _ = false

abbrev pub is_candidate_code : ErrorCode → Bool
is_candidate_code no_error = false
is_candidate_code (other_code code) = code == "ProfileMismatch"
is_candidate_code _ = true

-- `IsCandidateRejection`
unfoldable pub is_candidate_rejection : CreateError → Bool
is_candidate_rejection local_conflict = false
is_candidate_rejection other_error = false
is_candidate_rejection (fastlet_error code disposition) =
    is_before_side_effects disposition && is_candidate_code code

abbrev pub is_local_conflict : CreateError → Bool
is_local_conflict local_conflict = true
is_local_conflict _ = false

-- What `CreateRuntimeOnCandidateWithCompletion` returns: the Sandbox as the Fastlet sees it, neither that
-- nor an error, or an error.
pub data CreateAnswer : Type 0 where
  observed no_observation : CreateAnswer
  call_failed : CreateError → CreateAnswer

module _ {Q : Type 0} where
  abbrev pub candidate_envelope : FastletInfo Q → ℤ → ℤ → ℤ → String → AssignmentEnvelope
  candidate_envelope c attempt instance_generation route_generation runtime_instance_id = record {
    version = "v1";
    fastlet_name = c.pod_name;
    fastlet_pod_uid = c.pod_uid;
    node_name = c.node_name;
    attempt = attempt;
    instance_generation = instance_generation;
    route_generation = route_generation;
    runtime_instance_id = runtime_instance_id;
    runtime_profile_hash = c.runtime_profile_hash;
    resource_profile_hash = c.resource_profile_hash;
    infra_revision = c.infra_revision;
  }

  -- `AssignmentForCandidate`, none for an error.
  unfoldable pub assignment_for_candidate :
      FastletInfo Q → ℤ → ℤ → ℤ → String → Option AssignmentEnvelope
  unfolding valid_envelope
  assignment_for_candidate c attempt instance_generation route_generation runtime_instance_id =
      let e =
        candidate_envelope c attempt instance_generation route_generation runtime_instance_id in
      if valid_envelope e && not (c.pod_ip == "") && not (c.infra_revision == "")
      then some e
      else none

abbrev pub no_ledger : LocalFeedback
no_ledger = record {
  pod_uid = "";
  base_resource_epoch = "";
  base_resource_revision = 0;
  code = no_error;
  admission = none;
  sandbox = none;
  observed_at = 0;
  retry_after = 0;
}

-- The response of a create, as far as it is read: `is_live` is that the runtime of its Sandbox is ready or
-- being created.
pub record CreateReply : Type 0 where
  pub disposition : CreateDisposition
  pub sandbox : Option SandboxStatus
  pub is_live : Bool
  pub admission : AdmissionStatus

-- What the call returns; an error that holds no error of a Fastlet is `other_error`.
pub record CallResult : Type 0 where
  pub reply : Option CreateReply
  pub error : Option CreateError

abbrev pub is_accepted : CreateDisposition → Bool
is_accepted created = true
is_accepted existing = true
is_accepted _ = false

abbrev pub is_some : Option SandboxStatus → Bool
is_some none = false
is_some (some _) = true

abbrev pub is_success : CallResult → Bool
is_success x = elim x.error [
  | some _ ↦ false
  | none ↦ elim x.reply [
    | none ↦ false
    | some r ↦ is_accepted r.disposition && is_some r.sandbox && r.is_live
  ]
]

-- The error of a call that is no success: one that is no Fastlet's leaves the outcome unknown.
abbrev pub error_of : CallResult → CreateError
error_of x = elim x.error [ none ↦ other_error | some e ↦ e ]

-- `compileActionBindings` without an error, by the sizes of the inputs.
unfoldable pub inputs_fit : ℕ → List ℕ → Bool
inputs_fit total [] = true
inputs_fit total (size ∷ rest) =
    not (ltb 65536 size || ltb 262144 (total + size)) && inputs_fit (total + size) rest

module _ (q : Quantities) where
  open q use {Quantity}

  abbrev pub Info : Type 0
  Info = FastletInfo Quantity

  abbrev pub is_other_status : Option SandboxStatus → ℤ → ℤ → Bool
  is_other_status none instance_generation attempt = true
  is_other_status (some s) instance_generation attempt =
      not (s.instance_generation == instance_generation) || not (s.assignment_attempt == attempt)

  -- `createNeedsLocalReservation`; `is_running` is that the Sandbox's status says so, or that it is created.
  unfoldable pub create_needs_local_reservation : Bool → String → AssignmentEnvelope → Info → Bool
  create_needs_local_reservation is_running uid a c =
      not is_running
      && is_other_status (lookup uid c.sandbox_statuses) a.instance_generation a.attempt

  abbrev pub based_on : Option ResourceStatus → String → LocalFeedback
  based_on none pod_uid = record no_ledger { pod_uid = pod_uid }
  based_on (some r) pod_uid = record no_ledger {
    pod_uid = pod_uid;
    base_resource_epoch = r.epoch;
    base_resource_revision = r.revision;
  }

  -- `localFeedbackForFastlet`
  abbrev pub local_feedback : Info → LocalFeedback
  local_feedback c = based_on c.admission.resources c.pod_uid

  abbrev pub with_reply : Option CreateReply → LocalFeedback → LocalFeedback
  with_reply none f = f
  with_reply (some r) f = record f { admission = some r.admission; sandbox = r.sandbox }

  -- `recordAdmissionSnapshot`; `now` is this replica's clock.
  abbrev pub admission_snapshot :
      ℕ → Info → Option CreateReply → Registry Quantity → Registry Quantity
  admission_snapshot now c none r = r
  admission_snapshot now c (some reply) r =
      record_feedback q now c.id
        (with_reply (some reply) (record (local_feedback c) { observed_at = now })) r

  -- `recordFeedback`
  abbrev pub failure_feedback :
      ℕ → Info → Option CreateReply → CreateError → Registry Quantity → Registry Quantity
  failure_feedback now c reply (fastlet_error code disposition) r =
      record_feedback q now c.id
        (with_reply reply (record (local_feedback c) { code = code; observed_at = now })) r
  failure_feedback now c reply local_conflict r = r
  failure_feedback now c reply other_error r = r

  -- What follows the Fastlet's answer.
  abbrev pub conclude : ℕ → Info → CallResult → Registry Quantity → CreateAnswer × Registry Quantity
  conclude now c x r =
      if is_success x
      then (observed, admission_snapshot now c x.reply r)
      else (call_failed (error_of x), failure_feedback now c x.reply (error_of x) r)

  abbrev pub call_target :
      ℕ
      → Info
      → List ℕ
      → CallResult
      → (Registry Quantity → Registry Quantity)
      → Registry Quantity
      → CreateAnswer × Registry Quantity
  call_target now c inputs x others r =
      if inputs_fit 0 inputs then conclude now c x (others r) else (call_failed other_error, r)

  abbrev pub refusal : Bool → CreateError
  refusal declarative =
      if declarative
      then fastlet_error capacity_rejected rejected_before_side_effects
      else local_conflict

  abbrev pub released :
      Info → Demand Quantity → CreateAnswer × Registry Quantity → CreateAnswer × Registry Quantity
  released c d (answer, r) = (answer, release_local q c.id d r)

  abbrev pub call_reserved :
      Bool
      → ℕ
      → Info
      → Demand Quantity
      → List ℕ
      → CallResult
      → (Registry Quantity → Registry Quantity)
      → Registry Quantity × Bool
      → CreateAnswer × Registry Quantity
  call_reserved declarative now c d inputs x others (r, false) =
      (call_failed (refusal declarative), r)
  call_reserved declarative now c d inputs x others (r, true) =
      released c d (call_target now c inputs x others r)

  -- `createRuntimeOnTarget`; `needs` is `createNeedsLocalReservation`.
  unfoldable pub create_on_target :
      Bool
      → Bool
      → ℕ
      → Info
      → Demand Quantity
      → List ℕ
      → CallResult
      → (Registry Quantity → Registry Quantity)
      → Registry Quantity
      → CreateAnswer × Registry Quantity
  unfolding reserve_local release_local record_feedback inputs_fit
  create_on_target declarative needs now c d inputs x others r =
      if needs
      then call_reserved declarative now c d inputs x others (reserve_local q c.id d r)
      else call_target now c inputs x others r
