-- ===== src/Placement/Feedback.antt =====
-- placement/registry.go: `RecordFeedback` and what it calls.
use fast_sandbox.Base.{
  ℕ, ◌+◌, Bool, true, false, not, ◌&&◌, ◌||◌, Option, none, some, String, Dict, lookup, insert,
  ◌==◌, text_equality, nat_equality, int_equality, if◌then◌else◌, leb, ltb_ℤ, leb_ℤ,
}
use fast_sandbox.Placement.Quantity.{Quantities}
use fast_sandbox.Placement.Types.{
  FastletInfo, Registry, AdmissionStatus, admission_state_beq, blocked, unknown_state,
  ResourceStatus, Fence, SandboxStatus,
}
use fast_sandbox.Placement.Reserve.{put_fastlet}
use fast_sandbox.Placement.Heartbeat.{apply_admission_resources, lift_rejection}

pub data ErrorCode : Type 0 where
  no_error capacity_rejected draining runtime_unavailable network_unavailable infra_unavailable :
      ErrorCode
  other_code : String → ErrorCode

pub record LocalFeedback : Type 0 where
  pub pod_uid : String
  pub base_resource_epoch : String
  pub base_resource_revision : ℕ
  pub code : ErrorCode
  pub admission : Option AdmissionStatus
  pub sandbox : Option SandboxStatus
  pub observed_at : ℕ
  pub retry_after : ℕ

abbrev pub is_capacity_rejected : ErrorCode → Bool
is_capacity_rejected capacity_rejected = true
is_capacity_rejected _ = false

-- The codes that stop placement on a Fastlet for a while.
abbrev pub rejects : ErrorCode → Bool
rejects no_error = false
rejects (other_code _) = false
rejects _ = true

-- 5 seconds, in nanoseconds
abbrev pub default_retry : ℕ
default_retry = 5000000000

-- `sandboxObservationAtOrAfter`
unfoldable pub at_or_after : SandboxStatus → SandboxStatus → Bool
at_or_after a b =
    if not (a.instance_generation == b.instance_generation)
    then ltb_ℤ b.instance_generation a.instance_generation
    else if not (a.assignment_attempt == b.assignment_attempt)
    then ltb_ℤ b.assignment_attempt a.assignment_attempt
    else if not (a.accepted_generation == b.accepted_generation)
    then ltb_ℤ b.accepted_generation a.accepted_generation
    else leb_ℤ b.applied_generation a.applied_generation

abbrev pub newer_than : SandboxStatus → Option SandboxStatus → Bool
newer_than s none = true
newer_than s (some c) = at_or_after s c

unfoldable pub put_status : SandboxStatus → Dict SandboxStatus → Dict SandboxStatus
put_status s m = if newer_than s (lookup s.sandbox_id m) then insert s.sandbox_id s m else m

module _ (q : Quantities) where
  open q use {Quantity}

  abbrev Info : Type 0
  Info = FastletInfo Quantity

  -- The snapshot that the request was made under must still be the current one.
  abbrev pub acceptable : LocalFeedback → ResourceStatus → Option ResourceStatus → Bool
  acceptable f r none = true
  acceptable f r (some c) =
      if r.epoch == c.epoch
      then leb c.revision r.revision
      else f.base_resource_epoch == c.epoch && f.base_resource_revision == c.revision

  abbrev pub raises_fence : LocalFeedback → ResourceStatus → Bool
  raises_fence f r =
      is_capacity_rejected f.code
      || admission_state_beq r.state blocked
      || admission_state_beq r.state unknown_state

  abbrev pub fence_after : LocalFeedback → ResourceStatus → Fence → Fence
  fence_after f r old =
      if raises_fence f r then record { epoch = r.epoch; revision = r.revision } else old

  unfoldable pub apply_feedback_admission :
      AdmissionStatus → ResourceStatus → LocalFeedback → Info → Info × Bool
  apply_feedback_admission incoming r f i =
      if acceptable f r i.admission.resources
      then (
        record i {
          admission = incoming;
          resource_received_at = f.observed_at;
          resource_fence = fence_after f r i.resource_fence;
        },
        true,
      )
      else (i, false)

  abbrev pub with_ledger : Info × Bool → Info × Bool
  with_ledger (i, true) = (apply_admission_resources q i, true)
  with_ledger (i, false) = (i, false)

  unfoldable pub feedback_admission : LocalFeedback → Info → Option AdmissionStatus → Info × Bool
  unfolding apply_feedback_admission
  feedback_admission f i none = (i, true)
  feedback_admission f i (some a) = elim a.resources [
    | none ↦ (i, true)
    | some r ↦ with_ledger (apply_feedback_admission a r f i)
  ]

  unfoldable pub feedback_sandbox : Info → Option SandboxStatus → Info
  feedback_sandbox i none = i
  feedback_sandbox i (some s) =
      if s.sandbox_id == ""
      then i
      else record i { sandbox_statuses = put_status s i.sandbox_statuses }

  unfoldable pub feedback_outcome : LocalFeedback → Info → Info
  feedback_outcome f i =
      if rejects f.code
      then record i { rejected_until = f.observed_at + f.retry_after }
      else lift_rejection q i

  abbrev pub settle : LocalFeedback → Info × Bool → Info
  settle f (i, true) = feedback_outcome f (feedback_sandbox i f.sandbox)
  settle f (i, false) = i

  unfoldable pub feedback_slot : LocalFeedback → Info → Info
  unfolding feedback_admission feedback_sandbox feedback_outcome
  feedback_slot f i =
      if not (f.pod_uid == "") && not (i.pod_uid == f.pod_uid)
      then i
      else settle f (feedback_admission f i f.admission)

  abbrev pub with_defaults : ℕ → LocalFeedback → LocalFeedback
  with_defaults now f = record f {
    observed_at = if f.observed_at == 0 then now else f.observed_at;
    retry_after = if f.retry_after == 0 then default_retry else f.retry_after;
  }

  unfoldable pub feedback_found :
      String → LocalFeedback → Registry Quantity → Option Info → Registry Quantity
  unfolding feedback_slot
  feedback_found id f r none = r
  feedback_found id f r (some i) = put_fastlet q id (feedback_slot f i) r

  -- `now` is the registry's clock.
  unfoldable pub record_feedback :
      ℕ → String → LocalFeedback → Registry Quantity → Registry Quantity
  unfolding feedback_found
  record_feedback now id f r = feedback_found id (with_defaults now f) r (lookup id r.fastlets)
