-- ===== src/Placement/Types.antt =====
-- placement/registry.go and protocol/fastlet/types.go: the data of the scheduling view.
--
-- A time is a natural number and the zero `time.Time` is 0; durations are not negative. Slices and maps
-- are values, so the deep copies of the source (`clone…`) are the identity. The fields of a Sandbox's
-- status that the registry carries and does not read are left out.
use fast_sandbox.Base.{
  ℕ, Bool, true, false, Option, List, String, Dict, ℤ, ◌+ℤ◌, ◌==◌, text_equality,
}

pub data AdmissionState : Type 0 where
  open_state blocked unknown_state : AdmissionState
  other_state : String → AdmissionState

pub record ResourceVector : Type 0 where
  pub cpu : String
  pub memory : String

pub record ResourceStatus : Type 0 where
  pub version : String
  pub epoch : String
  pub revision : ℕ
  pub capacity : ResourceVector
  pub committed : ResourceVector
  pub state : AdmissionState
  pub reason : String

pub record AdmissionStatus : Type 0 where
  pub capacity : ℤ
  pub creating : ℤ
  pub running : ℤ
  pub deleting : ℤ
  pub used : ℤ
  pub resources : Option ResourceStatus

pub record WarmImageState : Type 0 where
  pub image : String
  pub state : String
  pub message : String

pub record SandboxStatus : Type 0 where
  pub sandbox_id : String
  pub instance_generation : ℤ
  pub assignment_attempt : ℤ
  pub accepted_generation : ℤ
  pub applied_generation : ℤ

pub record Demand (Q : Type 0) : Type 0 where
  pub cpu : Q
  pub memory : Q

-- `resourceRevision`
pub record Fence : Type 0 where
  pub epoch : String
  pub revision : ℕ

pub record FastletInfo (Q : Type 0) : Type 0 where
  pub id : String
  pub namespace : String
  pub pod_name : String
  pub pod_uid : String
  pub pod_ip : String
  pub node_name : String
  pub pool_name : String
  pub runtime_name : String
  pub runtime_profile_hash : String
  pub resource_profile_hash : String
  pub infra_revision : String
  pub fastlet_revision : String
  pub infra_ready : Bool
  pub prepared_artifacts : List String
  pub registry_revision : String
  pub warm_images : List WarmImageState
  pub pod_ready : Bool
  pub runtime_ready : Bool
  pub drain_requested : Bool
  pub draining : Bool
  pub admission : AdmissionStatus
  pub resource_capacity : Demand Q
  pub resource_committed : Demand Q
  pub in_flight_resources : Demand Q
  pub in_flight_slots : ℤ
  pub resource_received_at : ℕ
  pub resource_fence : Fence
  pub images : List String
  pub cache_epoch : String
  pub cache_revision : ℕ
  pub cache_complete : Bool
  pub sandbox_statuses : Dict SandboxStatus
  pub heartbeat_sequence : ℕ
  pub last_heartbeat : ℕ
  pub pod_observed_at : ℕ
  pub rejected_until : ℕ

pub record CacheSnapshot : Type 0 where
  pub epoch : String
  pub revision : ℕ
  pub full : Bool
  pub complete : Bool
  pub images : List String

pub record HeartbeatResponse : Type 0 where
  pub fastlet_pod_uid : String
  pub runtime_ready : Bool
  pub infra_ready : Bool
  pub draining : Bool
  pub runtime_profile_hash : String
  pub resource_profile_hash : String
  pub infra_revision : String
  pub registry_revision : String
  pub prepared_artifacts : List String
  pub warm_images : List WarmImageState
  pub admission : AdmissionStatus
  pub sandbox_statuses : List SandboxStatus
  pub sequence : ℕ
  pub cache : CacheSnapshot

pub record Registry (Q : Type 0) : Type 0 where
  pub fastlets : Dict (FastletInfo Q)
  pub stale_after : ℕ
  pub server_seed : String

module _ {Q : Type 0} where
  abbrev pub used : FastletInfo Q → ℤ
  used i = i.admission.used

  abbrev pub slot_capacity : FastletInfo Q → ℤ
  slot_capacity i = i.admission.capacity

  abbrev pub scheduling_used : FastletInfo Q → ℤ
  scheduling_used i = i.admission.used +ℤ i.in_flight_slots

abbrev pub admission_state_beq : AdmissionState → AdmissionState → Bool
admission_state_beq open_state open_state = true
admission_state_beq blocked blocked = true
admission_state_beq unknown_state unknown_state = true
admission_state_beq (other_state a) (other_state b) = a == b
admission_state_beq _ _ = false
