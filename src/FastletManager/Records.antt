-- ===== src/FastletManager/Records.antt =====
-- internal/fastlet/sandbox/manager.go and admission.go: the manager's state, and what it counts in it.
--
-- `Q` is Kubernetes' type of quantities. Diagnostics, messages, metrics and snapshots are left out, and of a
-- Sandbox's metadata what its runtime, infra components and Action Bindings report. An Action manager is
-- the record of what it answers while the lock is held.
use fast_sandbox.Base.{
  ℕ, ◌+◌, Bool, false, Option, none, some, List, [], ◌∷◌, map, keep_if, length, String, Dict,
  lookup, remove, ◌==◌, nat_equality, text_equality, if◌then◌else◌, ℤ,
}
use fast_sandbox.Placement.Types.{Demand}
use fast_sandbox.Pressure.{PressureGate}
use fast_sandbox.FastletManager.Phases.{
  Phase, Column, column_of, column_creating, column_deleting, column_running, column_none, occupies,
}
use fast_sandbox.FastletManager.Identity.{SandboxIdentity}

pub record RuntimeLimits : Type 0 where
  pub cpu : String
  pub memory : String
  pub pids : ℤ

pub record DesiredSpec : Type 0 where
  pub image : String
  pub runtime_profile_hash : String
  pub resource_profile_hash : String
  pub infra_revision : String

pub record RuntimeConfig : Type 0 where
  pub identity : SandboxIdentity
  pub actions_api_version : String
  pub desired : DesiredSpec
  pub limits : RuntimeLimits

pub record Metadata : Type 0 where
  pub config : RuntimeConfig
  pub phase : Phase
  pub created_at : ℕ
  pub accepted_generation : ℤ
  pub applied_generation : ℤ

pub record ActionManager : Type 0 where
  pub api_version : String
  pub is_required : Bool
  pub is_ready : Bool

-- The settings of resource admission; a manager that has them has a resource profile.
pub record ResourceSettings (Q : Type 0) : Type 0 where
  pub resource_capacity : Demand Q
  pub memory_admission : Bool
  pub static_admission : Bool

pub record Manager (Q : Type 0) : Type 0 where
  pub capacity : ℤ
  pub fastlet_pod_uid : String
  pub resources : Option (ResourceSettings Q)
  pub gate : PressureGate
  pub action_manager : Option ActionManager
  pub has_infra_manager : Bool
  pub has_route_publisher : Bool
  pub infra_ready : Bool
  pub recovering : Bool
  pub runtime_ready : Bool
  pub route_ready : Bool
  pub draining : Bool
  pub drain_id : String
  pub drain_reason : String
  pub tombstones : Dict SandboxIdentity
  pub create_delete_pending : Dict Bool
  -- UID to the address of its metadata, and the store of the addresses that were given out.
  pub sandboxes : Dict ℕ
  pub objects : ℕ → Metadata
  pub next_object : ℕ

pub record SlotStatus : Type 0 where
  pub capacity : ℤ
  pub creating : ℕ
  pub running : ℕ
  pub deleting : ℕ
  pub used : ℕ

abbrev pub uid_of : Metadata → String
uid_of metadata = metadata.config.identity.sandbox_uid

abbrev pub write_object : ℕ → Metadata → (ℕ → Metadata) → ℕ → Metadata
write_object a metadata objects b = if a == b then metadata else objects b

-- `m.sandboxes[uid] == expected`
abbrev pub is_address : ℕ → Option ℕ → Bool
is_address a none = false
is_address a (some b) = a == b

abbrev pub count_column : SlotStatus → Column → SlotStatus
count_column s column_creating = record s { creating = s.creating + 1 }
count_column s column_deleting = record s { deleting = s.deleting + 1 }
count_column s column_running = record s { running = s.running + 1 }
count_column s column_none = s

unfoldable pub count_phases : List Phase → SlotStatus → SlotStatus
unfolding column_of
count_phases [] s = s
count_phases (phase ∷ rest) s = count_phases rest (count_column s (column_of phase))

module _ {Q : Type 0} where
  unfoldable pub held : String → ℕ → Manager Q → Bool
  held uid a m = is_address a (lookup uid m.sandboxes)

  unfoldable pub set_phase : ℕ → Phase → Manager Q → Manager Q
  set_phase a phase m = record m {
    objects = write_object a (record (m.objects a) { phase = phase }) m.objects;
  }

  -- The object leaves the map, if it is still there.
  unfoldable pub forget : ℕ → Manager Q → Manager Q
  unfolding held
  forget a m =
      let uid = uid_of (m.objects a) in
      if held uid a m
      then record m {
        sandboxes = remove uid m.sandboxes;
        create_delete_pending = remove uid m.create_delete_pending;
      }
      else m

  unfoldable pub phases : Manager Q → List Phase
  phases m = map (λ entry. (m.objects entry.1).phase) m.sandboxes

  -- The loop that counts `active`.
  unfoldable pub active : Manager Q → ℕ
  unfolding phases occupies
  active m = length (keep_if occupies (phases m))

  -- `admissionStatusLocked`, but for the resources.
  unfoldable pub slot_status : Manager Q → SlotStatus
  unfolding count_phases phases
  slot_status m =
      let s =
        count_phases (phases m)
          (record { capacity = m.capacity; creating = 0; running = 0; deleting = 0; used = 0 }) in
      record s { used = s.creating + s.running + s.deleting }
