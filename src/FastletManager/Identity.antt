-- ===== src/FastletManager/Identity.antt =====
-- internal/fastlet/sandbox/admission.go: identities, the fences between them, and tombstones.
pub mod Fences
use fast_sandbox.Base.{
  Bool, true, false, not, ◌&&◌, ◌||◌, Option, none, some, String, Dict, lookup, insert, ◌==◌,
  text_equality, int_equality, if◌then◌else◌, ℤ, pos, ltb_ℤ, leb_ℤ,
}

pub record SandboxIdentity : Type 0 where
  pub sandbox_uid : String
  pub namespace : String
  pub name : String
  pub instance_generation : ℤ
  pub runtime_instance_id : String
  pub assignment_attempt : ℤ
  pub route_generation : ℤ
  pub fastlet_pod_uid : String

pub data Failure : Type 0 where
  capacity_rejected : String → Failure
  is_draining in_progress conflict stale_generation stale_assignment : Failure
  runtime_unavailable network_unavailable infra_unavailable action_unavailable : Failure
  unknown_outcome not_found generation_fenced profile_mismatch : Failure
  snapshot_unsupported : Failure

abbrev pub failure_if : Bool → Failure → Option Failure
failure_if true f = some f
failure_if false f = none

-- The first error of a chain of checks.
abbrev pub or_else : Option Failure → Option Failure → Option Failure
or_else none rest = rest
or_else (some f) rest = some f

unfoldable pub validate_identity_target : String → SandboxIdentity → Option Failure
validate_identity_target pod i =
    or_else
      (failure_if
        (i.sandbox_uid == ""
          || leb_ℤ i.instance_generation (pos 0)
          || i.runtime_instance_id == ""
          || leb_ℤ i.assignment_attempt (pos 0))
        conflict)
      (failure_if (not (pod == "") && not (i.fastlet_pod_uid == pod)) stale_assignment)

abbrev pub requested_route : SandboxIdentity → SandboxIdentity → ℤ
requested_route existing i =
    if leb_ℤ i.route_generation (pos 0) then existing.route_generation else i.route_generation

unfoldable pub validate_identity_fence : String → SandboxIdentity → SandboxIdentity → Option Failure
validate_identity_fence pod existing i =
    or_else (failure_if (not (pod == "") && not (i.fastlet_pod_uid == pod)) stale_assignment) (
      or_else
        (failure_if
          (ltb_ℤ i.instance_generation existing.instance_generation
            || i.instance_generation == existing.instance_generation
              && ltb_ℤ i.assignment_attempt existing.assignment_attempt)
          stale_generation)
        (or_else
          (failure_if
            (ltb_ℤ existing.instance_generation i.instance_generation
              || ltb_ℤ existing.assignment_attempt i.assignment_attempt)
            conflict)
          (or_else
            (failure_if (not (i.runtime_instance_id == existing.runtime_instance_id)) conflict)
            (or_else
              (failure_if (ltb_ℤ (requested_route existing i) existing.route_generation)
                stale_generation)
              (failure_if (ltb_ℤ existing.route_generation (requested_route existing i))
                conflict)))))

unfoldable pub identity_at_or_before : ℤ → ℤ → SandboxIdentity → Bool
identity_at_or_before generation attempt high_water =
    ltb_ℤ generation high_water.instance_generation
    || generation == high_water.instance_generation && leb_ℤ attempt high_water.assignment_attempt

-- `!found || current is before identity`
abbrev pub before_identity : Option SandboxIdentity → SandboxIdentity → Bool
before_identity none i = true
before_identity (some current) i =
    ltb_ℤ current.instance_generation i.instance_generation
    || current.instance_generation == i.instance_generation
      && ltb_ℤ current.assignment_attempt i.assignment_attempt

unfoldable pub record_tombstone : SandboxIdentity → Dict SandboxIdentity → Dict SandboxIdentity
record_tombstone i tombstones =
    if before_identity (lookup i.sandbox_uid tombstones) i
    then insert i.sandbox_uid i tombstones
    else tombstones

abbrev pub fenced_by : Option SandboxIdentity → ℤ → ℤ → Bool
fenced_by none generation attempt = false
fenced_by (some t) generation attempt = identity_at_or_before generation attempt t

-- Whether the tombstones fence a generation and attempt of a UID.
unfoldable pub fenced : String → ℤ → ℤ → Dict SandboxIdentity → Bool
unfolding identity_at_or_before
fenced uid generation attempt tombstones = fenced_by (lookup uid tombstones) generation attempt
