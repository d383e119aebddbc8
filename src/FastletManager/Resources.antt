-- ===== src/FastletManager/Resources.antt =====
-- internal/fastlet/sandbox/admission.go: the check of a new Sandbox against the Fastlet's resources.
use fast_sandbox.Base.{
  Bool, true, false, not, Option, none, some, List, [], ◌∷◌, map, String, ◌==◌, nat_equality,
  text_equality, int_equality, if◌then◌else◌,
}
use fast_sandbox.Placement.Quantity.{Quantities}
use fast_sandbox.Placement.Types.{Demand, AdmissionState, blocked, unknown_state}
use fast_sandbox.Pressure.{telemetry_missing}
use fast_sandbox.FastletManager.Phases.{occupies}
use fast_sandbox.FastletManager.Identity.{Failure, capacity_rejected, failure_if, or_else}
use fast_sandbox.FastletManager.Records.{RuntimeConfig, Metadata, ResourceSettings, Manager}

abbrev pub reason_or_missing : String → String
reason_or_missing reason = if reason == "" then telemetry_missing else reason

abbrev pub gate_failure : AdmissionState → String → Option Failure
gate_failure blocked reason = some (capacity_rejected (reason_or_missing reason))
gate_failure unknown_state reason = some (capacity_rejected (reason_or_missing reason))
gate_failure _ reason = none

module _ (q : Quantities) where
  open q use {Quantity}

  abbrev pub State : Type 0
  State = Manager Quantity

  abbrev pub add_demand : Demand Quantity → Demand Quantity → Demand Quantity
  add_demand a b = record { cpu = q.add a.cpu b.cpu; memory = q.add a.memory b.memory }

  -- `requestsForRuntimeConfig`: the profile of the Pool, of api/v1alpha2, derives the requests of a
  -- Sandbox from its limits, or gives an error.
  module _ (requests_of : RuntimeConfig → Option (Demand Quantity)) where
    abbrev pub add_committed :
        Bool → Option (Demand Quantity) → Option (Demand Quantity) → Option (Demand Quantity)
    add_committed false requests rest = rest
    add_committed true (some d) (some total) = some (add_demand total d)
    add_committed true _ _ = none

    unfoldable pub committed_of : List Metadata → Option (Demand Quantity)
    unfolding occupies
    committed_of [] = some (record { cpu = q.zero_quantity; memory = q.zero_quantity })
    committed_of (metadata ∷ rest) =
        add_committed (occupies metadata.phase) (requests_of metadata.config) (committed_of rest)

    unfoldable pub resource_committed : State → Option (Demand Quantity)
    unfolding committed_of
    resource_committed m = committed_of (map (λ entry. m.objects entry.1) m.sandboxes)

    abbrev pub unsupported : Failure
    unsupported = capacity_rejected "UNSUPPORTED_PROTOCOL"

    abbrev pub over_capacity : Demand Quantity → Demand Quantity → Option Failure
    over_capacity next capacity =
        or_else
          (failure_if (not (q.cmp_le next.cpu capacity.cpu))
            (capacity_rejected "STATIC_CPU_EXHAUSTED"))
          (failure_if (not (q.cmp_le next.memory capacity.memory))
            (capacity_rejected "STATIC_MEMORY_EXHAUSTED"))

    abbrev pub static_failure :
        Option (Demand Quantity) → Demand Quantity → Demand Quantity → Option Failure
    static_failure none requests capacity = some unsupported
    static_failure (some committed) requests capacity =
        over_capacity (add_demand committed requests) capacity

    -- `resourceAdmissionStateLocked`
    abbrev pub memory_failure : State → Option Failure
    memory_failure m =
        if m.recovering
        then gate_failure unknown_state "RECOVERY_INCOMPLETE"
        else gate_failure m.gate.resource_state m.gate.resource_reason

    abbrev pub settled_failure :
        ResourceSettings Quantity → Option (Demand Quantity) → State → Option Failure
    settled_failure settings none m = some unsupported
    settled_failure settings (some requests) m =
        or_else
          (if settings.static_admission
            then static_failure (resource_committed m) requests settings.resource_capacity
            else none)
          (if settings.memory_admission then memory_failure m else none)

    abbrev resource_failure_by :
        Option (ResourceSettings Quantity) → RuntimeConfig → State → Option Failure
    resource_failure_by none candidate m = none
    resource_failure_by (some settings) candidate m =
        settled_failure settings (requests_of candidate) m

    unfoldable pub resource_capacity_failure : RuntimeConfig → State → Option Failure
    unfolding resource_committed
    resource_capacity_failure candidate m = resource_failure_by m.resources candidate m
