-- ===== src/Examples/Sandboxes.antt =====
-- The Sandbox manager of a Fastlet with two slots.
use fast_sandbox.Base.{
  ℕ, ◌≡◌, ◌≢◌, refl, inr, true, false, Option, none, some, List, [], ◌∷◌, String, lookup, insert, ℤ,
  pos, ◌≤ℤ◌, arith, eq_iff, ◌==◌, text_equality,
}
use fast_sandbox.Placement.Types.{Demand, open_state}
use fast_sandbox.FastletManager.Phases.{
  running, action_pending, route_ready_for_phase, reported, plane_ready,
}
use fast_sandbox.FastletManager.Phases.Observations.{reported-ready}
use fast_sandbox.FastletManager.Identity.{
  SandboxIdentity, validate_identity_fence, validate_identity_target, identity_at_or_before, fenced,
}
use fast_sandbox.FastletManager.Identity.Fences.{validate_identity_fence-SameInstance}
use fast_sandbox.FastletManager.Records.{
  RuntimeConfig, Metadata, Manager, active, phases, slot_status,
}
use fast_sandbox.FastletManager.Create.{CreateInput}
use fast_sandbox.FastletManager.Resources.{resource_capacity_failure}
use fast_sandbox.FastletManager.Reserve.{reserve_sandbox, place}
use fast_sandbox.FastletManager.Delete.{requires_strict, delete_sandbox}
use fast_sandbox.FastletManager.Drain.{is_ready_fastlet}
use fast_sandbox.FastletManager.Granted.{is_placed}
use fast_sandbox.FastletManager.History.{Event, reserves, delete_dispatches, delete_ends, run}
use fast_sandbox.FastletManager.Tombstones.{deleted-never_placed}
use fast_sandbox.FastletManager.Slots.{reserve_sandbox-capacity}
use fast_sandbox.FastletManager.Draining.{Drains, drained-never_placed}
use fast_sandbox.Examples.Samples.{integers, demand_of}

abbrev identity_of : String → ℤ → SandboxIdentity
identity_of uid generation = record {
  sandbox_uid = uid;
  namespace = "default";
  name = uid;
  instance_generation = pos 1;
  runtime_instance_id = "r1";
  assignment_attempt = generation;
  route_generation = pos 1;
  fastlet_pod_uid = "pod-1";
}

abbrev config_of : String → ℤ → RuntimeConfig
config_of uid attempt = record {
  identity = identity_of uid attempt;
  actions_api_version = "";
  desired = record {
    image = "alpine";
    runtime_profile_hash = "";
    resource_profile_hash = "";
    infra_revision = "";
  };
  limits = record { cpu = "1"; memory = "1"; pids = pos 10 };
}

abbrev input_of : String → ℤ → CreateInput
input_of uid attempt = record {
  config = config_of uid attempt;
  spec_generation = pos 1;
  bindings = 0;
}

abbrev no_object : ℕ → Metadata
no_object a = record {
  config = config_of "" (pos 0);
  phase = running;
  created_at = 0;
  accepted_generation = pos 0;
  applied_generation = pos 0;
}

abbrev fresh : Manager ℤ
fresh = record {
  capacity = pos 2;
  fastlet_pod_uid = "pod-1";
  resources = none;
  gate = record { resource_state = open_state; resource_reason = "" };
  action_manager = none;
  has_infra_manager = false;
  has_route_publisher = false;
  infra_ready = true;
  recovering = false;
  runtime_ready = true;
  route_ready = true;
  draining = false;
  drain_id = "";
  drain_reason = "";
  tombstones = [];
  create_delete_pending = [];
  sandboxes = [];
  objects = no_object;
  next_object = 0;
}

abbrev requests_of : RuntimeConfig → Option (Demand ℤ)
requests_of config = some (demand_of (pos 1) (pos 1))

-- A create, its commit, its delete, and another create.
abbrev life : List Event
life =
    delete_dispatches 0 false false false
    ∷ delete_ends 0
    ∷ reserves (input_of "b" (pos 1)) true 7
    ∷ []

abbrev serving : Manager ℤ
serving = record fresh {
  sandboxes = ("a", 0) ∷ [];
  objects = λ a. record (no_object a) { config = config_of "a" (pos 3) };
  next_object = 1;
}

reported-ready_example : (reported true action_pending).1 ≡ plane_ready
unfolding route_ready_for_phase
reported-ready_example = ((reported-ready true action_pending).1).1 refl

validate_identity_fence-SameInstance_example :
    validate_identity_fence "pod-1" (identity_of "a" (pos 3)) (identity_of "a" (pos 3)) ≡ none
validate_identity_fence-SameInstance_example =
    (validate_identity_fence-SameInstance "pod-1" (identity_of "a" (pos 3))
        (identity_of "a" (pos 3))).1
      (refl, refl, refl, refl, inr refl)

reserve_sandbox-capacity_example :
    (active (reserve_sandbox integers requests_of (input_of "b" (pos 1)) true 7 serving).1 ≡ 2)
    × (pos
          (slot_status
            (reserve_sandbox integers requests_of (input_of "b" (pos 1)) true 7 serving).1).used
        ≤ℤ pos 2)
unfolding active phases lookup insert reserve_sandbox place resource_capacity_failure fenced
reserve_sandbox-capacity_example =
    reserve_sandbox-capacity integers requests_of (input_of "b" (pos 1)) true 7 serving
      (omega arith, tt) refl

deleted-never_placed_example :
    is_placed
      (reserve_sandbox integers requests_of
        (input_of "a" (pos 2))
        true
        9
        (run integers requests_of life (delete_sandbox (identity_of "a" (pos 3)) serving).1)).0
    ≡ false
unfolding delete_sandbox lookup validate_identity_target validate_identity_fence requires_strict
    identity_at_or_before
deleted-never_placed_example =
    deleted-never_placed integers requests_of (identity_of "a" (pos 3)) serving life
      (input_of "a" (pos 2)) true 9 refl refl refl

abbrev drain_1 : String
drain_1 = "drain-1"

named : drain_1 ≢ ""
named e = let f : (drain_1 == "") ≡ true = (eq_iff drain_1 "").1 e in absurd (cc f)

drained-never_placed_example :
    Drains drain_1
      (run integers requests_of life (record serving { draining = true; drain_id = drain_1 }))
    × (is_ready_fastlet
          (run integers requests_of life (record serving { draining = true; drain_id = drain_1 }))
        ≡ false)
    × (is_placed
          (reserve_sandbox integers requests_of (input_of "c" (pos 1)) true 9 (
            run integers requests_of life
              (record serving { draining = true; drain_id = drain_1 }))).0
        ≡ false)
drained-never_placed_example =
    drained-never_placed integers requests_of drain_1 life
      (record serving { draining = true; drain_id = drain_1 }) (input_of "c" (pos 1)) true 9 named
      (refl, (refl, (refl, tt))) (refl, refl)
