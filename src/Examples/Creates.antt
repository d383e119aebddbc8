-- ===== src/Examples/Creates.antt =====
-- A create request of internal/controlplane/fastpath and internal/controlplane/orchestrator at concrete
-- Fastlets.
use fast_sandbox.FastPath.Intent.{StoredIntent, stored, IntentAnswers, CreatePlan, create_sandbox}
use fast_sandbox.FastPath.Replay.{Served, create_sandbox-Served}
use fast_sandbox.Base.{
  Dict, String, ◌==◌, text_equality, if◌then◌else◌, ◌≡◌, refl, ℕ, zero, suc, ◌≤◌, true, false, none,
  some, [], ◌∷◌, length, lookup, ℤ, pos, ◌+ℤ◌, int_laws,
}
use fast_sandbox.Placement.Types.{FastletInfo, open_state, SandboxStatus}
use fast_sandbox.Placement.Feedback.{capacity_rejected}
use fast_sandbox.Assignment.{AssignmentEnvelope, valid_envelope, Codec}
use fast_sandbox.Orchestrator.{
  created, rejected_before_side_effects, fastlet_error, observed, call_failed, CallResult,
  create_on_target,
}
use fast_sandbox.Orchestrator.InFlight.{SameInFlight, create_on_target-SameInFlight}
use fast_sandbox.FastPath.{CreateTurn, succeeded, CreateTrace, provision_runtime}
use fast_sandbox.FastPath.Attempts.{Orderly, provision_runtime-Orderly}
use fast_sandbox.Examples.Samples.{
  integers, integer_laws, ledger, admission_of, fastlet, registry, small,
}

abbrev first_assignment : AssignmentEnvelope
first_assignment = record {
  version = "v1";
  fastlet_name = "f1";
  fastlet_pod_uid = "pod-1";
  node_name = "node";
  attempt = pos 1;
  instance_generation = pos 1;
  route_generation = pos 1;
  runtime_instance_id = "r1";
  runtime_profile_hash = "p";
  resource_profile_hash = "p";
  infra_revision = "i1";
}

-- A Fastlet with a profile.
abbrev profiled : FastletInfo ℤ
profiled = record (fastlet "f2") {
  runtime_profile_hash = "p";
  resource_profile_hash = "p";
  infra_revision = "i1";
}

-- The first Fastlet has no room.
abbrev turn : ℕ → CreateTurn ℤ
turn zero = record {
  has_ended = false;
  runtime_id = none;
  is_swapped = false;
  answer = call_failed (fastlet_error capacity_rejected rejected_before_side_effects);
  more = some (profiled ∷ []);
  is_deleted = false;
}
turn (suc n) = record {
  has_ended = false;
  runtime_id = some "r2";
  is_swapped = true;
  answer = observed;
  more = none;
  is_deleted = false;
}

abbrev trace : CreateTrace ℤ
trace = provision_runtime turn true (fastlet "f1" ∷ []) first_assignment

provision_runtime-Orderly_example :
    (length trace.0 ≤ 32) × Orderly turn true [] first_assignment none trace
provision_runtime-Orderly_example =
    provision_runtime-Orderly turn true (fastlet "f1" ∷ []) first_assignment

-- The second Fastlet, which the refresh found, creates the Sandbox.
second-succeeds : (length trace.0 ≡ 2) × (trace.1 ≡ succeeded)
unfolding provision_runtime valid_envelope ◌+ℤ◌
second-succeeds = (refl, refl)

abbrev running : SandboxStatus
running = record {
  sandbox_id = "a";
  instance_generation = pos 1;
  assignment_attempt = pos 1;
  accepted_generation = pos 1;
  applied_generation = pos 1;
}

abbrev created_reply : CallResult
created_reply = record {
  reply = some (record {
    disposition = created;
    sandbox = some running;
    is_live = true;
    admission = admission_of (ledger open_state 2);
  });
  error = none;
}

create_on_target-SameInFlight_example :
    (j : FastletInfo ℤ) × (lookup "f1"
        (create_on_target integers false true 110
          (fastlet "f1")
          small
          (1024 ∷ [])
          created_reply
          (λ r. r)
          registry).1.fastlets
      ≡ some j)
    × SameInFlight integers integer_laws (fastlet "f1") j
unfolding lookup
create_on_target-SameInFlight_example =
    create_on_target-SameInFlight integers integer_laws false true 110 (fastlet "f1") small
      (1024 ∷ []) created_reply (λ r. r) (fastlet "f1") registry refl (omega int_laws)
      (λ r j found. (j, found, (refl, refl)))

abbrev by_text : Codec
by_text = record {
  marshal = λ e. e.fastlet_name;
  unmarshal = λ text. if text == "f1" then some first_assignment else none;
}

abbrev request_annotations : Dict String
request_annotations =
    ("sandbox.fast.io/request-id", "q1") ∷ ("sandbox.fast.io/create-spec-hash", "h1") ∷ []

abbrev found_intent : StoredIntent
found_intent = record {
  object = record {
    resource_version = "1";
    deleting = false;
    annotations = ("sandbox.fast.io/assignment", "f1") ∷ request_annotations;
    placement = record { fastlet_name = ""; fastlet_pod_uid = ""; attempt = pos 0 };
    runtime_generation = pos 0;
    observed_route_generation = pos 0;
  };
  namespace = "default";
  is_paused = false;
  has_finalizer = true;
}

abbrev repeated : CreatePlan ℤ
repeated = record {
  annotations = request_annotations;
  candidates = fastlet "f2" ∷ [];
  assignment = first_assignment;
}

abbrev found_answers : IntentAnswers
found_answers = record {
  is_created = false;
  read = stored found_intent;
  is_updated = false;
  initialized = none;
}

create_sandbox-Served_example :
    Served turn by_text registry.fastlets repeated found_answers
      (provision_runtime turn false (fastlet "f1" ∷ []) first_assignment)
unfolding create_sandbox valid_envelope lookup
create_sandbox-Served_example =
    create_sandbox-Served turn by_text registry.fastlets repeated found_answers true
      (provision_runtime turn false (fastlet "f1" ∷ []) first_assignment) refl
