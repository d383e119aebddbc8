-- ===== src/Examples/Samples.antt =====
-- Concrete Fastlets, with exact integers for quantities, and the requests, answers and heartbeats about them.
use fast_sandbox.Base.{
  ℕ, true, false, ◌≡◌, refl, ◌∷◌, [], List, none, some, String, ℤ, pos, ◌+ℤ◌, ◌-ℤ◌, ◌≤ℤ◌, ◌<ℤ◌,
  ltb_ℤ, leb_ℤ, arith, int_laws, if◌then◌else◌, ◌==◌, text_equality,
}
use fast_sandbox.Placement.Quantity.{Quantities, QuantityLaws}
use fast_sandbox.Placement.Types.{
  Demand, FastletInfo, Registry, AdmissionStatus, ResourceStatus, HeartbeatResponse, AdmissionState,
  open_state, blocked,
}
use fast_sandbox.Placement.Feedback.{LocalFeedback, capacity_rejected}
use fast_sandbox.Placement.TopK.{Floats, CandidateRequest}

-- Quantities that are whole thousandths, and bytes.
abbrev pub integers : Quantities
integers = record {
  Quantity = ℤ;
  zero_quantity = pos 0;
  add = ◌+ℤ◌;
  sub = ◌-ℤ◌;
  is_positive = λ a. ltb_ℤ (pos 0) a;
  is_negative = λ a. ltb_ℤ a (pos 0);
  cmp_le = leb_ℤ;
  milli_value = λ a. a;
  value = λ a. a;
  parse_quantity = λ text. if text == "4" then some (pos 4000) else some (pos 0);
}

pub add_sub : (a b : ℤ) → a +ℤ b -ℤ b ≡ a
add_sub a b = omega int_laws

pub refl_le : (a : ℤ) → a ≤ℤ a
refl_le a = omega int_laws

pub one_above : (a : ℤ) → a ≤ℤ a +ℤ pos 1
one_above a = omega int_laws

pub positive : (a : ℤ) → ltb_ℤ (pos 0) a ≡ true → pos 0 <ℤ a
positive a e = ground arith

pub integer_laws : QuantityLaws integers
integer_laws = record {
  milli_value-zero = refl;
  value-zero = refl;
  milli_value-add = λ a b. refl_le (a +ℤ b);
  value-add = λ a b. refl_le (a +ℤ b);
  milli_value-add_sub = add_sub;
  value-add_sub = add_sub;
  milli_value-positive = positive;
  value-positive = positive;
  milli_value-sub = λ a b. one_above (a -ℤ b);
}

-- Loads in whole numbers, which is what the ranking reads of them here.
abbrev pub whole : Floats
whole = record {
  F = ℤ;
  of_int = λ a. a;
  quotient = λ a b. if leb_ℤ b a then pos 1 else pos 0;
  max = λ a b. if leb_ℤ a b then b else a;
  tenfold = λ a. a;
}

abbrev pub demand_of : ℤ → ℤ → Demand ℤ
demand_of cpu memory = record { cpu = cpu; memory = memory }

abbrev pub ledger : AdmissionState → ℕ → ResourceStatus
ledger state revision = record {
  version = "v2";
  epoch = "e1";
  revision = revision;
  capacity = record { cpu = "4"; memory = "4" };
  committed = record { cpu = "0"; memory = "0" };
  state = state;
  reason = "";
}

abbrev pub admission_of : ResourceStatus → AdmissionStatus
admission_of r = record {
  capacity = pos 4;
  creating = pos 0;
  running = pos 1;
  deleting = pos 0;
  used = pos 1;
  resources = some r;
}

abbrev pub fastlet : String → FastletInfo ℤ
fastlet id = record {
  id = id;
  namespace = "team";
  pod_name = id;
  pod_uid = "pod-1";
  pod_ip = "10.0.0.1";
  node_name = "node";
  pool_name = "pool";
  runtime_name = "runc";
  runtime_profile_hash = "";
  resource_profile_hash = "";
  infra_revision = "";
  fastlet_revision = "";
  infra_ready = true;
  prepared_artifacts = [];
  registry_revision = "";
  warm_images = [];
  pod_ready = true;
  runtime_ready = true;
  drain_requested = false;
  draining = false;
  admission = admission_of (ledger open_state 1);
  resource_capacity = demand_of (pos 4000) (pos 4000);
  resource_committed = demand_of (pos 500) (pos 500);
  in_flight_resources = demand_of (pos 0) (pos 0);
  in_flight_slots = pos 0;
  resource_received_at = 100;
  resource_fence = record { epoch = ""; revision = 0 };
  images = [];
  cache_epoch = "c1";
  cache_revision = 1;
  cache_complete = true;
  sandbox_statuses = [];
  heartbeat_sequence = 5;
  last_heartbeat = 100;
  pod_observed_at = 90;
  rejected_until = 0;
}

abbrev pub registry : Registry ℤ
registry = record {
  fastlets = ("f1", fastlet "f1") ∷ ("f2", fastlet "f2") ∷ [];
  stale_after = 50;
  server_seed = "";
}

abbrev pub small : Demand ℤ
small = demand_of (pos 1000) (pos 1000)

abbrev pub heartbeat : ℕ → ResourceStatus → HeartbeatResponse
heartbeat sequence r = record {
  fastlet_pod_uid = "pod-1";
  runtime_ready = true;
  infra_ready = true;
  draining = false;
  runtime_profile_hash = "";
  resource_profile_hash = "";
  infra_revision = "";
  registry_revision = "";
  prepared_artifacts = [];
  warm_images = [];
  admission = admission_of r;
  sandbox_statuses = [];
  sequence = sequence;
  cache = record { epoch = "c1"; revision = 1; full = false; complete = true; images = [] };
}

abbrev pub as_given : List String → List String
as_given images = images

abbrev pub rejection : LocalFeedback
rejection = record {
  pod_uid = "pod-1";
  base_resource_epoch = "e1";
  base_resource_revision = 1;
  code = capacity_rejected;
  admission = some (admission_of (ledger blocked 3));
  sandbox = none;
  observed_at = 110;
  retry_after = 5;
}

abbrev pub late : List (HeartbeatResponse × ℕ)
late = (heartbeat 6 (ledger open_state 2), 120) ∷ (heartbeat 7 (ledger open_state 3), 130) ∷ []

abbrev pub request : CandidateRequest ℤ
request = record {
  namespace = "team";
  pool_name = "pool";
  runtime_name = "runc";
  runtime_profile_hash = "";
  resource_profile_hash = "";
  infra_revision = "";
  fastlet_revision = "";
  resource_aware = true;
  demand = small;
  image = "busybox";
  stable_key = "sandbox";
  now = 0;
  excluded = "f2" ∷ [];
}

abbrev pub same_image : String → String
same_image image = image
