-- ===== src/Examples/Pools.antt =====
-- The sizing and the drains of a pool, internal/controlplane/reconciler/sandboxpool_controller.go, at
-- concrete Pods.
use mathlib.Core.List.{Perm}
use fast_sandbox.Base.{
  ◌↔◌, not, ◌==◌, text_equality, ◌≡◌, ◌≢◌, refl, ◌⊎◌, ℕ, ◌+ℤ◌, ◌-ℤ◌, Bool, if◌then◌else◌, true,
  false, none, some, List, [], ◌∷◌, ◌++◌, length, replicate, String, ◌==◌, int_equality, ℤ, pos,
  ltb_ℤ, lookup,
}
use fast_sandbox.Placement.Types.{Demand, open_state}
use fast_sandbox.Placement.Capacity.{fits}
use fast_sandbox.PoolSizing.{FloatOrder, FreeBin, additional_fastlets_for_demands}
use fast_sandbox.PoolSizing.Packing.{Enough, additional_fastlets_for_demands-Enough}
use fast_sandbox.PoolSizing.Scaling.{
  FastletPod, scale_down_reason, PoolCapacity, Observation, no_capacity, observe_capacity,
  plan_scale,
}
use fast_sandbox.PoolSizing.Scaling.Shrinking.{Shrinks, plan_scale-Shrinks}
use fast_sandbox.PoolSizing.Scaling.Stabilizing.{Round}
use fast_sandbox.PoolSizing.Selection.{upgrade_reason}
use fast_sandbox.PoolSizing.Draining.{
  DrainResponse, drain_target, draining_pods, available_pods, decide_drains, DrainDecision,
  current_template_pods_ready, is_legacy_response,
}
use fast_sandbox.PoolSizing.Draining.Targets.{Heads, CurrentReady, CarriedOut, decide_drains-Heads}
use fast_sandbox.PoolSizing.Draining.Emptiness.{
  DrainTurn, follow_drain, has_timed_out, is_protected_upgrade, Emptied, Accepted,
  follow_drain-Emptied,
}
use fast_sandbox.Examples.Samples.{integers, whole, demand_of, small, fastlet, ledger, admission_of}

abbrev integer_order : FloatOrder whole
integer_order = record { less = ltb_ℤ; equal = λ a b. a == b }

abbrev empty_fastlet : FreeBin ℤ
empty_fastlet = record { slots = pos 2; free = demand_of (pos 4000) (pos 4000) }

abbrev half_full : FreeBin ℤ
half_full = record { slots = pos 1; free = demand_of (pos 2000) (pos 2000) }

abbrev waiting : List (Demand ℤ)
waiting = small ∷ demand_of (pos 3000) (pos 3000) ∷ []

additional_fastlets_for_demands-Enough_example :
    (demands : List (Demand ℤ)) × Perm (waiting ++ replicate 2 small) demands
    × Enough integers whole integer_order empty_fastlet demands (half_full ∷ []) (
        additional_fastlets_for_demands integers whole integer_order waiting 2 small
          (half_full ∷ [])
          empty_fastlet)
additional_fastlets_for_demands-Enough_example =
    additional_fastlets_for_demands-Enough integers whole integer_order waiting 2 small
      (half_full ∷ []) empty_fastlet

-- Two more Fastlets: one for the large demand and a small one, one for the third small one.
waiting-packed :
    additional_fastlets_for_demands integers whole integer_order waiting 2 small
      (half_full ∷ [])
      empty_fastlet
    ≡ some 2
unfolding additional_fastlets_for_demands ◌-ℤ◌
waiting-packed = refl

abbrev pod_named : String → Bool → FastletPod
pod_named name draining = record {
  name = name;
  uid = "1";
  node_name = "node";
  has_drain_request = draining;
  drain_reason = if draining then upgrade_reason else "";
  is_deleting = false;
  has_ended = false;
  created_at = 50;
  template_hash = "h1";
  is_running = true;
  has_ready_condition = true;
  drain_started_at = if draining then 60 else 0;
}

abbrev pods : List FastletPod
pods = pod_named "f1" false ∷ pod_named "f2" false ∷ pod_named "f3" true ∷ []

abbrev capacity : PoolCapacity
capacity = record { pool_min = pos 1; pool_max = pos 5; buffer_min = pos 0; buffer_max = pos 1 }

abbrev observation : Observation integers
observation = record {
  observed =
      (
        "f1/1",
        record (fastlet "f1") {
          admission = record (admission_of (ledger open_state 1)) { running = pos 0; used = pos 0 };
        },
      )
      ∷ ("f2/1", fastlet "f2")
      ∷ [];
  awaiting = [];
  blocked_nodes = [];
  startup_grace = 0;
  now = 120;
}

plan_scale-Shrinks_example :
    Shrinks integers capacity [] pods observation
      (observe_capacity integers observation small empty_fastlet pods (no_capacity integers))
      (plan_scale integers whole integer_order capacity empty_fastlet
        (some small)
        []
        pods
        observation)
plan_scale-Shrinks_example =
    plan_scale-Shrinks integers whole integer_order capacity empty_fastlet small [] pods observation

-- The idle Fastlet is named for removal.
one_removed :
    length
      (plan_scale integers whole integer_order capacity empty_fastlet
        (some small)
        []
        pods
        observation).drain_candidates
    ≡ 1
unfolding plan_scale lookup ◌+ℤ◌ ◌-ℤ◌ fits
one_removed = refl

abbrev round_at : ℕ → Round
round_at now = record { now = now; current = pos 3; desired = pos 2; is_stored = true }

-- A round that wanted no fewer and did not come to store that.
abbrev lost_round : Round
lost_round = record { now = 20000000000; current = pos 3; desired = pos 3; is_stored = false }

-- No registry; the drain of the last Pod cannot be started.
abbrev can_start : FastletPod → Bool
can_start p = not (p.name == "f3")

decide_drains-Heads_example :
    let ready = current_template_pods_ready {Q = ℤ} none "h1" pods in
    (plan : DrainDecision) × Heads "h1" ready false []
      (("f1/1", 2) ∷ [])
      (drain_target pods (pos 1))
      (draining_pods pods)
      (available_pods pods)
      plan
    × ((ready ≡ true) ↔ CurrentReady {Q = ℤ} none "h1" pods)
    × CarriedOut can_start plan
        (decide_drains {Q = ℤ} can_start none "h1" false [] (("f1/1", 2) ∷ []) pods (pos 1))
decide_drains-Heads_example =
    decide_drains-Heads {Q = ℤ} can_start none "h1" false [] (("f1/1", 2) ∷ []) pods (pos 1)

abbrev nothing_left : DrainResponse
nothing_left = record {
  response_pod_uid = "1";
  response_drain_id = "d1";
  is_draining = true;
  runtime_ready = true;
  is_recovering = false;
  admission = some (record (admission_of (ledger open_state 1)) { running = pos 0; used = pos 0 });
}

abbrev last_turn : DrainTurn ℤ
last_turn = record {
  pod = pod_named "f3" true;
  drain_id = "d1";
  reachable = true;
  id_saved = true;
  ack_saved = true;
  answer = some nothing_left;
  heartbeat = none;
  entry = some (fastlet "f3");
  awaiting_count = 0;
  active_count = 0;
  now = 80;
}

follow_drain-Emptied_example :
    (r : DrainResponse) × Accepted integers true true 100 last_turn r
    × (Emptied integers true true 100 last_turn r
        ⊎ ((has_timed_out 100 80 (pod_named "f3" true) ≡ true)
            × (upgrade_reason ≢ scale_down_reason)
            × (is_protected_upgrade integers true true 100 last_turn ≡ false)
            × (is_legacy_response r ≡ false)))
unfolding follow_drain
follow_drain-Emptied_example = follow_drain-Emptied integers true true 100 last_turn refl
