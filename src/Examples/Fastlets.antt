-- ===== src/Examples/Fastlets.antt =====
-- The placement registry of internal/controlplane/placement at concrete Fastlets.
use std.Path.{subst}
use fast_sandbox.Base.{
  ℕ, true, false, ◌≡◌, refl, ◌⊎◌, some, String, lookup, ℤ, pos, ◌+ℤ◌, ◌<ℤ◌, All, Mem, arith,
  int_laws, text_equality,
}
use fast_sandbox.Placement.Types.{FastletInfo, open_state, blocked}
use fast_sandbox.Placement.Reserve.{
  reserve_local, reserve_found, reserve_slot, release_local, infos,
}
use fast_sandbox.Placement.ApplyHeartbeat.{stale_heartbeat}
use fast_sandbox.Placement.ApplyHeartbeat.{apply_heartbeat, heartbeat_found, heartbeat_slot}
use fast_sandbox.Placement.Feedback.{feedback_slot}
use fast_sandbox.Placement.Capacity.{resource_schedulability, effective_free_capacity}
use fast_sandbox.Placement.TopK.{top_k, completed_request}
use fast_sandbox.Placement.Reservation.{
  NoOverflow, Fits, SameLedger, reserve_local-bounds, release_local-reserve_local,
  release_local-negative,
}
use fast_sandbox.Placement.Closing.{accept_heartbeats}
use fast_sandbox.Placement.Rejection.{feedback_slot-accept_heartbeats}
use fast_sandbox.Placement.Heartbeats.{apply_heartbeat-apply_heartbeat}
use fast_sandbox.Placement.Headroom.{Fit, effective_free_capacity-Fit}
use fast_sandbox.Placement.Selection.{Serves, top_k-hard_filter}
use fast_sandbox.Examples.Samples.{
  integers, integer_laws, whole, ledger, admission_of, fastlet, registry, small, heartbeat,
  as_given, rejection, late, request, same_image,
}

f1_NoOverflow : NoOverflow integers integer_laws small (fastlet "f1")
unfolding ◌+ℤ◌
f1_NoOverflow = (
  (omega arith, omega arith),
  (omega arith, omega arith),
  (omega arith, omega arith),
  (omega arith, omega arith),
)

registered_NoOverflow :
    (i : FastletInfo ℤ)
    → lookup "f1" registry.fastlets ≡ some i
    → NoOverflow integers integer_laws small i
unfolding lookup
registered_NoOverflow i e =
    let same : fastlet "f1" ≡ i = cc e in
    subst (λ x. NoOverflow integers integer_laws small x) same f1_NoOverflow

reserve_local-bounds_example :
    let x = reserve_local integers "f1" small registry in
    ((x.1 ≡ true)
      × ((j : FastletInfo ℤ) × (lookup "f1" x.0.fastlets ≡ some j)
          × Fits integers integer_laws small j))
    ⊎ ((x.1 ≡ false) × ((k : String) → lookup k x.0.fastlets ≡ lookup k registry.fastlets))
reserve_local-bounds_example =
    reserve_local-bounds integers integer_laws "f1" small registry registered_NoOverflow

release_local-reserve_local_example :
    (j : FastletInfo ℤ) × (lookup "f1"
        (release_local integers "f1" small (reserve_local integers "f1" small registry).0).fastlets
      ≡ some j)
    × SameLedger integers integer_laws (fastlet "f1") j
unfolding reserve_local reserve_found reserve_slot lookup ◌+ℤ◌
release_local-reserve_local_example =
    release_local-reserve_local integers integer_laws "f1" small registry (fastlet "f1") refl
      (omega int_laws) refl

release_local-negative_example :
    (j : FastletInfo ℤ) × (lookup "f1" (release_local integers "f1" small registry).fastlets
      ≡ some j)
    × (j.in_flight_resources.cpu <ℤ pos 0)
    × (j.in_flight_slots ≡ pos 0)
unfolding lookup
release_local-negative_example =
    release_local-negative integers integer_laws "f1" small registry (fastlet "f1") refl refl refl
      refl (omega int_laws)

apply_heartbeat-apply_heartbeat_example :
    (let taken =
        (apply_heartbeat integers as_given "f1" "pod-1"
          (some (heartbeat 6 (ledger open_state 2)))
          110
          registry).0 in
      ((apply_heartbeat integers as_given "f1" "pod-1"
          (some (heartbeat 6 (ledger open_state 2)))
          120
          taken).1
        ≡ some stale_heartbeat)
      × ((k : String)
          → lookup k
              (apply_heartbeat integers as_given "f1" "pod-1"
                (some (heartbeat 6 (ledger open_state 2)))
                120
                taken).0.fastlets
            ≡ lookup k taken.fastlets))
unfolding apply_heartbeat heartbeat_found heartbeat_slot lookup
apply_heartbeat-apply_heartbeat_example =
    apply_heartbeat-apply_heartbeat integers as_given "f1" "pod-1"
      (heartbeat 6 (ledger open_state 2)) (heartbeat 6 (ledger open_state 2)) 110 120 (fastlet "f1")
      registry refl refl refl refl (omega arith)

feedback_slot-accept_heartbeats_example :
    (resource_schedulability integers
      (accept_heartbeats integers as_given late (feedback_slot integers rejection (fastlet "f1")))
      130
      50).schedulable
    ≡ false
feedback_slot-accept_heartbeats_example =
    feedback_slot-accept_heartbeats integers as_given late rejection
      (admission_of (ledger blocked 3)) (ledger blocked 3) (fastlet "f1") 130 50 refl refl refl refl
      refl (refl, (refl, tt))

effective_free_capacity-Fit_example :
    (n : ℕ) × (effective_free_capacity integers (fastlet "f1") small 110 50 ≡ pos n)
    × Fit integers (fastlet "f1") small n
effective_free_capacity-Fit_example =
    effective_free_capacity-Fit integers (fastlet "f1") small 110 50

top_k-hard_filter_example :
    All
      (λ i.
        Mem i (infos integers registry.fastlets)
        × Serves integers whole
            (completed_request integers whole same_image 110 request)
            registry
            i)
      (top_k integers whole same_image 110 request 3 registry)
top_k-hard_filter_example = top_k-hard_filter integers whole same_image 110 request 3 registry
