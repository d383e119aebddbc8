-- ===== src/Examples/Agent.antt =====
-- The node agent's state of internal/runtime/firecracker/agent/state at concrete calls.
use fast_sandbox.Base.{
  Bool, true, false, ◌≡◌, ◌≢◌, refl, ◌∷◌, [], List, some, String, lookup, insert, remove, All, ◌==◌,
  text_equality, eq_iff,
}
use fast_sandbox.AgentState.Leases.{
  pin_image, lease_devices, release_devices, Identity, Lease, Args, no_args, no_lease, Result,
  Completed, Inflight, State, empty_state, digest, add_pin, apply_result, completed_entry,
}
use fast_sandbox.AgentState.Calls.{
  begin_run, begin_seen, begin_new, end_run, finish_run, commit, replayed, begin_release,
  begin_lease,
}
use fast_sandbox.AgentState.History.{Action, begins, ends, act, history}
use fast_sandbox.AgentState.Mirror.{Durable}
use fast_sandbox.AgentState.Refs.{refs_of}
use fast_sandbox.AgentState.Replay.{recover}
use fast_sandbox.AgentState.ExactlyOnce.{lease_reply, release_reply, replay-first_outcome}
use fast_sandbox.AgentState.Recovery.{recover-history}
use fast_sandbox.AgentState.Ownership.{retry-unjournaled}

abbrev caller : String → Identity
caller request_id = record { request_id = request_id; namespace = "team"; pod_uid = "pod-a" }

abbrev image_args : Args
image_args = record no_args { image = "busybox" }

abbrev lease_args : Args
lease_args = record no_args { sandbox_id = "sb"; image = "busybox"; lease_id = "l1" }

abbrev held_lease : Lease
held_lease = record no_lease {
  lease_id = "l1";
  sandbox_id = "sb";
  image = "busybox";
  pod_uid = "pod-a";
}

abbrev pinned : Result
pinned = record { manifest_digest = "sha256:1"; lease = no_lease }

abbrev leased_result : Result
leased_result = record { manifest_digest = ""; lease = held_lease }

-- A pin, a lease that overlaps it, and a call that is still in flight at the end.
abbrev calls : List Action
calls =
    begins (caller "r1") pin_image image_args true
    ∷ begins (caller "r2") lease_devices lease_args true
    ∷ ends "r2" (some leased_result) true
    ∷ ends "r1" (some pinned) true
    ∷ begins (caller "r3") release_devices lease_args true
    ∷ []

named : (a : String) → (a == "") ≡ false → a ≢ ""
named a h e = cc ((eq_iff a "").1 e, h)

calls-Durable : All Durable calls
calls-Durable = (
  (refl, named "r1" refl, named "busybox" refl),
  ((refl, named "r2" refl, tt), (refl, (refl, ((refl, named "r3" refl, tt), tt)))),
)

recover-history_example :
    (t : State) × (recover (history calls empty_state).journal ≡ some t)
    × (t.leases ≡ (history calls empty_state).leases)
    × (t.by_sandbox ≡ (history calls empty_state).by_sandbox)
    × ((image : String) → refs_of image t.images ≡ refs_of image (history calls empty_state).images)
    × ((id : String) (c : Completed)
        → lookup id t.completed ≡ some c
        → lookup id (history calls empty_state).completed ≡ some c)
recover-history_example = recover-history calls calls-Durable

abbrev pin_done : State
pin_done =
    history (begins (caller "r1") pin_image image_args true ∷ ends "r1" (some pinned) true ∷ [])
      empty_state

abbrev pin_outcome : Completed
pin_outcome = completed_entry pin_image "pod-a" pinned

replay-first_outcome_example :
    (begin_run (caller "r1") pin_image lease_args true (history calls pin_done)
      ≡ (replayed (digest "sha256:1"), history calls pin_done))
    × (begin_release (caller "r1") lease_args true (history calls pin_done) ≡ (
      release_reply pin_outcome (caller "r1") lease_args (history calls pin_done),
      history calls pin_done,
    ))
    × (begin_lease (caller "r1") lease_args true (history calls pin_done) ≡ (
      lease_reply pin_outcome
          (caller "r1")
          (history calls pin_done)
          (lookup "sb" (history calls pin_done).by_sandbox),
      history calls pin_done,
    ))
unfolding history act begin_run begin_seen begin_new end_run finish_run commit apply_result add_pin
    empty_state lookup insert remove
replay-first_outcome_example =
    replay-first_outcome (caller "r1") pin_image lease_args true pin_outcome calls pin_done
      (refl, refl)

abbrev stranger : Identity
stranger = record { request_id = "r9"; namespace = "team"; pod_uid = "pod-b" }

abbrev leased_state : State
leased_state =
    history
      (begins (caller "r2") lease_devices lease_args true
        ∷ ends "r2" (some leased_result) true
        ∷ [])
      empty_state

different_pods : held_lease.pod_uid ≢ stranger.pod_uid
different_pods e = cc ((eq_iff "pod-a" "pod-b").1 e)

abbrev pinning : State
pinning = history (begins (caller "r1") pin_image image_args true ∷ []) empty_state

abbrev pin_pending : Inflight
pin_pending = record { op = pin_image; pod_uid = "pod-a"; args = image_args }

retry-unjournaled_example :
    ((end_run "r1" (some pinned) false pinning).journal ≡ pinning.journal)
    × ((ok : Bool)
        → begin_run (caller "r1") pin_image image_args ok (end_run "r1" (some pinned) false pinning)
          ≡ (replayed (digest "sha256:1"), end_run "r1" (some pinned) false pinning))
unfolding history act begin_run begin_seen begin_new empty_state lookup insert
retry-unjournaled_example =
    retry-unjournaled (caller "r1") image_args pinned pinning pin_pending refl refl refl
