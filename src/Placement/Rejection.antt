-- ===== src/Placement/Rejection.antt =====
-- placement/registry.go: a Fastlet that answered with a blocked admission stays out of placement.
use fast_sandbox.Base.{
  ℕ, ◌≡◌, refl, true, false, not, ◌&&◌, Option, none, some, List, String, Bool-cases, arith, sym,
  ap, ◌==◌, text_equality, nat_equality, if◌then◌else◌, ==_refl, ◌∙◌, All, inl, inr,
}
use std.Path.{subst}
use fast_sandbox.Placement.Quantity.{Quantities}
use fast_sandbox.Placement.Types.{
  FastletInfo, AdmissionStatus, ResourceStatus, HeartbeatResponse, SandboxStatus,
  admission_state_beq, open_state, blocked, Fence,
}
use fast_sandbox.Placement.Heartbeat.{apply_admission_resources}
use fast_sandbox.Placement.Feedback.{
  LocalFeedback, settle, rejects, feedback_slot, feedback_admission, feedback_sandbox,
  feedback_outcome, apply_feedback_admission, acceptable, fence_after,
}
use fast_sandbox.Placement.Capacity.{resource_schedulability, open_status, in_service}
use fast_sandbox.Placement.Closing.{
  state_open, and-false, Closed, ledger-Closed, cleared-Closed, accept_heartbeats, Behind,
  accept_heartbeats-Closed,
}

module _ (q : Quantities) where
  open q use {Quantity}

  abbrev Info : Type 0
  Info = FastletInfo Quantity

  closed-not_open : (o : Option ResourceStatus) → state_open o ≡ false → open_status q o ≡ false
  closed-not_open none closed = refl
  closed-not_open (some r) closed = ground arith

  closed-in_service :
      (i : Info) (t stale_after : ℕ)
      → open_status q i.admission.resources ≡ false
      → in_service q i t stale_after ≡ false
  closed-in_service i t stale_after closed = ground arith

  Closed-schedulable :
      (f : Fence) (i : Info) (t stale_after : ℕ)
      → Closed q f i
      → (resource_schedulability q i t stale_after).schedulable ≡ false
  unfolding resource_schedulability
  Closed-schedulable f i t stale_after (closed, fenced) =
      rw (closed-in_service i t stale_after (closed-not_open i.admission.resources closed)) refl

  sandbox-Closed :
      (f : Fence) (i : Info) (o : Option SandboxStatus)
      → Closed q f i
      → Closed q f (feedback_sandbox q i o)
  unfolding feedback_sandbox
  sandbox-Closed f i none closed = closed
  sandbox-Closed f i (some s) closed = ground arith

  outcome-Closed :
      (fb : LocalFeedback) (f : Fence) (i : Info)
      → Closed q f i
      → Closed q f (feedback_outcome q fb i)
  unfolding feedback_outcome
  outcome-Closed fb f i closed = elim (Bool-cases (rejects fb.code)) [
    | inl e ↦ rw (e) closed
    | inr e ↦ rw (e) (cleared-Closed q f i closed)
  ]

  settle-Closed :
      (fb : LocalFeedback) (f : Fence) (i : Info)
      → Closed q f i
      → Closed q f (settle q fb (apply_admission_resources q i, true))
  unfolding feedback_outcome
  settle-Closed fb f i closed =
      outcome-Closed fb f _ (sandbox-Closed f _ fb.sandbox (ledger-Closed q f i closed))

  abbrev answered : LocalFeedback → AdmissionStatus → ResourceStatus → Info → Info
  answered fb a r i = record i {
    admission = a;
    resource_received_at = fb.observed_at;
    resource_fence = fence_after q fb r i.resource_fence;
  }

  feedback_admission-taken :
      (fb : LocalFeedback) (a : AdmissionStatus) (r : ResourceStatus) (i : Info)
      → a.resources ≡ some r
      → acceptable q fb r i.admission.resources ≡ true
      → feedback_admission q fb i (some a) ≡ (apply_admission_resources q (answered fb a r i), true)
  unfolding feedback_admission apply_feedback_admission
  feedback_admission-taken fb a r i k ok = simp (k, ok)

  feedback_slot-taken :
      (fb : LocalFeedback) (a : AdmissionStatus) (r : ResourceStatus) (i : Info)
      → fb.pod_uid ≡ i.pod_uid
      → fb.admission ≡ some a
      → a.resources ≡ some r
      → acceptable q fb r i.admission.resources ≡ true
      → feedback_slot q fb i ≡ settle q fb (apply_admission_resources q (answered fb a r i), true)
  unfolding feedback_slot
  feedback_slot-taken fb a r i same e k ok =
      let here : (not (fb.pod_uid == "") && not (i.pod_uid == fb.pod_uid)) ≡ false =
        rw (same, ==_refl i.pod_uid) (and-false (not (i.pod_uid == ""))) in
      ap (λ b. if b then i else settle q fb (feedback_admission q fb i fb.admission)) here
      ∙ ap (λ o. settle q fb (feedback_admission q fb i o)) e
      ∙ ap (settle q fb) (feedback_admission-taken fb a r i k ok)

  fence_after-blocked :
      (fb : LocalFeedback) (r : ResourceStatus) (old : Fence)
      → r.state ≡ blocked
      → fence_after q fb r old ≡ record { epoch = r.epoch; revision = r.revision }
  fence_after-blocked fb r old b = ground arith

  feedback_slot-Closed :
      (fb : LocalFeedback) (a : AdmissionStatus) (r : ResourceStatus) (i : Info)
      → fb.pod_uid ≡ i.pod_uid
      → fb.admission ≡ some a
      → a.resources ≡ some r
      → r.state ≡ blocked
      → acceptable q fb r i.admission.resources ≡ true
      → Closed q (record { epoch = r.epoch; revision = r.revision }) (feedback_slot q fb i)
  feedback_slot-Closed fb a r i same e k b ok =
      let closed : state_open a.resources ≡ false =
        ap state_open k ∙ ap (λ x. admission_state_beq x open_state) b in
      subst (Closed q (record { epoch = r.epoch; revision = r.revision }))
        (sym (feedback_slot-taken fb a r i same e k ok))
        (settle-Closed fb _ (answered fb a r i)
          (closed, fence_after-blocked fb r i.resource_fence b))

  -- A Fastlet answers a request with a blocked admission of some epoch and revision, and the registry
  -- takes that answer. Then no heartbeats whose admission is of the same epoch and of that revision or
  -- an earlier one, in any number and order, make the entry schedulable at any time.
  pub feedback_slot-accept_heartbeats :
      (normalize : List String → List String) (hs : List (HeartbeatResponse × ℕ))
      (fb : LocalFeedback) (a : AdmissionStatus) (r : ResourceStatus) (i : Info) (t stale_after : ℕ)
      → fb.pod_uid ≡ i.pod_uid
      → fb.admission ≡ some a
      → a.resources ≡ some r
      → r.state ≡ blocked
      → acceptable q fb r i.admission.resources ≡ true
      → All (Behind q (record { epoch = r.epoch; revision = r.revision })) hs
      → (resource_schedulability q
          (accept_heartbeats q normalize hs (feedback_slot q fb i))
          t
          stale_after).schedulable
        ≡ false
  feedback_slot-accept_heartbeats normalize hs fb a r i t stale_after same e k b ok late =
      Closed-schedulable _ _ t stale_after (
        accept_heartbeats-Closed q normalize hs _ _ late
          (feedback_slot-Closed fb a r i same e k b ok))
