-- ===== src/Orchestrator/Kept.antt =====
-- What feedback leaves of a Fastlet's entry, and so a call of the Fastlet.

use fast_sandbox.Base.{
  ℕ, ◌≡◌, refl, ◌∙◌, Bool, true, false, Option, none, some, List, String, lookup,
  lookup-insert_self, if◌then◌else◌,
}
use fast_sandbox.Placement.Quantity.{Quantities}
use fast_sandbox.Placement.Types.{
  Demand, FastletInfo, Registry, AdmissionStatus, ResourceStatus, SandboxStatus,
}
use fast_sandbox.Placement.Heartbeat.{
  use_ledger, ledger_of, not_received, disagrees, apply_admission_resources,
  resource_rejection_cleared, parse_resource_vector,
}
use fast_sandbox.Placement.Feedback.{
  LocalFeedback, with_ledger, apply_feedback_admission, acceptable, feedback_admission,
  feedback_sandbox, feedback_outcome, rejects, settle, feedback_slot, with_defaults, feedback_found,
  record_feedback,
}
use fast_sandbox.Orchestrator.{
  CallResult, CreateReply, CreateError, local_conflict, other_error, fastlet_error, CreateAnswer,
  is_success, error_of, admission_snapshot, failure_feedback, inputs_fit, call_target,
}

module _ (q : Quantities) where
  open q use {Quantity, milli_value, value}

  abbrev pub Info : Type 0
  Info = FastletInfo Quantity

  -- The same is in flight.
  abbrev pub Keeps : Info → Info → Type 0
  Keeps i j =
      (j.in_flight_slots ≡ i.in_flight_slots) × (j.in_flight_resources ≡ i.in_flight_resources)

  Keeps-trans : (i j k : Info) → Keeps i j → Keeps j k → Keeps i k
  Keeps-trans i j k (a, b) (c, d) = (c ∙ a, d ∙ b)

  if-Keeps :
      (i : Info) (b : Bool) (j k : Info) → Keeps i j → Keeps i k → Keeps i (if b then j else k)
  if-Keeps i true j k h h' = h
  if-Keeps i false j k h h' = h'

  use_ledger-Keeps : (i : Info) (a b : Option (Demand Quantity)) → Keeps i (use_ledger q i a b)
  unfolding use_ledger
  use_ledger-Keeps i none b = (refl, refl)
  use_ledger-Keeps i (some c) none = (refl, refl)
  use_ledger-Keeps i (some c) (some d) =
      if-Keeps i (disagrees q c i) (not_received q i)
        (record i { resource_capacity = c; resource_committed = d }) (refl, refl) (refl, refl)

  ledger_of-Keeps : (i : Info) (r : Option ResourceStatus) → Keeps i (ledger_of q i r)
  ledger_of-Keeps i none = (refl, refl)
  ledger_of-Keeps i (some r) =
      use_ledger-Keeps i (parse_resource_vector q r.capacity) (parse_resource_vector q r.committed)

  with_ledger-Keeps : (i : Info) (x : Info × Bool) → Keeps i x.0 → Keeps i (with_ledger q x).0
  unfolding apply_admission_resources
  with_ledger-Keeps i (j, true) h =
      Keeps-trans i j (ledger_of q j j.admission.resources) h
        (ledger_of-Keeps j j.admission.resources)
  with_ledger-Keeps i (j, false) h = h

  either-Keeps :
      (i : Info) (b : Bool) (x y : Info × Bool)
      → Keeps i x.0
      → Keeps i y.0
      → Keeps i (if b then x else y).0
  either-Keeps i true x y h k = h
  either-Keeps i false x y h k = k

  apply_feedback_admission-Keeps :
      (a : AdmissionStatus) (r : ResourceStatus) (f : LocalFeedback) (i : Info)
      → Keeps i (apply_feedback_admission q a r f i).0
  unfolding apply_feedback_admission
  apply_feedback_admission-Keeps a r f i =
      either-Keeps i (acceptable q f r i.admission.resources) _ _ (refl, refl) (refl, refl)

  feedback_admission-Keeps :
      (f : LocalFeedback) (i : Info) (a : Option AdmissionStatus)
      → Keeps i (feedback_admission q f i a).0
  unfolding feedback_admission
  feedback_admission-Keeps f i none = (refl, refl)
  feedback_admission-Keeps f i (some a) =
      elim a.resources
        as (λ o.
          Keeps i
            (elim o as (λ _. Info × Bool) [
              | none ↦ (i, true)
              | some r ↦ with_ledger q (apply_feedback_admission q a r f i)
            ]).0) [
              | none ↦ (refl, refl)
              | some r ↦
                  with_ledger-Keeps i (apply_feedback_admission q a r f i)
                    (apply_feedback_admission-Keeps a r f i)
            ]

  feedback_sandbox-Keeps : (i : Info) (s : Option SandboxStatus) → Keeps i (feedback_sandbox q i s)
  unfolding feedback_sandbox
  feedback_sandbox-Keeps i none = (refl, refl)
  feedback_sandbox-Keeps i (some s) = if-Keeps i _ _ _ (refl, refl) (refl, refl)

  feedback_outcome-Keeps : (f : LocalFeedback) (i : Info) → Keeps i (feedback_outcome q f i)
  unfolding feedback_outcome
  feedback_outcome-Keeps f i =
      if-Keeps i (rejects f.code) _ _ (refl, refl)
        (if-Keeps i (resource_rejection_cleared q i) _ _ (refl, refl) (refl, refl))

  settle-Keeps :
      (f : LocalFeedback) (i : Info) (x : Info × Bool) → Keeps i x.0 → Keeps i (settle q f x)
  settle-Keeps f i (j, true) h =
      let sandboxed = feedback_sandbox q j f.sandbox in
      Keeps-trans i sandboxed (feedback_outcome q f sandboxed)
        (Keeps-trans i j sandboxed h (feedback_sandbox-Keeps j f.sandbox))
        (feedback_outcome-Keeps f sandboxed)
  settle-Keeps f i (j, false) h = h

  feedback_slot-Keeps : (f : LocalFeedback) (i : Info) → Keeps i (feedback_slot q f i)
  unfolding feedback_slot
  feedback_slot-Keeps f i =
      if-Keeps i _ _ _ (refl, refl)
        (settle-Keeps f i (feedback_admission q f i f.admission)
          (feedback_admission-Keeps f i f.admission))

  -- The Fastlet's entry is there, with the same in flight as another.
  abbrev pub KeepsAt : String → Info → Registry Quantity → Type 0
  KeepsAt id i r = (j : Info) × (lookup id r.fastlets ≡ some j) × Keeps i j

  record_feedback-KeepsAt :
      (now : ℕ) (id : String) (f : LocalFeedback) (i : Info) (r : Registry Quantity)
      → KeepsAt id i r
      → KeepsAt id i (record_feedback q now id f r)
  unfolding record_feedback feedback_found
  record_feedback-KeepsAt now id f i r (j, found, h) =
      let k = feedback_slot q (with_defaults q now f) j in
      (
        k,
        rw found (lookup-insert_self id k r.fastlets),
        Keeps-trans i j k h (feedback_slot-Keeps (with_defaults q now f) j),
      )

  admission_snapshot-KeepsAt :
      (now : ℕ) (c : Info) (reply : Option CreateReply) (i : Info) (r : Registry Quantity)
      → KeepsAt c.id i r
      → KeepsAt c.id i (admission_snapshot q now c reply r)
  admission_snapshot-KeepsAt now c none i r h = h
  admission_snapshot-KeepsAt now c (some reply) i r h = record_feedback-KeepsAt now c.id _ i r h

  failure_feedback-KeepsAt :
      (now : ℕ) (c : Info) (reply : Option CreateReply) (e : CreateError) (i : Info)
      (r : Registry Quantity)
      → KeepsAt c.id i r
      → KeepsAt c.id i (failure_feedback q now c reply e r)
  failure_feedback-KeepsAt now c reply (fastlet_error code disposition) i r h =
      record_feedback-KeepsAt now c.id _ i r h
  failure_feedback-KeepsAt now c reply local_conflict i r h = h
  failure_feedback-KeepsAt now c reply other_error i r h = h

  -- What others do to the registry leaves the entry of the Fastlet, with the same in flight.
  abbrev pub GiveBack : String → (Registry Quantity → Registry Quantity) → Type 0
  GiveBack id others =
      (r : Registry Quantity) (j : Info) → lookup id r.fastlets ≡ some j → KeepsAt id j (others r)

  either-KeepsAt :
      (id : String) (i : Info) (b : Bool) (x y : CreateAnswer × Registry Quantity)
      → KeepsAt id i x.1
      → KeepsAt id i y.1
      → KeepsAt id i (if b then x else y).1
  either-KeepsAt id i true x y h k = h
  either-KeepsAt id i false x y h k = k

  pub call_target-KeepsAt :
      (now : ℕ) (c : Info) (inputs : List ℕ) (x : CallResult)
      (others : Registry Quantity → Registry Quantity) (r : Registry Quantity) (j : Info)
      → GiveBack c.id others
      → lookup c.id r.fastlets ≡ some j
      → KeepsAt c.id j (call_target q now c inputs x others r).1
  call_target-KeepsAt now c inputs x others r j back found =
      either-KeepsAt c.id j (inputs_fit 0 inputs) _ _
        (either-KeepsAt c.id j (is_success x) _ _
          (admission_snapshot-KeepsAt now c x.reply j (others r) (back r j found))
          (failure_feedback-KeepsAt now c x.reply (error_of x) j (others r) (back r j found)))
        (j, found, (refl, refl))
