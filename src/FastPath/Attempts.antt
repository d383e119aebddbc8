-- ===== src/FastPath/Attempts.antt =====
-- What the calls of one create request are.
use mathlib.Core.Logic.{◌↔◌}
use fast_sandbox.Base.{
  ◌≡◌, refl, sym, ap, ◌∙◌, ◌⊎◌, inl, inr, ℕ, zero, suc, ◌≤◌, Bool, true, false, not, ◌&&◌, Option,
  none, some, List, [], ◌∷◌, length, String, ◌==◌, text_equality, if◌then◌else◌, ltb, pos, ◌+ℤ◌,
  arith, Bool-cases,
}
use fast_sandbox.Placement.Types.{FastletInfo}
use fast_sandbox.Assignment.{AssignmentEnvelope, valid_envelope}
use fast_sandbox.Orchestrator.{
  CreateDisposition, rejected_before_side_effects, local_conflict, other_error, fastlet_error,
  is_before_side_effects, is_candidate_code, is_candidate_rejection, CreateAnswer, observed,
  no_observation, call_failed, candidate_envelope, assignment_for_candidate,
}
use fast_sandbox.FastPath.{
  CreateEnd, succeeded, retained, context_ended, advance_failed, refresh_failed, rolled_back,
  rollback_failed, no_candidate, is_definite, max_create_candidate_attempts, has_id, CreateTurn,
  CreateAttempt, CreateTrace, assigned, advanced, skip_tried, refreshed, finish_rejected,
  NextAttempts, after_rejection, after_call, attempt_with, attempt_first, provision,
  provision_runtime,
}
use fast_sandbox.FastPath.Budget.{provision-Within}

if-some :
    {A : Type 0}
    → (b : Bool) (x y : A) → (if b then some x else none) ≡ some y
    → (b ≡ true) × (x ≡ y)
if-some true x y e = (refl, cc e)
if-some false x y e = absurd (cc e)

first_of_three : (a b c : Bool) → (a && b && c) ≡ true → a ≡ true
first_of_three a b c h = ground arith

abbrev pub is_observed : CreateAnswer → Bool
is_observed observed = true
is_observed _ = false

module _ {Q : Type 0} (turns : ℕ → CreateTurn Q) (is_owner : Bool) where
  -- A definite rejection: the Fastlet says that it did nothing, for a reason that another may not have; or
  -- the request created the intent and no Fastlet was called.
  abbrev pub Rejected : CreateAnswer → Type 0
  Rejected observed = ⊥
  Rejected no_observation = ⊥
  Rejected (call_failed local_conflict) = is_owner ≡ true
  Rejected (call_failed other_error) = ⊥
  Rejected (call_failed (fastlet_error code disposition)) =
      (disposition ≡ rejected_before_side_effects) × (is_candidate_code code ≡ true)

  -- What the last call, if there was one, says of the end. Only after a definite rejection is there an end
  -- other than success or retention, and the intent is deleted only by the request that created it.
  abbrev pub Ends : Option CreateAnswer → CreateEnd → Type 0
  Ends none succeeded = ⊥
  Ends none retained = ⊥
  Ends none refresh_failed = ⊥
  Ends none rolled_back = ⊥
  Ends none rollback_failed = ⊥
  Ends none _ = Unit {0}
  Ends (some answer) succeeded = answer ≡ observed
  Ends (some answer) retained =
      ((is_owner ≡ false) × Rejected answer) ⊎ ((¬ Rejected answer) × (is_observed answer ≡ false))
  Ends (some answer) refresh_failed = Rejected answer
  Ends (some answer) rolled_back = (is_owner ≡ true) × Rejected answer
  Ends (some answer) rollback_failed = (is_owner ≡ true) × Rejected answer
  Ends (some answer) _ = Rejected answer

  -- Another Fastlet is called only after a definite rejection.
  abbrev pub Permits : Option CreateAnswer → Type 0
  Permits none = Unit {0}
  Permits (some answer) = Rejected answer

  -- The first call is under the given assignment; each other is under the next attempt and route
  -- generation of the same instance, for the Fastlet that is called.
  abbrev pub Succeeds : Option CreateAnswer → AssignmentEnvelope → CreateAttempt Q → Type 0
  Succeeds none a x = x.envelope ≡ a
  Succeeds (some _) a x =
      (x.envelope.attempt ≡ a.attempt +ℤ pos 1)
      × (x.envelope.route_generation ≡ a.route_generation +ℤ pos 1)
      × (x.envelope.instance_generation ≡ a.instance_generation)
      × (x.envelope.fastlet_name ≡ x.target.pod_name)
      × (x.envelope.fastlet_pod_uid ≡ x.target.pod_uid)
      × (valid_envelope x.envelope ≡ true)

  -- Calls of Fastlets that were not tried, after some that were, of which the last gave an answer.
  abbrev pub Orderly :
      List String → AssignmentEnvelope → Option CreateAnswer → CreateTrace Q → Type 0
  Orderly tried a last ([], end') = Ends last end'
  Orderly tried a last (x ∷ rest, end') =
      Permits last
      × (has_id x.target.id tried ≡ false)
      × Succeeds last a x
      × Orderly (x.target.id ∷ tried) x.envelope (some x.answer) (rest, end')

  abbrev is_none : Option CreateAnswer → Bool
  is_none none = true
  is_none (some _) = false

  abbrev Untried : List String → List (FastletInfo Q) → Type 0
  Untried tried [] = Unit {0}
  Untried tried (c ∷ rest) = has_id c.id tried ≡ false

  skip_tried-Untried :
      (tried : List String) (candidates : List (FastletInfo Q))
      → Untried tried (skip_tried turns is_owner tried candidates)
  unfolding skip_tried
  skip_tried-Untried tried [] = tt
  skip_tried-Untried tried (c ∷ rest) = elim (Bool-cases (has_id c.id tried)) [
    | inl e ↦ rw e (skip_tried-Untried tried rest)
    | inr e ↦ rw e e
  ]

  assignment_for_candidate-Succeeds :
      (answer' answer : CreateAnswer) (c : FastletInfo Q) (a b : AssignmentEnvelope) (id : String)
      → assignment_for_candidate c
          (a.attempt +ℤ pos 1)
          a.instance_generation
          (a.route_generation +ℤ pos 1)
          id
        ≡ some b
      → Succeeds (some answer') a (record { target = c; envelope = b; answer = answer })
  unfolding assignment_for_candidate
  assignment_for_candidate-Succeeds answer' answer c a b id e =
      let sent =
        candidate_envelope c (a.attempt +ℤ pos 1) a.instance_generation
          (a.route_generation +ℤ pos 1) id in
      let (valid, same) =
        if-some (valid_envelope sent && not (c.pod_ip == "") && not (c.infra_revision == "")) sent b
          e in
      (
        ap (λ x. x.attempt) (sym same),
        ap (λ x. x.route_generation) (sym same),
        ap (λ x. x.instance_generation) (sym same),
        ap (λ x. x.fastlet_name) (sym same),
        ap (λ x. x.fastlet_pod_uid) (sym same),
        ap valid_envelope (sym same)
            ∙ first_of_three (valid_envelope sent) (not (c.pod_ip == ""))
                (not (c.infra_revision == "")) valid,
      )

  advanced-Succeeds :
      (answer' : CreateAnswer) (t : CreateTurn Q) (c : FastletInfo Q) (a b : AssignmentEnvelope)
      (id : Option String)
      → advanced turns is_owner t c a id ≡ some b
      → Succeeds (some answer') a (record { target = c; envelope = b; answer = t.answer })
  advanced-Succeeds answer' t c a b none e = absurd (cc e)
  advanced-Succeeds answer' t c a b (some id) e = elim (Bool-cases t.is_swapped) [
    | inl s ↦ assignment_for_candidate-Succeeds answer' t.answer c a b id (rw s at e)
    | inr s ↦ absurd (cc (rw s at e))
  ]

  assigned-Succeeds :
      (last : Option CreateAnswer) (t : CreateTurn Q) (c : FastletInfo Q) (a b : AssignmentEnvelope)
      → assigned turns is_owner (is_none last) t c a ≡ some b
      → Succeeds last a (record { target = c; envelope = b; answer = t.answer })
  assigned-Succeeds none t c a b e = cc e
  assigned-Succeeds (some answer') t c a b e = advanced-Succeeds answer' t c a b t.runtime_id e

  is_before_side_effects_iff :
      (d : CreateDisposition)
      → (is_before_side_effects d ≡ true) ↔ (d ≡ rejected_before_side_effects)
  is_before_side_effects_iff d = ground arith

  is_definite-Rejected :
      (answer : CreateAnswer) → (is_definite is_owner answer ≡ true) ↔ Rejected answer
  unfolding is_definite is_candidate_rejection
  is_definite-Rejected observed = ground arith
  is_definite-Rejected no_observation = ground arith
  is_definite-Rejected (call_failed local_conflict) = ground arith
  is_definite-Rejected (call_failed other_error) = ground arith
  is_definite-Rejected (call_failed (fastlet_error code disposition)) =
      ground (arith, is_before_side_effects_iff disposition)

  finish_rejected-Ends :
      (answer : CreateAnswer) (t : CreateTurn Q)
      → Rejected answer
      → Ends (some answer) (finish_rejected turns is_owner t).1
  finish_rejected-Ends answer t h = elim (Bool-cases is_owner) [
    | inl e ↦ elim (Bool-cases t.is_deleted) [
      | inl d ↦ rw (e, d) (refl, rw e at h)
      | inr d ↦ rw (e, d) (refl, rw e at h)
    ]
    | inr e ↦ rw e (inl (refl, rw e at h))
  ]

  -- That the rest of the loop is orderly.
  abbrev Continues : (List String → NextAttempts turns is_owner) → Type 0
  Continues next =
      (tried : List String) (answer : CreateAnswer) (candidates : List (FastletInfo Q))
      (a : AssignmentEnvelope)
      → Rejected answer
      → Orderly tried a (some answer) (next tried candidates a)

  after_rejection-Orderly :
      (next : List String → NextAttempts turns is_owner) (budget : ℕ) (t : CreateTurn Q)
      (tried : List String) (a : AssignmentEnvelope) (answer : CreateAnswer)
      (candidates : Option (List (FastletInfo Q)))
      → Continues next
      → Rejected answer
      → Orderly tried a
          (some answer)
          (after_rejection turns is_owner (next tried) budget t a candidates)
  after_rejection-Orderly next budget t tried a answer none continues h = h
  after_rejection-Orderly next budget t tried a answer (some []) continues h =
      finish_rejected-Ends answer t h
  after_rejection-Orderly next budget t tried a answer (some (c ∷ rest)) continues h =
      elim (Bool-cases (ltb 0 budget)) [
        | inl e ↦ rw e (continues tried answer (c ∷ rest) a h)
        | inr e ↦ rw e (finish_rejected-Ends answer t h)
      ]

  after_call-Orderly :
      (next : List String → NextAttempts turns is_owner) (budget : ℕ) (t : CreateTurn Q)
      (tried : List String) (rest : List (FastletInfo Q)) (a : AssignmentEnvelope)
      (answer : CreateAnswer)
      → Continues next
      → Orderly tried a
          (some answer)
          (after_call turns is_owner (next tried) budget t rest a answer)
  unfolding is_definite
  after_call-Orderly next budget t tried rest a observed continues = refl
  after_call-Orderly next budget t tried rest a no_observation continues = inr ((λ r. r), refl)
  after_call-Orderly next budget t tried rest a (call_failed e) continues =
      elim (Bool-cases (is_definite is_owner (call_failed e))) [
        | inl h ↦ rw h (
            after_rejection-Orderly next budget t tried a (call_failed e)
              (refreshed turns is_owner budget t rest) continues
              ((is_definite-Rejected (call_failed e)).0 h))
        | inr h ↦
            rw h (inr ((λ r. absurd (cc (h, (is_definite-Rejected (call_failed e)).1 r))), refl))
      ]

  ended_early :
      (last : Option CreateAnswer)
      → Permits last
      → Ends last context_ended × Ends last advance_failed × Ends last no_candidate
  ended_early none p = (tt, tt, tt)
  ended_early (some answer) p = (p, p, p)

  attempt_with-Orderly :
      (next : List String → NextAttempts turns is_owner) (budget : ℕ) (t : CreateTurn Q)
      (tried : List String) (c : FastletInfo Q) (rest : List (FastletInfo Q))
      (last : Option CreateAnswer) (a : AssignmentEnvelope) (b : Option AssignmentEnvelope)
      → Continues next
      → Permits last
      → has_id c.id tried ≡ false
      → assigned turns is_owner (is_none last) t c a ≡ b
      → Orderly tried a last (attempt_with turns is_owner (next (c.id ∷ tried)) budget t c rest b)
  attempt_with-Orderly next budget t tried c rest last a none continues p fresh e =
      (ended_early last p).1
  attempt_with-Orderly next budget t tried c rest last a (some b) continues p fresh e = (
    p,
    fresh,
    assigned-Succeeds last t c a b e,
    after_call-Orderly next budget t (c.id ∷ tried) rest b t.answer continues,
  )

  if-Orderly :
      (tried : List String) (a : AssignmentEnvelope) (last : Option CreateAnswer) (b : Bool)
      (x y : CreateTrace Q)
      → Orderly tried a last x
      → Orderly tried a last y
      → Orderly tried a last (if b then x else y)
  if-Orderly tried a last true x y h k = h
  if-Orderly tried a last false x y h k = k

  attempt_first-Orderly :
      (next : List String → NextAttempts turns is_owner) (budget : ℕ) (tried : List String)
      (candidates : List (FastletInfo Q)) (last : Option CreateAnswer) (a : AssignmentEnvelope)
      → Continues next
      → Permits last
      → Untried tried candidates
      → Orderly tried a last
          (attempt_first turns is_owner next budget (is_none last) tried candidates a)
  attempt_first-Orderly next budget tried [] last a continues p fresh = (ended_early last p).2
  attempt_first-Orderly next budget tried (c ∷ rest) last a continues p fresh =
      let t = turns (length tried) in
      if-Orderly tried a last t.has_ended _ _ (ended_early last p).0 (
        attempt_with-Orderly next budget t tried c rest last a
          (assigned turns is_owner (is_none last) t c a) continues p fresh refl)

  provision-Orderly :
      (budget : ℕ) (tried : List String) (candidates : List (FastletInfo Q))
      (last : Option CreateAnswer) (a : AssignmentEnvelope)
      → Permits last
      → Orderly tried a last (provision turns is_owner budget (is_none last) tried candidates a)
  unfolding provision
  provision-Orderly zero tried candidates last a p = (ended_early last p).2
  provision-Orderly (suc budget) tried candidates last a p =
      attempt_first-Orderly (provision turns is_owner budget false) budget tried
        (skip_tried turns is_owner tried candidates) last a
        (λ tried' answer rest b h. provision-Orderly budget tried' rest (some answer) b h) p
        (skip_tried-Untried tried candidates)

  -- Whatever Kubernetes and the Fastlets answer, a create request calls at most 32 Fastlets, none twice.
  -- The first call is under the given assignment; each other is made only after the one before was
  -- rejected definitely, under an assignment to the Fastlet called with the next attempt and route
  -- generation. The intent is deleted, or its deletion tried, only by the request that created it and
  -- after such a rejection; after any other answer than that or success it is retained.
  pub provision_runtime-Orderly :
      (candidates : List (FastletInfo Q)) (a : AssignmentEnvelope)
      → let x = provision_runtime turns is_owner candidates a in
        (length x.0 ≤ 32) × Orderly [] a none x
  unfolding provision_runtime
  provision_runtime-Orderly candidates a = (
    provision-Within turns is_owner max_create_candidate_attempts true [] candidates a,
    provision-Orderly max_create_candidate_attempts [] candidates none a tt,
  )
