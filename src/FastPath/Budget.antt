-- ===== src/FastPath/Budget.antt =====
-- How many Fastlets one create request calls.

use fast_sandbox.Base.{
  ℕ, zero, suc, ◌≤◌, Bool, true, false, Option, none, some, List, [], ◌∷◌, length, String,
  text_equality, if◌then◌else◌, ltb, arith,
}
use fast_sandbox.Placement.Types.{FastletInfo}
use fast_sandbox.Assignment.{AssignmentEnvelope}
use fast_sandbox.Orchestrator.{CreateAnswer, observed, no_observation, call_failed}
use fast_sandbox.FastPath.{
  is_definite, CreateTurn, CreateTrace, assigned, skip_tried, refreshed, finish_rejected,
  NextAttempts, after_rejection, after_call, attempt_with, attempt_first, provision,
}

module _ {Q : Type 0} (turns : ℕ → CreateTurn Q) (is_owner : Bool) where
  -- How many calls a rest of the loop may make.
  abbrev Within : ℕ → CreateTrace Q → Type 0
  Within n x = length x.0 ≤ n

  if-Within :
      (n : ℕ) (b : Bool) (x y : CreateTrace Q)
      → Within n x
      → Within n y
      → Within n (if b then x else y)
  if-Within n true x y h k = h
  if-Within n false x y h k = k

  abbrev NextWithin : ℕ → NextAttempts turns is_owner → Type 0
  NextWithin n next =
      (candidates : List (FastletInfo Q)) (a : AssignmentEnvelope) → Within n (next candidates a)

  finish_rejected-Within : (n : ℕ) (t : CreateTurn Q) → Within n (finish_rejected turns is_owner t)
  finish_rejected-Within n t = omega arith

  after_rejection-Within :
      (next : NextAttempts turns is_owner) (n : ℕ) (t : CreateTurn Q) (a : AssignmentEnvelope)
      (candidates : Option (List (FastletInfo Q)))
      → NextWithin n next
      → Within n (after_rejection turns is_owner next n t a candidates)
  after_rejection-Within next n t a none within = omega arith
  after_rejection-Within next n t a (some []) within = omega arith
  after_rejection-Within next n t a (some (c ∷ rest)) within =
      if-Within n (ltb 0 n) _ _ (within (c ∷ rest) a) (finish_rejected-Within n t)

  after_call-Within :
      (next : NextAttempts turns is_owner) (n : ℕ) (t : CreateTurn Q) (rest : List (FastletInfo Q))
      (a : AssignmentEnvelope) (answer : CreateAnswer)
      → NextWithin n next
      → Within n (after_call turns is_owner next n t rest a answer)
  after_call-Within next n t rest a observed within = omega arith
  after_call-Within next n t rest a no_observation within = omega arith
  after_call-Within next n t rest a (call_failed e) within =
      if-Within n (is_definite is_owner (call_failed e)) _ _
        (after_rejection-Within next n t a (refreshed turns is_owner n t rest) within) (omega arith)

  attempt_with-Within :
      (next : NextAttempts turns is_owner) (n : ℕ) (t : CreateTurn Q) (c : FastletInfo Q)
      (rest : List (FastletInfo Q)) (b : Option AssignmentEnvelope)
      → NextWithin n next
      → Within (suc n) (attempt_with turns is_owner next n t c rest b)
  attempt_with-Within next n t c rest none within = omega arith
  attempt_with-Within next n t c rest (some b) within =
      omega (arith, after_call-Within next n t rest b t.answer within)

  attempt_first-Within :
      (next : List String → NextAttempts turns is_owner) (n : ℕ) (is_first : Bool)
      (tried : List String) (candidates : List (FastletInfo Q)) (a : AssignmentEnvelope)
      → ((others : List String) → NextWithin n (next others))
      → Within (suc n) (attempt_first turns is_owner next n is_first tried candidates a)
  attempt_first-Within next n is_first tried [] a within = omega arith
  attempt_first-Within next n is_first tried (c ∷ rest) a within =
      let t = turns (length tried) in
      if-Within (suc n) t.has_ended _ _ (omega arith) (
        attempt_with-Within (next (c.id ∷ tried)) n t c rest
          (assigned turns is_owner is_first t c a) (within (c.id ∷ tried)))

  pub provision-Within :
      (n : ℕ) (is_first : Bool) (tried : List String) (candidates : List (FastletInfo Q))
      (a : AssignmentEnvelope)
      → Within n (provision turns is_owner n is_first tried candidates a)
  unfolding provision
  provision-Within zero is_first tried candidates a = omega arith
  provision-Within (suc n) is_first tried candidates a =
      attempt_first-Within (provision turns is_owner n false) n is_first tried
        (skip_tried turns is_owner tried candidates) a
        (λ others rest b. provision-Within n false others rest b)
