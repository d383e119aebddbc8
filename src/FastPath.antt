-- ===== src/FastPath.antt =====
-- internal/controlplane/fastpath/server.go: `provisionRuntime`, which asks one Fastlet after the other to
-- create the Sandbox of a request.
--
-- The answers of Kubernetes and of the Fastlets enter by the number of Fastlets tried before.
pub mod Intent
pub mod Replay
pub mod Budget
pub mod Attempts
use fast_sandbox.Base.{
  ◌≡◌, ℕ, zero, suc, Bool, true, false, not, ◌&&◌, ◌||◌, Option, none, some, List, [], ◌∷◌, length,
  take, keep_if, String, ◌==◌, text_equality, if◌then◌else◌, ltb, ℤ, pos, ◌+ℤ◌,
}
use fast_sandbox.Placement.Types.{FastletInfo}
use fast_sandbox.Assignment.{AssignmentEnvelope}
use fast_sandbox.Orchestrator.{
  CreateAnswer, observed, no_observation, call_failed, is_candidate_rejection, is_local_conflict,
  assignment_for_candidate,
}

-- How the loop ends. `retained` leaves the intent to the controller; `rolled_back` has deleted it.
pub data CreateEnd : Type 0 where
  succeeded retained context_ended advance_failed refresh_failed rolled_back rollback_failed
        no_candidate :
      CreateEnd

-- Whether a failed call permits another Fastlet; `is_owner` is that this request created the intent.
unfoldable pub is_definite : Bool → CreateAnswer → Bool
unfolding is_candidate_rejection
is_definite is_owner observed = false
is_definite is_owner no_observation = false
is_definite is_owner (call_failed e) = is_candidate_rejection e || is_owner && is_local_conflict e

abbrev pub max_create_candidate_attempts : ℕ
max_create_candidate_attempts = 32

unfoldable pub has_id : String → List String → Bool
has_id id [] = false
has_id id (other ∷ rest) = other == id || has_id id rest

module _ {Q : Type 0} where
  -- `compatibleCandidates`
  unfoldable pub compatible_candidates : List (FastletInfo Q) → String → List (FastletInfo Q)
  compatible_candidates candidates revision =
      if revision == ""
      then candidates
      else keep_if (λ c. c.fastlet_revision == revision) candidates

-- What the loop meets at one Fastlet: whether the context has ended, the new runtime id, whether
-- `casCreateAssignment` succeeds, the answer to the call, the candidates that `refreshCreateCandidates`
-- finds, none for an error, and whether the deletion of the intent succeeds.
pub record CreateTurn (Q : Type 0) : Type 0 where
  pub has_ended : Bool
  pub runtime_id : Option String
  pub is_swapped : Bool
  pub answer : CreateAnswer
  pub more : Option (List (FastletInfo Q))
  pub is_deleted : Bool

-- A call of a Fastlet. The assignment of all but the first was written just before.
pub record CreateAttempt (Q : Type 0) : Type 0 where
  pub target : FastletInfo Q
  pub envelope : AssignmentEnvelope
  pub answer : CreateAnswer

abbrev pub CreateTrace : Type 0 → Type 0
CreateTrace Q = List (CreateAttempt Q) × CreateEnd

module _ {Q : Type 0} (turns : ℕ → CreateTurn Q) (is_owner : Bool) where
  -- `advanceCreateAssignment`, none for an error.
  abbrev pub advanced :
      CreateTurn Q → FastletInfo Q → AssignmentEnvelope → Option String → Option AssignmentEnvelope
  advanced t c a none = none
  advanced t c a (some id) =
      if t.is_swapped
      then assignment_for_candidate c (a.attempt +ℤ pos 1) a.instance_generation
          (a.route_generation +ℤ pos 1) id
      else none

  abbrev pub assigned :
      Bool → CreateTurn Q → FastletInfo Q → AssignmentEnvelope → Option AssignmentEnvelope
  assigned true t c a = some a
  assigned false t c a = advanced t c a t.runtime_id

  -- The candidates from the first on that was not tried.
  unfoldable pub skip_tried : List String → List (FastletInfo Q) → List (FastletInfo Q)
  unfolding has_id
  skip_tried tried [] = []
  skip_tried tried (c ∷ rest) =
      let later = skip_tried tried rest in if has_id c.id tried then later else c ∷ rest

  abbrev pub within_budget : ℕ → Option (List (FastletInfo Q)) → Option (List (FastletInfo Q))
  within_budget budget none = none
  within_budget budget (some more) = some (take budget more)

  -- The candidates after a definite rejection, none for an error.
  abbrev pub refreshed : ℕ → CreateTurn Q → List (FastletInfo Q) → Option (List (FastletInfo Q))
  refreshed budget t [] = if is_owner && ltb 0 budget then within_budget budget t.more else some []
  refreshed budget t (c ∷ rest) = some (c ∷ rest)

  -- `finishRejectedCreate`
  abbrev pub finish_rejected : CreateTurn Q → CreateTrace Q
  finish_rejected t =
      ([], if not is_owner then retained else if t.is_deleted then rolled_back else rollback_failed)

  abbrev pub NextAttempts : Type 0
  NextAttempts = List (FastletInfo Q) → AssignmentEnvelope → CreateTrace Q

  abbrev pub after_rejection :
      NextAttempts
      → ℕ
      → CreateTurn Q
      → AssignmentEnvelope
      → Option (List (FastletInfo Q))
      → CreateTrace Q
  after_rejection next budget t a none = ([], refresh_failed)
  after_rejection next budget t a (some []) = finish_rejected t
  after_rejection next budget t a (some (c ∷ rest)) =
      if ltb 0 budget then next (c ∷ rest) a else finish_rejected t

  abbrev pub after_call :
      NextAttempts
      → ℕ
      → CreateTurn Q
      → List (FastletInfo Q)
      → AssignmentEnvelope
      → CreateAnswer
      → CreateTrace Q
  after_call next budget t rest a observed = ([], succeeded)
  after_call next budget t rest a no_observation = ([], retained)
  after_call next budget t rest a (call_failed e) =
      if is_definite is_owner (call_failed e)
      then after_rejection next budget t a (refreshed budget t rest)
      else ([], retained)

  abbrev pub before_call : CreateAttempt Q → CreateTrace Q → CreateTrace Q
  before_call x (attempts, end') = (x ∷ attempts, end')

  abbrev pub attempt_with :
      NextAttempts
      → ℕ
      → CreateTurn Q
      → FastletInfo Q
      → List (FastletInfo Q)
      → Option AssignmentEnvelope
      → CreateTrace Q
  attempt_with next budget t c rest none = ([], advance_failed)
  attempt_with next budget t c rest (some a) =
      before_call (record { target = c; envelope = a; answer = t.answer })
        (after_call next budget t rest a t.answer)

  abbrev pub attempt_first :
      (List String → NextAttempts)
      → ℕ
      → Bool
      → List String
      → List (FastletInfo Q)
      → AssignmentEnvelope
      → CreateTrace Q
  attempt_first next budget is_first tried [] a = ([], no_candidate)
  attempt_first next budget is_first tried (c ∷ rest) a =
      let t = turns (length tried) in
      if t.has_ended
      then ([], context_ended)
      else attempt_with (next (c.id ∷ tried)) budget t c rest (assigned is_first t c a)

  -- The loop; `is_first` is that the index is 0, the number how many Fastlets may still be tried.
  unfoldable pub provision :
      ℕ → Bool → List String → List (FastletInfo Q) → AssignmentEnvelope → CreateTrace Q
  unfolding is_definite assignment_for_candidate skip_tried
  provision zero is_first tried candidates a = ([], no_candidate)
  provision (suc budget) is_first tried candidates a =
      attempt_first (provision budget false) budget is_first tried (skip_tried tried candidates) a

  unfoldable pub provision_runtime : List (FastletInfo Q) → AssignmentEnvelope → CreateTrace Q
  unfolding provision
  provision_runtime candidates a = provision max_create_candidate_attempts true [] candidates a
