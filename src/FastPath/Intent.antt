-- ===== src/FastPath/Intent.antt =====
-- internal/controlplane/fastpath/server.go: the intent of a create request, which it stores or finds
-- stored, `acceptCreateIntent` and `loadExistingCreateIntent`, and `CreateSandbox` from the selection of
-- Fastlets on.
--
-- The answers of Kubernetes enter as values.
use fast_sandbox.Base.{
  ℕ, Bool, true, false, not, ◌&&◌, Option, none, some, List, [], ◌∷◌, String, Dict, lookup, ◌==◌,
  text_equality, if◌then◌else◌,
}
use fast_sandbox.Placement.Types.{FastletInfo}
use fast_sandbox.Placement.Reserve.{fastlet_id}
use fast_sandbox.Assignment.{
  AssignmentEnvelope, SandboxObject, Codec, Result, ok, failed, text_or_empty,
  assignment_from_annotation,
}
use fast_sandbox.FastPath.{CreateTurn, CreateTrace, provision_runtime}

-- The Sandbox as it is stored: its finalizer, and whether it is or is to be paused.
pub record StoredIntent : Type 0 where
  pub object : SandboxObject
  pub namespace : String
  pub is_paused : Bool
  pub has_finalizer : Bool

pub data IntentRead : Type 0 where
  absent unreadable : IntentRead
  stored : StoredIntent → IntentRead

-- What Kubernetes answers: to the creation, to the read, to the update with the finalizer, and to a first
-- assignment, the Sandbox after it, or none for an error.
pub record IntentAnswers : Type 0 where
  pub is_created : Bool
  pub read : IntentRead
  pub is_updated : Bool
  pub initialized : Option SandboxObject

-- The annotations of the planned Sandbox, and the Fastlets selected, with the first assignment.
pub record CreatePlan (Q : Type 0) : Type 0 where
  pub annotations : Dict String
  pub candidates : List (FastletInfo Q)
  pub assignment : AssignmentEnvelope

pub record AcceptedCreate (Q : Type 0) : Type 0 where
  pub candidates : List (FastletInfo Q)
  pub assignment : AssignmentEnvelope
  pub is_owner : Bool

-- An intent that is accepted, one that has no assignment yet, none that is found, or an error.
pub data IntentResult (Q : Type 0) : Type 0 where
  missing unassigned refused : IntentResult Q
  accepted : AcceptedCreate Q → IntentResult Q

abbrev pub same_annotation : String → Dict String → Dict String → Bool
same_annotation key a b = text_or_empty (lookup key a) == text_or_empty (lookup key b)

unfoldable pub same_request : Dict String → Dict String → Bool
same_request a b =
    same_annotation "sandbox.fast.io/request-id" a b
    && same_annotation "sandbox.fast.io/create-spec-hash" a b

abbrev pub is_empty : {A : Type 0} → List A → Bool
is_empty [] = true
is_empty (_ ∷ _) = false

module _ {Q : Type 0} (codec : Codec) (fastlets : Dict (FastletInfo Q)) where
  abbrev pub on_assigned : AssignmentEnvelope → Option (FastletInfo Q) → IntentResult Q
  on_assigned e none = refused
  on_assigned e (some c) =
      accepted (record { candidates = c ∷ []; assignment = e; is_owner = false })

  abbrev pub resume : String → AssignmentEnvelope → IntentResult Q
  resume namespace e = on_assigned e (lookup (fastlet_id namespace e.fastlet_name) fastlets)

  abbrev pub reread : String → Result (Option AssignmentEnvelope) → IntentResult Q
  reread namespace (failed _) = refused
  reread namespace (ok none) = unassigned
  reread namespace (ok (some e)) = resume namespace e

  abbrev pub initialize_intent : String → Option SandboxObject → IntentResult Q
  initialize_intent namespace none = refused
  initialize_intent namespace (some o) = reread namespace (assignment_from_annotation codec o)

  abbrev pub assigned_intent :
      Bool → String → Option SandboxObject → Result (Option AssignmentEnvelope) → IntentResult Q
  assigned_intent has_candidates namespace initialized (failed _) = refused
  assigned_intent has_candidates namespace initialized (ok (some e)) = resume namespace e
  assigned_intent has_candidates namespace initialized (ok none) =
      if has_candidates then initialize_intent namespace initialized else unassigned

  abbrev pub is_resumable : Dict String → Bool → StoredIntent → Bool
  is_resumable annotations is_updated s =
      same_request s.object.annotations annotations
      && not s.is_paused
      && not s.object.deleting
      && (if s.has_finalizer then true else is_updated)

  abbrev pub load_stored : Bool → CreatePlan Q → IntentAnswers → StoredIntent → IntentResult Q
  load_stored has_candidates plan t s =
      if is_resumable plan.annotations t.is_updated s
      then assigned_intent has_candidates s.namespace t.initialized
          (assignment_from_annotation codec s.object)
      else refused

  abbrev pub load_read : Bool → CreatePlan Q → IntentAnswers → IntentRead → IntentResult Q
  load_read has_candidates plan t absent = missing
  load_read has_candidates plan t unreadable = refused
  load_read has_candidates plan t (stored s) = load_stored has_candidates plan t s

  -- `loadExistingCreateIntent`
  unfoldable pub load_existing_create_intent : Bool → CreatePlan Q → IntentAnswers → IntentResult Q
  unfolding assignment_from_annotation same_request fastlet_id
  load_existing_create_intent has_candidates plan t = load_read has_candidates plan t t.read

  -- `acceptCreateIntent`
  unfoldable pub accept_create_intent : CreatePlan Q → IntentAnswers → IntentResult Q
  unfolding load_existing_create_intent
  accept_create_intent plan t =
      if t.is_created
      then accepted
          (record { candidates = plan.candidates; assignment = plan.assignment; is_owner = true })
      else load_existing_create_intent (not (is_empty plan.candidates)) plan t

  module _ (turns : ℕ → CreateTurn Q) where
    -- None is an error before any Fastlet is called.
    abbrev pub start_create : IntentResult Q → Option (CreateTrace Q)
    start_create missing = none
    start_create unassigned = none
    start_create refused = none
    start_create (accepted a) =
        if is_empty a.candidates
        then none
        else some (provision_runtime turns a.is_owner a.candidates a.assignment)

    -- `CreateSandbox` after the selection, which found Fastlets or no room.
    unfoldable pub create_sandbox : Bool → CreatePlan Q → IntentAnswers → Option (CreateTrace Q)
    unfolding accept_create_intent load_existing_create_intent provision_runtime
    create_sandbox has_room plan t =
        if has_room
        then start_create (accept_create_intent plan t)
        else start_create (load_existing_create_intent false plan t)
