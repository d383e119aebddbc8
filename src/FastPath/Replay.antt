-- ===== src/FastPath/Replay.antt =====
-- What a repeated create request does.
use fast_sandbox.Base.{
  ◌≡◌, refl, ap, ◌∙◌, ◌⊎◌, inl, inr, ℕ, Bool, true, false, not, Option, none, some, [], ◌∷◌, Dict,
  lookup, if◌then◌else◌, arith, Bool-cases,
}
use fast_sandbox.Placement.Types.{FastletInfo}
use fast_sandbox.Placement.Reserve.{fastlet_id}
use fast_sandbox.Assignment.{
  AssignmentEnvelope, SandboxObject, Codec, Result, ok, failed, assignment_from_annotation,
}
use fast_sandbox.Orchestrator.{CreateAnswer, observed, no_observation, call_failed}
use fast_sandbox.FastPath.{
  CreateEnd, rolled_back, rollback_failed, is_definite, has_id, CreateTurn, CreateTrace, skip_tried,
  NextAttempts, after_call, provision, provision_runtime,
}
use fast_sandbox.FastPath.Intent.{
  StoredIntent, IntentRead, absent, unreadable, stored, IntentAnswers, CreatePlan, AcceptedCreate,
  IntentResult, missing, unassigned, refused, accepted, same_request, is_empty, on_assigned, reread,
  initialize_intent, assigned_intent, is_resumable, load_read, load_existing_create_intent,
  accept_create_intent, start_create, create_sandbox,
}

abbrev pub KeepsIntent : CreateEnd → Type 0
KeepsIntent rolled_back = ⊥
KeepsIntent rollback_failed = ⊥
KeepsIntent _ = Unit {0}

module _ {Q : Type 0} (turns : ℕ → CreateTurn Q) where
  -- At most one call, of the Fastlet under the assignment, and the intent is not deleted.
  abbrev pub OneCall : FastletInfo Q → AssignmentEnvelope → CreateTrace Q → Type 0
  OneCall c e x =
      ((x.0 ≡ [])
        ⊎ ((answer : CreateAnswer) × (x.0
              ≡ record { target = c; envelope = e; answer = answer } ∷ [])))
      × KeepsIntent x.1

  after_call-alone :
      (next : NextAttempts turns false) (n : ℕ) (t : CreateTurn Q) (e : AssignmentEnvelope)
      (answer : CreateAnswer)
      → ((after_call turns false next n t [] e answer).0 ≡ [])
        × KeepsIntent (after_call turns false next n t [] e answer).1
  after_call-alone next n t e observed = (refl, tt)
  after_call-alone next n t e no_observation = (refl, tt)
  after_call-alone next n t e (call_failed error) =
      elim (Bool-cases (is_definite false (call_failed error))) [
        | inl h ↦ rw h (refl, tt)
        | inr h ↦ rw h (refl, tt)
      ]

  if-OneCall :
      (c : FastletInfo Q) (e : AssignmentEnvelope) (b : Bool) (x y : CreateTrace Q)
      → OneCall c e x
      → OneCall c e y
      → OneCall c e (if b then x else y)
  if-OneCall c e true x y h k = h
  if-OneCall c e false x y h k = k

  provision_runtime-OneCall :
      (c : FastletInfo Q) (e : AssignmentEnvelope)
      → OneCall c e (provision_runtime turns false (c ∷ []) e)
  unfolding provision_runtime provision skip_tried has_id
  provision_runtime-OneCall c e =
      let t = turns 0 in
      let (alone, kept) =
        after_call-alone (provision turns false 31 false (c.id ∷ [])) 31 t e t.answer in
      if-OneCall c e t.has_ended _ _ (inl refl, tt)
        (
          inr (
            t.answer,
            ap (λ rest. record { target = c; envelope = e; answer = t.answer } ∷ rest) alone,
          ),
          kept,
        )

  module _ (codec : Codec) (fastlets : Dict (FastletInfo Q)) (plan : CreatePlan Q)
      (t : IntentAnswers) where
    -- A stored intent of the same request, that is not paused and not deleted, with its finalizer.
    abbrev pub Resumable : StoredIntent → Type 0
    Resumable s =
        (same_request s.object.annotations plan.annotations ≡ true)
        × (s.is_paused ≡ false)
        × (s.object.deleting ≡ false)
        × ((s.has_finalizer ≡ true) ⊎ (t.is_updated ≡ true))

    -- Its assignment, by its annotation, or by that which a first assignment left.
    abbrev pub AssignedAs : StoredIntent → AssignmentEnvelope → Type 0
    AssignedAs s e =
        (assignment_from_annotation codec s.object ≡ ok (some e))
        ⊎ ((o : SandboxObject) × (t.initialized ≡ some o)
            × (assignment_from_annotation codec o ≡ ok (some e)))

    abbrev Resumes : StoredIntent → IntentResult Q → Type 0
    Resumes s (accepted a) =
        (e : AssignmentEnvelope) × (c : FastletInfo Q) × (AssignedAs s e)
        × (lookup (fastlet_id s.namespace e.fastlet_name) fastlets ≡ some c)
        × (a ≡ record { candidates = c ∷ []; assignment = e; is_owner = false })
    Resumes s _ = Unit {0}

    on_assigned-Resumes :
        (s : StoredIntent) (e : AssignmentEnvelope) (found : Option (FastletInfo Q))
        → AssignedAs s e
        → lookup (fastlet_id s.namespace e.fastlet_name) fastlets ≡ found
        → Resumes s (on_assigned codec fastlets e found)
    on_assigned-Resumes s e none assigned same = tt
    on_assigned-Resumes s e (some c) assigned same = (e, c, assigned, same, refl)

    reread-Resumes :
        (s : StoredIntent) (o : SandboxObject) (r : Result (Option AssignmentEnvelope))
        → t.initialized ≡ some o
        → assignment_from_annotation codec o ≡ r
        → Resumes s (reread codec fastlets s.namespace r)
    reread-Resumes s o (failed error) i same = tt
    reread-Resumes s o (ok none) i same = tt
    reread-Resumes s o (ok (some e)) i same =
        on_assigned-Resumes s e (lookup (fastlet_id s.namespace e.fastlet_name) fastlets)
          (inr (o, i, same)) refl

    initialize_intent-Resumes :
        (s : StoredIntent) (o : Option SandboxObject)
        → t.initialized ≡ o
        → Resumes s (initialize_intent codec fastlets s.namespace o)
    initialize_intent-Resumes s none i = tt
    initialize_intent-Resumes s (some o) i =
        reread-Resumes s o (assignment_from_annotation codec o) i refl

    if-Resumes :
        (s : StoredIntent) (b : Bool) (x y : IntentResult Q)
        → (b ≡ true → Resumes s x)
        → Resumes s y
        → Resumes s (if b then x else y)
    if-Resumes s true x y h k = h refl
    if-Resumes s false x y h k = k

    assigned_intent-Resumes :
        (has_candidates : Bool) (s : StoredIntent) (r : Result (Option AssignmentEnvelope))
        → assignment_from_annotation codec s.object ≡ r
        → Resumes s (assigned_intent codec fastlets has_candidates s.namespace t.initialized r)
    assigned_intent-Resumes has_candidates s (failed error) same = tt
    assigned_intent-Resumes has_candidates s (ok (some e)) same =
        on_assigned-Resumes s e (lookup (fastlet_id s.namespace e.fastlet_name) fastlets) (inl same)
          refl
    assigned_intent-Resumes has_candidates s (ok none) same =
        if-Resumes s has_candidates _ _ (λ h. initialize_intent-Resumes s t.initialized refl) tt

    is_resumable-Resumable :
        (s : StoredIntent)
        → is_resumable codec fastlets plan.annotations t.is_updated s ≡ true
        → Resumable s
    is_resumable-Resumable s h = (ground arith, ground arith, ground arith, ground arith)

    -- What an accepted intent is.
    abbrev Found : IntentResult Q → Type 0
    Found (accepted a) =
        ((t.is_created ≡ true)
          × (a ≡ record {
            candidates = plan.candidates;
            assignment = plan.assignment;
            is_owner = true;
          }))
        ⊎ ((s : StoredIntent) × (t.read ≡ stored s) × Resumable s × Resumes s (accepted a))
    Found _ = Unit {0}

    Resumes-Found :
        (s : StoredIntent) (x : IntentResult Q)
        → t.read ≡ stored s
        → Resumable s
        → Resumes s x
        → Found x
    Resumes-Found s missing e r h = tt
    Resumes-Found s unassigned e r h = tt
    Resumes-Found s refused e r h = tt
    Resumes-Found s (accepted a) e r h = inr (s, e, r, h)

    load_read-Found :
        (has_candidates : Bool) (read : IntentRead)
        → t.read ≡ read
        → Found (load_read codec fastlets has_candidates plan t read)
    load_read-Found has_candidates absent e = tt
    load_read-Found has_candidates unreadable e = tt
    load_read-Found has_candidates (stored s) e =
        elim (Bool-cases (is_resumable codec fastlets plan.annotations t.is_updated s)) [
          | inl h ↦ rw h (
              Resumes-Found s
                (assigned_intent codec fastlets has_candidates s.namespace t.initialized
                  (assignment_from_annotation codec s.object))
                e (is_resumable-Resumable s h)
                (assigned_intent-Resumes has_candidates s
                  (assignment_from_annotation codec s.object) refl))
          | inr h ↦ rw h tt
        ]

    load_existing-Found :
        (has_candidates : Bool)
        → Found (load_existing_create_intent codec fastlets has_candidates plan t)
    unfolding load_existing_create_intent
    load_existing-Found has_candidates = load_read-Found has_candidates t.read refl

    if-Found :
        (b : Bool) (x y : IntentResult Q)
        → (b ≡ true → Found x)
        → Found y
        → Found (if b then x else y)
    if-Found true x y h k = h refl
    if-Found false x y h k = k

    accept_create_intent-Found : Found (accept_create_intent codec fastlets plan t)
    unfolding accept_create_intent load_existing_create_intent
    accept_create_intent-Found =
        if-Found t.is_created _ _ (λ e. inl (e, refl))
          (load_read-Found (not (is_empty plan.candidates)) t.read refl)

    -- The calls of a request that stored its intent, or that found one.
    abbrev pub Served : CreateTrace Q → Type 0
    Served x =
        ((t.is_created ≡ true) × (x ≡ provision_runtime turns true plan.candidates plan.assignment))
        ⊎ ((s : StoredIntent) × (e : AssignmentEnvelope) × (c : FastletInfo Q) × (t.read ≡ stored s)
            × Resumable s
            × AssignedAs s e
            × (lookup (fastlet_id s.namespace e.fastlet_name) fastlets ≡ some c)
            × OneCall c e x)

    some_unless : (b : Bool) (x y : CreateTrace Q) → (if b then none else some y) ≡ some x → x ≡ y
    some_unless true x y e = absurd (cc e)
    some_unless false x y e = cc e

    provided : AcceptedCreate Q → CreateTrace Q
    provided a = provision_runtime turns a.is_owner a.candidates a.assignment

    start_create-Served :
        (r : IntentResult Q) (x : CreateTrace Q)
        → Found r
        → start_create codec fastlets turns r ≡ some x
        → Served x
    unfolding provided
    start_create-Served missing x h e = absurd (cc e)
    start_create-Served unassigned x h e = absurd (cc e)
    start_create-Served refused x h e = absurd (cc e)
    start_create-Served (accepted a) x h e =
        let run : x ≡ provided a = some_unless (is_empty a.candidates) x (provided a) e in
        elim h [
          | inl (made, same) ↦ inl (made, run ∙ ap provided same)
          | inr (s, read, ready, (envelope, c, assigned, found, same)) ↦ inr (
            s,
            envelope,
            c,
            read,
            ready,
            assigned,
            found,
            rw (run ∙ ap provided same) (provision_runtime-OneCall c envelope),
          )
        ]

    -- A create request calls Fastlets only for an intent that it has stored itself, then as the loop over
    -- those that it selected; or for one that it found stored, of the same request, not paused, not being
    -- deleted, and with its finalizer or given it: then at most one, which the stored assignment names, or
    -- that of a first assignment, under that assignment, and it does not delete the intent.
    pub create_sandbox-Served :
        (has_room : Bool) (x : CreateTrace Q)
        → create_sandbox codec fastlets turns has_room plan t ≡ some x
        → Served x
    unfolding create_sandbox
    create_sandbox-Served true x e =
        start_create-Served (accept_create_intent codec fastlets plan t) x
          accept_create_intent-Found e
    create_sandbox-Served false x e =
        start_create-Served (load_existing_create_intent codec fastlets false plan t) x
          (load_existing-Found false) e
