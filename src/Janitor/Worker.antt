-- ===== src/Janitor/Worker.antt =====
-- internal/janitor/cleanup.go, and of scanner.go and controller.go `Scan` and `processNextItem`.
--
-- The work queue is client-go's; a `Limiter` is what it keeps of one item's failures.
use fast_sandbox.Base.{
  ◌≡◌, ◌⊎◌, inl, inr, refl, ℕ, ◌+◌, ◌≤◌, Bool, true, false, ◌||◌, Option, none, some, List, [], ◌∷◌,
  ◌++◌, All, length, String, ◌==◌, text_equality, if◌then◌else◌, ltb, ℤ, arith,
}
use fast_sandbox.Janitor.{ResourceIdentity, CleanupDecision, Authority, cleanup_decision}
use fast_sandbox.Janitor.Decision.{IsEligible, Orphan, cleanup_decision-Orphan}

pub data CleanupOutcome : Type 0 where
  authority_failed backend_unavailable backend_failed cleaned : CleanupOutcome
  skipped : String → CleanupOutcome

abbrev pub is_error : CleanupOutcome → Bool
is_error authority_failed = true
is_error backend_unavailable = true
is_error backend_failed = true
is_error cleaned = false
is_error (skipped reason) = false

-- Whether the backend was told to delete.
abbrev pub has_deleted : CleanupOutcome → Bool
has_deleted authority_failed = false
has_deleted backend_unavailable = false
has_deleted backend_failed = true
has_deleted cleaned = true
has_deleted (skipped reason) = false

unfoldable pub has_backend : String → List String → Bool
has_backend name [] = false
has_backend name (backend ∷ rest) = (backend == name) || has_backend name rest

-- What a cleanup meets: the authority, and whether the backend succeeds.
pub record Turn : Type 0 where
  pub authority : Authority
  pub succeeds : Bool

abbrev pub act_on : Bool → Bool → Option CleanupDecision → CleanupOutcome
act_on available succeeds none = authority_failed
act_on available succeeds (some d) =
    if d.is_eligible
    then if available then if succeeds then cleaned else backend_failed else backend_unavailable
    else skipped d.reason

unfoldable pub do_cleanup : ℤ → List String → ResourceIdentity → Turn → CleanupOutcome
do_cleanup timeout backends r turn =
    act_on (has_backend r.backend backends) turn.succeeds
      (cleanup_decision timeout turn.authority r)

abbrev pub enqueued : ResourceIdentity → Option CleanupDecision → List ResourceIdentity
enqueued r none = []
enqueued r (some d) = if d.is_eligible then r ∷ [] else []

-- What a scan enqueues of a backend's resources, each with the authority that its decision meets.
unfoldable pub scan_resources : ℤ → List (Authority × ResourceIdentity) → List ResourceIdentity
scan_resources timeout [] = []
scan_resources timeout ((a, r) ∷ rest) =
    enqueued r (cleanup_decision timeout a r) ++ scan_resources timeout rest

-- A backend that fails to list its resources is passed over.
unfoldable pub scan :
    ℤ → List (Option (List (Authority × ResourceIdentity))) → List ResourceIdentity
scan timeout [] = []
scan timeout (none ∷ rest) = scan timeout rest
scan timeout (some resources ∷ rest) = scan_resources timeout resources ++ scan timeout rest

pub record Limiter : Type 1 where
  pub Failures : Type 0
  pub num_requeues : Failures → ℕ
  pub add_rate_limited : Failures → Failures
  pub forget : Failures → Failures

-- What client-go documents: an addition counts one more requeue of the item, and Forget none.
pub record LimiterLaws (l : Limiter) : Type 0 where
  pub num_requeues-add_rate_limited :
      (f : l.Failures) → l.num_requeues (l.add_rate_limited f) ≡ l.num_requeues f + 1
  pub num_requeues-forget : (f : l.Failures) → l.num_requeues (l.forget f) ≡ 0

module _ (l : Limiter) (timeout : ℤ) (backends : List String) where
  open l use {Failures, num_requeues, add_rate_limited, forget}

  -- `true` if the item is in the queue again.
  abbrev pub after_cleanup : Bool → Failures → Bool × Failures
  after_cleanup true f =
      if ltb (num_requeues f) 3 then (true, add_rate_limited f) else (false, forget f)
  after_cleanup false f = (false, forget f)

  unfoldable pub process_next_item : ResourceIdentity → Turn → Failures → Bool × Failures
  process_next_item r turn f = after_cleanup (is_error (do_cleanup timeout backends r turn)) f

  -- The worker on one item for as long as it comes back: the turns that it took, whether the item is
  -- still in the queue, and what the queue keeps of it.
  unfoldable pub run_worker : ResourceIdentity → List Turn → Failures → List Turn × Bool × Failures
  run_worker r [] f = ([], true, f)
  run_worker r (turn ∷ rest) f =
      let step = process_next_item r turn f in
      let later = run_worker r rest step.1 in
      if step.0 then (turn ∷ later.0, later.1, later.2) else (turn ∷ [], false, step.1)

  -- A cleanup told the backend to delete only what was an orphan then.
  abbrev pub Justified : ResourceIdentity → Turn → Type 0
  Justified r turn =
      (has_deleted (do_cleanup timeout backends r turn) ≡ false) ⊎ Orphan timeout turn.authority r

  act_on-IsEligible :
      (available succeeds : Bool) (d : Option CleanupDecision)
      → (has_deleted (act_on available succeeds d) ≡ false) ⊎ IsEligible d
  act_on-IsEligible available succeeds none = inl refl
  act_on-IsEligible available succeeds (some d) = ground arith

  do_cleanup-Justified : (r : ResourceIdentity) (turn : Turn) → Justified r turn
  unfolding do_cleanup
  do_cleanup-Justified r turn =
      elim (act_on-IsEligible (has_backend r.backend backends) turn.succeeds
        (cleanup_decision timeout turn.authority r)) [
          | inl kept ↦ inl kept
          | inr e ↦ inr ((cleanup_decision-Orphan timeout turn.authority r).0 e)
        ]

  turns-Justified : (r : ResourceIdentity) (turns : List Turn) → All (Justified r) turns
  turns-Justified r [] = ground arith
  turns-Justified r (turn ∷ rest) = (do_cleanup-Justified r turn, turns-Justified r rest)

  module _ (laws : LimiterLaws l) where
    run_worker-ends :
        (r : ResourceIdentity) (turns : List Turn) (f : Failures)
        → num_requeues f ≤ 3
        → 4 ≤ num_requeues f + length turns
        → (num_requeues f + length (run_worker r turns f).0 ≤ 4)
          × ((run_worker r turns f).1 ≡ false)
          × (num_requeues (run_worker r turns f).2 ≡ 0)
    unfolding run_worker process_next_item
    run_worker-ends r [] f few enough = ground arith
    run_worker-ends r (turn ∷ rest) f few enough = ground (
      arith,
      laws.num_requeues-add_rate_limited f,
      laws.num_requeues-forget f,
      run_worker-ends r rest (add_rate_limited f),
    )

    -- With a queue that counts requeues as client-go documents, and while nothing adds the item again, the
    -- worker takes an item that it has not failed on at most four times, whatever Kubernetes and the
    -- backends answer: after that the item is out of the queue and its count is zero. In each of them it
    -- told the backend to delete only what was an orphan then: a resource that is old enough, whose Pod is
    -- not there any more or is being deleted, and that no Sandbox claims.
    pub run_worker-Justified :
        (r : ResourceIdentity) (turns : List Turn) (f : Failures)
        → num_requeues f ≡ 0
        → 4 ≤ length turns
        → (length (run_worker r turns f).0 ≤ 4)
          × ((run_worker r turns f).1 ≡ false)
          × (num_requeues (run_worker r turns f).2 ≡ 0)
          × All (Justified r) (run_worker r turns f).0
    run_worker-Justified r turns f fresh enough =
        let (few, out, zero) = run_worker-ends r turns f (omega arith) (omega arith) in
        (omega arith, out, zero, turns-Justified r (run_worker r turns f).0)
