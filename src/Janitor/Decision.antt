-- ===== src/Janitor/Decision.antt =====
-- What the janitor's decision means: a resource is eligible exactly when nothing of the control plane owns it.
use fast_sandbox.Base.{
  ◌≡◌, ◌≢◌, ◌↔◌, ◌⊎◌, ◌+◌, ◌≤◌, Bool, true, false, ◌&&◌, ◌||◌, Option, none, some, List, [], ◌∷◌,
  All, nat_equality, text_equality, eq_iff, ℤ, pos, ltb_ℤ, arith, eq_of_parts,
}
use fast_sandbox.Janitor.{
  ResourceIdentity, Pod, Sandbox, Answer, found, not_found, api_error, Authority, is_live_pod,
  any_live_pod, pod_answer, pod_listed, names_pod, exact_fastlet_pod_exists, find_sandbox,
  current_generation, decide_assigned, decide_sandbox, decide_pod, cleanup_decision, orphan_timeout,
  CleanupDecision,
}

abbrev pub IsEligible : Option CleanupDecision → Type 0
IsEligible none = ⊥
IsEligible (some d) = d.is_eligible ≡ true

-- No Pod that is listed has the resource's Pod UID and is not being deleted.
abbrev pub NotAmong : ResourceIdentity → Option (List Pod) → Type 0
NotAmong r none = ⊥
NotAmong r (some pods) = All (λ p. is_live_pod r p ≡ false) pods

abbrev pub NotFound : ResourceIdentity → Answer Pod → Type 0
NotFound r (found p) = is_live_pod r p ≡ false
NotFound r not_found = Unit
NotFound r api_error = ⊥

-- The API says that the Pod which made the resource is not there, is another one, or is being deleted; an
-- error says nothing.
abbrev pub PodNotLive : Authority → ResourceIdentity → Type 0
PodNotLive a r =
    (a.has_pod_client ≡ true)
    × (((names_pod r ≡ true) × NotFound r (a.get_pod r.fastlet_pod_namespace r.fastlet_pod_name))
        ⊎ ((names_pod r ≡ false) × NotAmong r a.list_pods))

-- A Sandbox does not claim the resource: it is another one, is assigned to no Pod or another Pod, has
-- moved on from the resource's generation or attempt, or is at both and lost.
abbrev pub Unclaimed : ResourceIdentity → Sandbox → Type 0
Unclaimed r s =
    (s.uid ≢ r.sandbox_uid)
    ⊎ (s.placement.fastlet_name ≡ "")
    ⊎ (s.placement.fastlet_pod_uid ≢ r.fastlet_pod_uid)
    ⊎ ((ltb_ℤ (pos 0) r.instance_generation ≡ true)
        × (ltb_ℤ (pos 0) r.assignment_attempt ≡ true)
        × (((ltb_ℤ r.instance_generation (current_generation s)
                || ltb_ℤ r.assignment_attempt s.placement.attempt)
              ≡ true)
            ⊎ ((current_generation s ≡ r.instance_generation)
                × (s.placement.attempt ≡ r.assignment_attempt)
                × ((s.is_unavailable && s.has_recovery) ≡ true))))

abbrev pub NoSandbox : ResourceIdentity → Option (Option Sandbox) → Type 0
NoSandbox r none = ⊥
NoSandbox r (some none) = Unit
NoSandbox r (some (some s)) = Unclaimed r s

-- A resource that says what it is, is old enough, whose Pod is not live, and that no Sandbox claims.
abbrev pub Orphan : ℤ → Authority → ResourceIdentity → Type 0
Orphan timeout a r =
    (r.backend ≢ "")
    × (r.resource_id ≢ "")
    × (r.fastlet_pod_uid ≢ "")
    × (r.created_at ≢ 0)
    × (r.created_at + orphan_timeout timeout ≤ a.now)
    × PodNotLive a r
    × ((r.sandbox_uid ≡ "") ⊎ NoSandbox r (find_sandbox a r))

any_live_pod-NotAmong :
    (r : ResourceIdentity) (pods : List Pod)
    → (any_live_pod r pods ≡ false) ↔ All (λ p. is_live_pod r p ≡ false) pods
unfolding any_live_pod
any_live_pod-NotAmong r [] = ground arith
any_live_pod-NotAmong r (p ∷ rest) = ground (arith, any_live_pod-NotAmong r rest)

pod_answer-NotFound :
    (r : ResourceIdentity) (answer : Answer Pod)
    → (pod_answer r answer ≡ some false) ↔ NotFound r answer
pod_answer-NotFound r (found p) = ground arith
pod_answer-NotFound r not_found = ground arith
pod_answer-NotFound r api_error = ground arith

pod_listed-NotAmong :
    (r : ResourceIdentity) (answer : Option (List Pod))
    → (pod_listed r answer ≡ some false) ↔ NotAmong r answer
pod_listed-NotAmong r none = ground arith
pod_listed-NotAmong r (some pods) = ground (arith, any_live_pod-NotAmong r pods)

exact_fastlet_pod_exists-PodNotLive :
    (a : Authority) (r : ResourceIdentity)
    → (exact_fastlet_pod_exists a r ≡ some false) ↔ PodNotLive a r
unfolding exact_fastlet_pod_exists
exact_fastlet_pod_exists-PodNotLive a r = ground (
  arith,
  pod_answer-NotFound r (a.get_pod r.fastlet_pod_namespace r.fastlet_pod_name),
  pod_listed-NotAmong r a.list_pods,
)

same_ℤ : (a b : ℤ) → ltb_ℤ a b ≡ false → ltb_ℤ b a ≡ false → a ≡ b
same_ℤ a b h k = ground (arith, eq_of_parts a b)

decide_assigned-Unclaimed :
    (r : ResourceIdentity) (s : Sandbox)
    → s.uid ≡ r.sandbox_uid
    → IsEligible (decide_assigned r s) ↔ Unclaimed r s
decide_assigned-Unclaimed r s same = ground (
  arith,
  eq_iff s.placement.fastlet_name "",
  eq_iff s.placement.fastlet_pod_uid r.fastlet_pod_uid,
  same_ℤ (current_generation s) r.instance_generation,
  same_ℤ s.placement.attempt r.assignment_attempt,
)

decide_sandbox-NoSandbox :
    (r : ResourceIdentity) (answer : Option (Option Sandbox))
    → IsEligible (decide_sandbox r answer) ↔ NoSandbox r answer
decide_sandbox-NoSandbox r none = ground arith
decide_sandbox-NoSandbox r (some none) = ground arith
decide_sandbox-NoSandbox r (some (some s)) =
    ground (arith, eq_iff s.uid r.sandbox_uid, decide_assigned-Unclaimed r s)

decide_pod-NoSandbox :
    (r : ResourceIdentity) (gone : Option Bool) (answer : Option (Option Sandbox))
    → IsEligible (decide_pod r gone answer)
      ↔ ((gone ≡ some false) × ((r.sandbox_uid ≡ "") ⊎ NoSandbox r answer))
decide_pod-NoSandbox r none answer = ground arith
decide_pod-NoSandbox r (some true) answer = ground arith
decide_pod-NoSandbox r (some false) answer =
    ground (arith, eq_iff r.sandbox_uid "", decide_sandbox-NoSandbox r answer)

-- The janitor's decision on a resource is that it may be deleted exactly when the resource is an orphan:
-- it says what it is, is old enough, its Pod is not there any more or is being deleted, and no Sandbox
-- claims it.
pub cleanup_decision-Orphan :
    (timeout : ℤ) (a : Authority) (r : ResourceIdentity)
    → IsEligible (cleanup_decision timeout a r) ↔ Orphan timeout a r
unfolding cleanup_decision
cleanup_decision-Orphan timeout a r = ground (
  arith,
  eq_iff r.backend "",
  eq_iff r.resource_id "",
  eq_iff r.fastlet_pod_uid "",
  exact_fastlet_pod_exists-PodNotLive a r,
  decide_pod-NoSandbox r (exact_fastlet_pod_exists a r) (find_sandbox a r),
)
