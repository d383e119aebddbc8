-- ===== src/Janitor.antt =====
-- internal/janitor/scanner.go, cleanup.go and controller.go: what the janitor of a node takes for an orphan,
-- and how its worker deletes one.
--
-- An `Authority` is what Kubernetes answers at one time. A clock's zero time is 0.
pub mod Decision
pub mod Worker
use fast_sandbox.Base.{
  ℕ, ◌+◌, Bool, true, false, not, ◌&&◌, ◌||◌, Option, none, some, List, [], ◌∷◌, String, ◌==◌,
  nat_equality, text_equality, if◌then◌else◌, ltb, ℤ, pos, negsuc, ltb_ℤ, leb_ℤ,
}
use fast_sandbox.Assignment.{PlacementStatus}

pub record ResourceIdentity : Type 0 where
  pub backend : String
  pub resource_id : String
  pub fastlet_pod_uid : String
  pub fastlet_pod_name : String
  pub fastlet_pod_namespace : String
  pub sandbox_uid : String
  pub sandbox_name : String
  pub sandbox_namespace : String
  pub instance_generation : ℤ
  pub assignment_attempt : ℤ
  pub created_at : ℕ

pub record CleanupDecision : Type 0 where
  pub is_eligible : Bool
  pub reason : String

-- Of a Pod and of a Sandbox what the janitor reads.
pub record Pod : Type 0 where
  pub pod_uid : String
  pub is_deleting : Bool

pub record Sandbox : Type 0 where
  pub uid : String
  pub placement : PlacementStatus
  pub generation : ℤ
  pub is_unavailable : Bool
  pub has_recovery : Bool

pub data Answer (A : Type 0) : Type 0 where
  found : A → Answer A
  not_found api_error : Answer A

pub record Authority : Type 0 where
  pub now : ℕ
  pub has_pod_client : Bool
  pub get_pod : String → String → Answer Pod
  pub list_pods : Option (List Pod)
  pub has_sandbox_client : Bool
  pub get_sandbox : String → String → Answer Sandbox
  pub list_sandboxes : Option (List Sandbox)

-- 30 seconds, in nanoseconds.
abbrev pub default_orphan_timeout : ℕ
default_orphan_timeout = 30000000000

unfoldable pub orphan_timeout : ℤ → ℕ
orphan_timeout (pos n) = if ltb 0 n then n else default_orphan_timeout
orphan_timeout (negsuc n) = default_orphan_timeout

abbrev pub is_live_pod : ResourceIdentity → Pod → Bool
is_live_pod r p = (p.pod_uid == r.fastlet_pod_uid) && not p.is_deleting

unfoldable pub any_live_pod : ResourceIdentity → List Pod → Bool
any_live_pod r [] = false
any_live_pod r (p ∷ rest) = is_live_pod r p || any_live_pod r rest

abbrev pub pod_answer : ResourceIdentity → Answer Pod → Option Bool
pod_answer r (found p) = some (is_live_pod r p)
pod_answer r not_found = some false
pod_answer r api_error = none

abbrev pub pod_listed : ResourceIdentity → Option (List Pod) → Option Bool
pod_listed r none = none
pod_listed r (some pods) = some (any_live_pod r pods)

-- Whether a resource names its Pod, and whether it names its Sandbox.
abbrev pub names_pod : ResourceIdentity → Bool
names_pod r = not (r.fastlet_pod_name == "") && not (r.fastlet_pod_namespace == "")

abbrev pub names_sandbox : ResourceIdentity → Bool
names_sandbox r = not (r.sandbox_name == "") && not (r.sandbox_namespace == "")

-- None is an error.
unfoldable pub exact_fastlet_pod_exists : Authority → ResourceIdentity → Option Bool
exact_fastlet_pod_exists a r =
    if not a.has_pod_client
    then none
    else if names_pod r
    then pod_answer r (a.get_pod r.fastlet_pod_namespace r.fastlet_pod_name)
    else pod_listed r a.list_pods

unfoldable pub first_with_uid : String → List Sandbox → Option Sandbox
first_with_uid uid [] = none
first_with_uid uid (s ∷ rest) = if s.uid == uid then some s else first_with_uid uid rest

abbrev pub sandbox_answer : Answer Sandbox → Option (Option Sandbox)
sandbox_answer (found s) = some (some s)
sandbox_answer not_found = some none
sandbox_answer api_error = none

abbrev pub sandbox_listed : String → Option (List Sandbox) → Option (Option Sandbox)
sandbox_listed uid none = none
sandbox_listed uid (some list) = some (first_with_uid uid list)

-- None is an error, `some none` a Sandbox that is not there.
unfoldable pub find_sandbox : Authority → ResourceIdentity → Option (Option Sandbox)
find_sandbox a r =
    if not a.has_sandbox_client
    then none
    else if names_sandbox r
    then sandbox_answer (a.get_sandbox r.sandbox_namespace r.sandbox_name)
    else sandbox_listed r.sandbox_uid a.list_sandboxes

abbrev pub may_delete : String → Option CleanupDecision
may_delete reason = some (record { is_eligible = true; reason = reason })

abbrev pub kept : String → Option CleanupDecision
kept reason = some (record { is_eligible = false; reason = reason })

abbrev pub current_generation : Sandbox → ℤ
current_generation s = if ltb_ℤ s.generation (pos 1) then pos 1 else s.generation

-- The decision on a Sandbox that was found under the resource's UID.
abbrev pub decide_assigned : ResourceIdentity → Sandbox → Option CleanupDecision
decide_assigned r s =
    if s.placement.fastlet_name == ""
    then may_delete "SandboxUnassigned"
    else if not (s.placement.fastlet_pod_uid == r.fastlet_pod_uid)
    then may_delete "AssignmentMoved"
    else if leb_ℤ r.instance_generation (pos 0) || leb_ℤ r.assignment_attempt (pos 0)
    then kept "InvalidResourceFence"
    else if ltb_ℤ r.instance_generation (current_generation s)
        || ltb_ℤ r.assignment_attempt s.placement.attempt
    then may_delete "ResourceFenceSuperseded"
    else if ltb_ℤ (current_generation s) r.instance_generation
        || ltb_ℤ s.placement.attempt r.assignment_attempt
    then kept "ResourceFenceAheadOfControlPlane"
    else if s.is_unavailable && s.has_recovery
    then may_delete "SandboxMarkedLost"
    else kept "AssignmentStillAuthoritative"

abbrev pub decide_sandbox : ResourceIdentity → Option (Option Sandbox) → Option CleanupDecision
decide_sandbox r none = none
decide_sandbox r (some none) = may_delete "SandboxIdentityMissing"
decide_sandbox r (some (some s)) =
    if not (s.uid == r.sandbox_uid)
    then may_delete "SandboxIdentityMissing"
    else decide_assigned r s

abbrev pub decide_pod :
    ResourceIdentity → Option Bool → Option (Option Sandbox) → Option CleanupDecision
decide_pod r none answer = none
decide_pod r (some true) answer = kept "FastletPodStillExists"
decide_pod r (some false) answer =
    if r.sandbox_uid == "" then may_delete "UnboundResourceFromLostPod" else decide_sandbox r answer

abbrev pub is_unidentified : ResourceIdentity → Bool
is_unidentified r = (r.backend == "") || (r.resource_id == "") || (r.fastlet_pod_uid == "")

abbrev pub in_grace_period : ℕ → ℕ → ResourceIdentity → Bool
in_grace_period timeout now r = (r.created_at == 0) || ltb now (r.created_at + timeout)

-- None is an error; `timeout` is the field OrphanTimeout.
unfoldable pub cleanup_decision : ℤ → Authority → ResourceIdentity → Option CleanupDecision
cleanup_decision timeout a r =
    if is_unidentified r
    then none
    else if in_grace_period (orphan_timeout timeout) a.now r
    then kept "OrphanGracePeriod"
    else decide_pod r (exact_fastlet_pod_exists a r) (find_sandbox a r)
