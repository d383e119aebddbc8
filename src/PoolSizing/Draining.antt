-- ===== src/PoolSizing/Draining.antt =====
-- internal/controlplane/reconciler/sandboxpool_controller.go: the drains of a pool, `reconcileDraining`.
--
-- A call of Kubernetes or of a Fastlet enters by its answer.
pub mod Targets
pub mod Emptiness
use fast_sandbox.Base.{
  ℕ, ◌+◌, ◌-◌, Bool, true, false, not, ◌&&◌, ◌||◌, Option, none, some, List, [], ◌∷◌, length, take,
  keep_if, min, String, Dict, lookup, ◌==◌, nat_equality, text_equality, int_equality, sort_by,
  if◌then◌else◌, ltb, leb, ℤ, pos, pos_part, ◌-ℤ◌,
}
use fast_sandbox.Placement.Quantity.{Quantities}
use fast_sandbox.Placement.Types.{FastletInfo, AdmissionStatus, ResourceStatus, ResourceVector}
use fast_sandbox.PoolSizing.Scaling.{FastletPod, pod_identity, scale_down_reason, count_or_zero}
use fast_sandbox.PoolSizing.Selection.{
  DrainTarget, upgrade_reason, template_is_current, select_drain_targets,
}

-- `hasCurrentTemplatePod`
unfoldable pub has_current_template : String → List FastletPod → Bool
unfolding template_is_current
has_current_template hash [] = false
has_current_template hash (p ∷ rest) = template_is_current hash p || has_current_template hash rest

abbrev pub has_stale_template : String → List FastletPod → Bool
has_stale_template hash [] = false
has_stale_template hash (p ∷ rest) =
    not (template_is_current hash p) || has_stale_template hash rest

module _ {Q : Type 0} where
  abbrev pub entry_is_ready : Option (FastletInfo Q) → Bool
  entry_is_ready none = false
  entry_is_ready (some i) =
      i.pod_ready
      && i.runtime_ready
      && i.infra_ready
      && not (i.last_heartbeat == 0)
      && not i.draining

  abbrev pub registry_is_ready : Option (Dict (FastletInfo Q)) → FastletPod → Bool
  registry_is_ready none p = true
  registry_is_ready (some entries) p = entry_is_ready (lookup (pod_identity p) entries)

  abbrev pub pods_are_ready : Option (Dict (FastletInfo Q)) → String → List FastletPod → Bool
  pods_are_ready registry hash [] = true
  pods_are_ready registry hash (p ∷ rest) =
      (not (template_is_current hash p)
        || p.is_running && p.has_ready_condition && registry_is_ready registry p)
      && pods_are_ready registry hash rest

  -- `currentTemplatePodsReady`; the registry, if there is one, by the Pod's identity.
  unfoldable pub current_template_pods_ready :
      Option (Dict (FastletInfo Q)) → String → List FastletPod → Bool
  unfolding has_current_template template_is_current
  current_template_pods_ready registry hash pods =
      pods_are_ready registry hash pods && has_current_template hash pods

-- What a reconciliation does about drains.
pub data DrainDecision : Type 0 where
  no_drains waits_for_template follow_drains : DrainDecision
  cancels : List FastletPod → DrainDecision
  starts : List DrainTarget → DrainDecision

abbrev pub drain_target : List FastletPod → ℤ → ℕ
drain_target pods desired = pos_part (pos (length pods) -ℤ desired)

abbrev pub draining_pods : List FastletPod → List FastletPod
draining_pods pods = keep_if (λ p. p.has_drain_request) pods

abbrev pub available_pods : List FastletPod → List FastletPod
available_pods pods = keep_if (λ p. not p.has_drain_request) pods

-- The drain that started last first; those that started at once keep their order here.
unfoldable pub started_later : FastletPod → FastletPod → Bool
started_later a b = ltb b.drain_started_at a.drain_started_at

-- The Pods whose drains are cancelled.
unfoldable pub surplus_drains : ℕ → List FastletPod → List FastletPod
unfolding started_later sort_by
surplus_drains target draining = take (length draining - target) (sort_by started_later draining)

module _ (hash : String) (ready resource_aware : Bool) (preferred : List String)
    (active : Dict ℕ) where
  abbrev pub start_drains : ℕ → List FastletPod → DrainDecision
  start_drains wanted available = starts (
      select_drain_targets available (pos (min wanted (length available))) preferred hash ready
        resource_aware active)

  abbrev pub decide_target : ℕ → List FastletPod → List FastletPod → List FastletPod → DrainDecision
  decide_target target pods draining available =
      if ltb target (length draining)
      then cancels (surplus_drains target draining)
      else if ltb (length draining) target
      then if has_current_template hash pods && not ready && has_stale_template hash available
        then waits_for_template
        else start_drains (target - length draining) available
      else if target == 0
      then no_drains
      else follow_drains

  -- What is to be done before the loop over the draining Pods.
  unfoldable pub drain_plan : List FastletPod → ℤ → DrainDecision
  unfolding has_current_template template_is_current surplus_drains select_drain_targets
  drain_plan pods desired =
      decide_target (drain_target pods desired) pods (draining_pods pods) (available_pods pods)

-- A loop of calls that returns at the first error: the calls that it made, and whether all succeeded.
unfoldable pub calls_made {ℓ} : {A : Type ℓ} → (A → Bool) → List A → List A × Bool
calls_made succeeds [] = ([], true)
calls_made succeeds (x ∷ xs) =
    let (made, ok) = calls_made succeeds xs in
    if succeeds x then (x ∷ made, ok) else (x ∷ [], false)

-- `succeeds` is whether `cancelDrain` or `startDrain` of a Pod returns no error.
abbrev pub carry_out : (FastletPod → Bool) → DrainDecision → DrainDecision × Bool
carry_out succeeds (cancels pods) = let (made, ok) = calls_made succeeds pods in (cancels made, ok)
carry_out succeeds (starts targets) =
    let (made, ok) = calls_made (λ t. succeeds t.target) targets in (starts made, ok)
carry_out succeeds d = (d, true)

-- The part of `reconcileDraining` before the loop over the draining Pods: what it did, and whether it had no
-- error.
unfoldable pub decide_drains :
    {Q : Type 0}
    → (FastletPod → Bool)
    → Option (Dict (FastletInfo Q))
    → String
    → Bool
    → List String
    → Dict ℕ
    → List FastletPod
    → ℤ
    → DrainDecision × Bool
unfolding current_template_pods_ready drain_plan calls_made
decide_drains succeeds registry hash resource_aware preferred active pods desired =
    let ready = current_template_pods_ready registry hash pods in
    carry_out succeeds (drain_plan hash ready resource_aware preferred active pods desired)

-- The answer to SetDraining, and the answer to a heartbeat, as far as the drain reads them.
pub record DrainResponse : Type 0 where
  pub response_pod_uid : String
  pub response_drain_id : String
  pub is_draining : Bool
  pub runtime_ready : Bool
  pub is_recovering : Bool
  pub admission : Option AdmissionStatus

-- `legacyDrainResponse`
unfoldable pub is_legacy_response : DrainResponse → Bool
is_legacy_response r =
    r.response_pod_uid == ""
    && r.response_drain_id == ""
    && elim r.admission [ none ↦ true | some _ ↦ false ]

-- `requestDrain`, none for an error: whether the client and the Pod's address are there, whether the drain
-- id was there or was written, the Fastlet's answer, and whether the acknowledgement was there or was written.
unfoldable pub request_drain :
    String → String → Bool → Bool → Bool → Bool → Option DrainResponse → Option DrainResponse
unfolding is_legacy_response
request_drain pod_uid drain_id wanted reachable id_saved ack_saved none = none
request_drain pod_uid drain_id wanted reachable id_saved ack_saved (some r) =
    if reachable
      && (not wanted || id_saved)
      && (if wanted then r.is_draining else not r.is_draining)
      && (is_legacy_response r || r.response_pod_uid == pod_uid && r.response_drain_id == drain_id)
      && (not wanted || ack_saved)
    then some r
    else none

module _ (q : Quantities) where
  open q use {is_positive, is_negative, parse_quantity}

  abbrev pub parses_to_zero : String → Bool
  parses_to_zero text = elim (parse_quantity text) [
    | none ↦ false
    | some n ↦ not (is_positive n) && not (is_negative n)
  ]

  abbrev pub commits_nothing : Option ResourceStatus → Bool
  commits_nothing none = false
  commits_nothing (some r) =
      r.version == "v2"
      && not (r.epoch == "")
      && not (r.reason == "UNSUPPORTED_PROTOCOL")
      && parses_to_zero r.committed.cpu
      && parses_to_zero r.committed.memory

  -- `admissionSnapshotEmpty`
  unfoldable pub admission_snapshot_empty : Option AdmissionStatus → Bool → Bool
  admission_snapshot_empty none require_resources = false
  admission_snapshot_empty (some a) require_resources =
      a.used == pos 0
      && a.creating == pos 0
      && a.running == pos 0
      && a.deleting == pos 0
      && (not require_resources || commits_nothing a.resources)

  -- `drainResponseEmpty`, and the last test of `legacyDrainObservationEmpty`
  unfoldable pub drain_response_empty : DrainResponse → Bool → Bool
  unfolding admission_snapshot_empty
  drain_response_empty r require_resources =
      r.is_draining
      && r.runtime_ready
      && not r.is_recovering
      && admission_snapshot_empty r.admission require_resources

  -- `legacyDrainObservationEmpty`, none for an error; the answer is that to a heartbeat sent for it.
  unfoldable pub legacy_observation_empty : String → Option DrainResponse → Bool → Option Bool
  unfolding drain_response_empty
  legacy_observation_empty pod_uid none require_resources = none
  legacy_observation_empty pod_uid (some h) require_resources =
      if h.response_pod_uid == "" || not (h.response_pod_uid == pod_uid)
      then none
      else some (drain_response_empty h require_resources)
