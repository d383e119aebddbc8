-- ===== src/PoolSizing/Scaling.antt =====
-- internal/controlplane/reconciler/sandboxpool_controller.go: how many Pods a pool with resource admission
-- wants, `planResourceAwareScaleWithDemand`, and when it shrinks, `stabilizeResourceAwareScaleDown`.
pub mod Excess
pub mod Shrinking
pub mod Stabilizing
use Prim.Native.String.{◌++◌ as text_append}
use fast_sandbox.Base.{
  ℕ, ◌+◌, ◌-◌, Bool, true, false, not, ◌&&◌, ◌||◌, Option, none, some, List, [], ◌∷◌, ◌++◌, map,
  length, String, Dict, lookup, ◌==◌, nat_equality, text_equality, sort_by, if◌then◌else◌, ltb, leb,
  ℤ, pos, pos_part, ◌+ℤ◌, ◌-ℤ◌, ltb_ℤ, leb_ℤ, int_equality, text_lt,
}
use fast_sandbox.Placement.Quantity.{Quantities}
use fast_sandbox.Placement.Types.{Demand, FastletInfo, scheduling_used}
use fast_sandbox.Placement.TopK.{Floats}
use fast_sandbox.Placement.Capacity.{
  is_fresh, View, resource_schedulability, effective_free_capacity,
}
use fast_sandbox.PoolSizing.{FloatOrder, FreeBin, additional_fastlets_for_demands}

-- Of a Fastlet Pod what the plan reads.
pub record FastletPod : Type 0 where
  pub name : String
  pub uid : String
  pub node_name : String
  pub has_drain_request : Bool
  pub drain_reason : String
  pub is_deleting : Bool
  pub has_ended : Bool
  pub created_at : ℕ
  pub template_hash : String
  pub is_running : Bool
  pub has_ready_condition : Bool
  pub drain_started_at : ℕ

abbrev pub pod_identity : FastletPod → String
pod_identity p = text_append p.name (text_append "/" p.uid)

pub record DrainCandidate : Type 0 where
  pub pod : FastletPod
  pub free_count : ℤ

pub record CapacityView (Q : Type 0) : Type 0 where
  pub free_slots : ℤ
  pub free_bins : List (FreeBin Q)
  pub removable : List DrainCandidate
  pub active_drains : ℤ
  pub active_scale_down_drains : ℤ

pub record ScalePlan : Type 0 where
  pub desired_pods : ℤ
  pub drain_candidates : List DrainCandidate
  pub plan_drains : ℤ
  pub plan_scale_down_drains : ℤ

pub record PoolCapacity : Type 0 where
  pub pool_min : ℤ
  pub pool_max : ℤ
  pub buffer_min : ℤ
  pub buffer_max : ℤ

abbrev pub scale_down_reason : String
scale_down_reason = "scale-down"

-- In nanoseconds: 45 seconds, two minutes and one minute.
abbrev pub stale_after : ℕ
stale_after = 45000000000

abbrev pub default_startup_grace : ℕ
default_startup_grace = 120000000000

abbrev pub default_stabilization : ℕ
default_stabilization = 60000000000

-- `podWithinStartupGrace`; the setting is 0 where it is not positive.
unfoldable pub within_startup_grace : ℕ → ℕ → FastletPod → Bool
within_startup_grace setting now p =
    not p.is_deleting
    && not p.has_ended
    && not (p.created_at == 0)
    && leb now (p.created_at + (if ltb 0 setting then setting else default_startup_grace))

-- The slots of an empty Fastlet.
abbrev pub nominal_slots : ℤ → ℤ
nominal_slots max_per_pod = if leb_ℤ max_per_pod (pos 0) then pos 1 else max_per_pod

abbrev pub max_ℤ : ℤ → ℤ → ℤ
max_ℤ a b = if leb_ℤ a b then b else a

abbrev pub min_ℤ : ℤ → ℤ → ℤ
min_ℤ a b = if leb_ℤ a b then a else b

unfoldable pub has_node : String → List String → Bool
has_node node [] = false
has_node node (name ∷ rest) = name == node || has_node node rest

abbrev pub count_or_zero : Option ℕ → ℕ
count_or_zero none = 0
count_or_zero (some n) = n

-- The loop over the candidates for removal: those taken, the slots that stay free, and the Pods.
unfoldable pub remove_excess : ℤ → ℤ → List DrainCandidate → ℤ → ℤ → List DrainCandidate × ℤ × ℤ
remove_excess pool_min retained [] available desired = ([], available, desired)
remove_excess pool_min retained (c ∷ rest) available desired =
    let later =
      remove_excess pool_min retained rest (available -ℤ c.free_count) (desired -ℤ pos 1) in
    if leb_ℤ desired pool_min || ltb_ℤ (available -ℤ c.free_count) retained
    then ([], available, desired)
    else (c ∷ later.0, later.1, later.2)

-- Fewer free slots first, then the identity.
unfoldable pub sooner : DrainCandidate → DrainCandidate → Bool
sooner a b =
    if not (a.free_count == b.free_count)
    then ltb_ℤ a.free_count b.free_count
    else text_lt (pod_identity a.pod) (pod_identity b.pod)

module _ (q : Quantities) where
  open q use {Quantity, is_positive}

  abbrev pub Info : Type 0
  Info = FastletInfo Quantity

  abbrev pub no_capacity : CapacityView Quantity
  no_capacity = record {
    free_slots = pos 0;
    free_bins = [];
    removable = [];
    active_drains = pos 0;
    active_scale_down_drains = pos 0;
  }

  -- `fastletResourceObservationFresh`
  unfoldable pub resource_observation_fresh : Info → ℕ → Bool
  resource_observation_fresh i now =
      is_fresh i.last_heartbeat now stale_after && is_fresh i.resource_received_at now stale_after

  abbrev pub count_drain : FastletPod → CapacityView Quantity → CapacityView Quantity
  count_drain p v = record v {
    active_drains = v.active_drains +ℤ pos 1;
    active_scale_down_drains =
        if p.drain_reason == scale_down_reason
        then v.active_scale_down_drains +ℤ pos 1
        else v.active_scale_down_drains;
  }

  -- A Pod that has not reported yet counts as empty while it starts.
  abbrev pub count_starting :
      Bool → FreeBin Quantity → CapacityView Quantity → CapacityView Quantity
  count_starting starting fresh v =
      if starting
      then record v {
        free_slots = v.free_slots +ℤ fresh.slots;
        free_bins = v.free_bins ++ fresh ∷ [];
      }
      else v

  abbrev pub is_removable : ℕ → ℕ → Info → Bool
  is_removable awaiting now i =
      resource_observation_fresh i now
      && scheduling_used i == pos 0
      && awaiting == 0
      && not i.draining
      && not i.drain_requested

  abbrev pub with_bin : View q → List (FreeBin Quantity) → List (FreeBin Quantity)
  with_bin s bins =
      if ltb_ℤ (pos 0) s.free_slots
        && is_positive s.free_resources.cpu
        && is_positive s.free_resources.memory
      then bins ++ record { slots = s.free_slots; free = s.free_resources } ∷ []
      else bins

  abbrev pub count_observed :
      Demand Quantity → ℕ → ℕ → FastletPod → Info → CapacityView Quantity → CapacityView Quantity
  count_observed demand awaiting now p i v = record v {
    free_slots = v.free_slots +ℤ effective_free_capacity q i demand now stale_after;
    free_bins = with_bin (resource_schedulability q i now stale_after) v.free_bins;
    removable =
        if is_removable awaiting now i
        then v.removable
          ++ record { pod = p; free_count = effective_free_capacity q i demand now stale_after }
            ∷ []
        else v.removable;
  }

  -- What the reconciler sees: the registry's entries and the Sandboxes that wait for admission, both by
  -- the Pod's identity, the blocked nodes, the setting of the startup grace, and the time.
  pub record Observation : Type 0 where
    pub observed : Dict Info
    pub awaiting : Dict ℕ
    pub blocked_nodes : List String
    pub startup_grace : ℕ
    pub now : ℕ

  module _ (o : Observation) (demand : Demand Quantity) (fresh : FreeBin Quantity) where
    open o use {observed, awaiting, blocked_nodes, startup_grace, now}

    abbrev pub observe_entry :
        FastletPod → Option Info → CapacityView Quantity → CapacityView Quantity
    observe_entry p none v = count_starting (within_startup_grace startup_grace now p) fresh v
    observe_entry p (some i) v =
        if i.last_heartbeat == 0
        then count_starting (within_startup_grace startup_grace now p) fresh v
        else if has_node i.node_name blocked_nodes
        then v
        else count_observed demand (count_or_zero (lookup (pod_identity p) awaiting)) now p i v

    abbrev pub observe_pod : FastletPod → CapacityView Quantity → CapacityView Quantity
    observe_pod p v =
        if p.has_drain_request
        then count_drain p v
        else if not (p.node_name == "") && has_node p.node_name blocked_nodes
        then v
        else observe_entry p (lookup (pod_identity p) observed) v

    -- `observeResourceAwareCapacity`
    unfoldable pub observe_capacity :
        List FastletPod → CapacityView Quantity → CapacityView Quantity
    unfolding within_startup_grace resource_observation_fresh has_node effective_free_capacity
        resource_schedulability
    observe_capacity [] v = v
    observe_capacity (p ∷ rest) v = observe_capacity rest (observe_pod p v)

  abbrev pub plan_of : CapacityView Quantity → ℤ → List DrainCandidate → ScalePlan
  plan_of v desired candidates = record {
    desired_pods = desired;
    drain_candidates = candidates;
    plan_drains = v.active_drains;
    plan_scale_down_drains = v.active_scale_down_drains;
  }

  -- The plan when no Sandbox waits and none is missing from the buffer.
  abbrev pub plan_shrink : PoolCapacity → ℤ → CapacityView Quantity → ScalePlan
  plan_shrink c desired v =
      let (candidates, available, pods) =
        remove_excess c.pool_min (max_ℤ c.buffer_max c.buffer_min) (sort_by sooner v.removable)
          v.free_slots desired in
      plan_of v pods candidates

  abbrev pub plan_packed :
      PoolCapacity → ℤ → List (Demand Quantity) → CapacityView Quantity → Option ℕ → ScalePlan
  plan_packed c current pending v none = plan_of v (current -ℤ v.active_drains) []
  plan_packed c current pending v (some needed) =
      if ltb 0 needed
      then plan_of v (current +ℤ (pos needed -ℤ min_ℤ (pos needed) v.active_scale_down_drains)) []
      else if ltb 0 (length pending)
      then plan_of v (current -ℤ v.active_drains) []
      else plan_shrink c (current -ℤ v.active_drains) v

  module _ (fl : Floats) (order : FloatOrder fl) where
    -- `planResourceAwareScaleWithDemand`; `demand` is the pool's resource profile, none if it has none.
    unfoldable pub plan_scale :
        PoolCapacity
        → FreeBin Quantity
        → Option (Demand Quantity)
        → List (Demand Quantity)
        → List FastletPod
        → Observation
        → ScalePlan
    unfolding observe_capacity additional_fastlets_for_demands remove_excess sort_by sooner
    plan_scale c fresh none pending pods o = plan_of no_capacity (pos (length pods)) []
    plan_scale c fresh (some demand) pending pods o =
        let v = observe_capacity o demand fresh pods no_capacity in
        plan_packed c (pos (length pods)) pending v (
          additional_fastlets_for_demands q fl order pending (pos_part c.buffer_min) demand
            v.free_bins fresh)

-- The Pods of a plan within the pool's bounds, as `Reconcile` computes them.
unfoldable pub bounded_pods : PoolCapacity → ℤ → ℤ
bounded_pods c desired =
    let raised = if ltb_ℤ desired c.pool_min then c.pool_min else desired in
    if ltb_ℤ (pos 0) c.pool_max && ltb_ℤ c.pool_max raised then c.pool_max else raised

-- The condition ScaleDownCandidate: its status, and the time of its last transition.
pub record ScaleDownCondition : Type 0 where
  pub holds : Bool
  pub since : ℕ

abbrev pub since_when : ℕ → Option ScaleDownCondition → ScaleDownCondition
since_when now none = record { holds = true; since = now }
since_when now (some c) = if c.holds then c else record { holds = true; since = now }

-- `stabilizeResourceAwareScaleDown`; `window` is 0 where the setting is not positive.
unfoldable pub stabilize_scale_down :
    ℕ → ℕ → ℤ → ℤ → Option ScaleDownCondition → ℤ × ScaleDownCondition
stabilize_scale_down window now current desired existing =
    let c = since_when now existing in
    if leb_ℤ current desired
    then (desired, record { holds = false; since = now })
    else if ltb now (c.since + (if ltb 0 window then window else default_stabilization))
    then (current, c)
    else (desired, c)
