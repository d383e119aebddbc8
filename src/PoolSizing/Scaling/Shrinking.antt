-- ===== src/PoolSizing/Scaling/Shrinking.antt =====
-- What a plan that shrinks the pool removes and leaves.
use fast_sandbox.Base.{
  ◌≡◌, refl, ◌⊎◌, inl, inr, ℕ, zero, suc, Bool, true, false, not, ◌&&◌, Option, none, some, List,
  [], ◌∷◌, length, lookup, ◌==◌, nat_equality, text_equality, int_equality, sort_by, All,
  All-append, int_beq_iff, sort_by-All, if◌then◌else◌, ℤ, pos, pos_part, ◌+ℤ◌, ◌-ℤ◌, ◌≤ℤ◌, arith,
  Bool-cases,
}
use fast_sandbox.Placement.Quantity.{Quantities}
use fast_sandbox.Placement.Types.{Demand, FastletInfo, scheduling_used}
use fast_sandbox.Placement.TopK.{Floats}
use fast_sandbox.PoolSizing.{FloatOrder, FreeBin, additional_fastlets_for_demands}
use fast_sandbox.PoolSizing.Scaling.{
  FastletPod, pod_identity, DrainCandidate, CapacityView, ScalePlan, PoolCapacity, max_ℤ,
  count_or_zero, remove_excess, sooner, Observation, no_capacity, resource_observation_fresh,
  count_drain, count_starting, is_removable, observe_entry, observe_pod, observe_capacity,
  count_observed, plan_shrink, plan_packed, plan_scale, has_node, within_startup_grace,
}
use fast_sandbox.PoolSizing.Scaling.Excess.{
  freed, remove_excess-Left, remove_excess-All, zero_lt_suc,
}

module _ (q : Quantities) where
  open q use {Quantity}

  -- The Fastlet of a candidate is not asked to drain, has reported lately that it has no Sandbox and no
  -- reservation, is not draining, and no Sandbox waits for its admission.
  abbrev pub Idle : Observation q → DrainCandidate → Type 0
  Idle o c =
      (c.pod.has_drain_request ≡ false)
      × (i : FastletInfo Quantity) × (lookup (pod_identity c.pod) o.observed ≡ some i)
      × (resource_observation_fresh q i o.now ≡ true)
      × (scheduling_used i ≡ pos 0)
      × (count_or_zero (lookup (pod_identity c.pod) o.awaiting) ≡ 0)
      × (i.draining ≡ false)
      × (i.drain_requested ≡ false)

  module _ (o : Observation q) (demand : Demand Quantity) (fresh : FreeBin Quantity) where
    abbrev AllIdle : CapacityView Quantity → Type 0
    AllIdle v = All (Idle o) v.removable

    count_starting-AllIdle :
        (starting : Bool) (v : CapacityView Quantity)
        → AllIdle v
        → AllIdle (count_starting q starting fresh v)
    count_starting-AllIdle true v h = h
    count_starting-AllIdle false v h = h

    removable-facts :
        (awaiting now : ℕ) (i : FastletInfo Quantity)
        → is_removable q awaiting now i ≡ true
        → (resource_observation_fresh q i now ≡ true)
          × (scheduling_used i ≡ pos 0)
          × (awaiting ≡ 0)
          × (i.draining ≡ false)
          × (i.drain_requested ≡ false)
    removable-facts awaiting now i h = ground (arith, int_beq_iff (scheduling_used i) (pos 0))

    count_observed-AllIdle :
        (p : FastletPod) (i : FastletInfo Quantity) (v : CapacityView Quantity)
        → p.has_drain_request ≡ false
        → lookup (pod_identity p) o.observed ≡ some i
        → AllIdle v
        → AllIdle (
            count_observed q demand
              (count_or_zero (lookup (pod_identity p) o.awaiting))
              o.now
              p
              i
              v)
    count_observed-AllIdle p i v undrained found h =
        let awaiting = count_or_zero (lookup (pod_identity p) o.awaiting) in
        elim (Bool-cases (is_removable q awaiting o.now i)) [
          | inl e ↦
              let (a, b, c, d, f) = removable-facts awaiting o.now i e in
              rw e (All-append (Idle o) v.removable _ h ((undrained, i, found, a, b, c, d, f), tt))
          | inr e ↦ rw e h
        ]

    observe_entry-AllIdle :
        (p : FastletPod) (entry : Option (FastletInfo Quantity)) (v : CapacityView Quantity)
        → p.has_drain_request ≡ false
        → lookup (pod_identity p) o.observed ≡ entry
        → AllIdle v
        → AllIdle (observe_entry q o demand fresh p entry v)
    observe_entry-AllIdle p none v undrained found h =
        count_starting-AllIdle (within_startup_grace o.startup_grace o.now p) v h
    observe_entry-AllIdle p (some i) v undrained found h =
        elim (Bool-cases (i.last_heartbeat == 0)) [
          | inl e ↦ rw e (count_starting-AllIdle (within_startup_grace o.startup_grace o.now p) v h)
          | inr e ↦ elim (Bool-cases (has_node i.node_name o.blocked_nodes)) [
            | inl b ↦ rw (e, b) h
            | inr b ↦ rw (e, b) (count_observed-AllIdle p i v undrained found h)
          ]
        ]

    if-AllIdle :
        (b : Bool) (v w : CapacityView Quantity)
        → (b ≡ true → AllIdle v)
        → (b ≡ false → AllIdle w)
        → AllIdle (if b then v else w)
    if-AllIdle true v w yes_case no_case = yes_case refl
    if-AllIdle false v w yes_case no_case = no_case refl

    observe_pod-AllIdle :
        (p : FastletPod) (v : CapacityView Quantity)
        → AllIdle v
        → AllIdle (observe_pod q o demand fresh p v)
    observe_pod-AllIdle p v h =
        if-AllIdle p.has_drain_request (count_drain q p v)
          (if not (p.node_name == "") && has_node p.node_name o.blocked_nodes
            then v
            else observe_entry q o demand fresh p (lookup (pod_identity p) o.observed) v)
          (λ e. h)
          (λ e.
            if-AllIdle (not (p.node_name == "") && has_node p.node_name o.blocked_nodes) v
              (observe_entry q o demand fresh p (lookup (pod_identity p) o.observed) v) (λ b. h)
              (λ b. observe_entry-AllIdle p (lookup (pod_identity p) o.observed) v e refl h))

    observe_capacity-AllIdle :
        (pods : List FastletPod) (v : CapacityView Quantity)
        → AllIdle v
        → AllIdle (observe_capacity q o demand fresh pods v)
    unfolding observe_capacity
    observe_capacity-AllIdle [] v h = h
    observe_capacity-AllIdle (p ∷ rest) v h =
        observe_capacity-AllIdle rest (observe_pod q o demand fresh p v) (observe_pod-AllIdle p v h)

  -- A plan that removes Fastlets, or none: those that it removes are idle, and then no Sandbox waits, the
  -- plan wants one Pod less for each beside those that drain already, at least the minimum, and without
  -- the free slots of those removed no fewer are free than the larger bound of the buffer.
  abbrev pub Shrinks :
      PoolCapacity
      → List (Demand Quantity)
      → List FastletPod
      → Observation q
      → CapacityView Quantity
      → ScalePlan
      → Type 0
  Shrinks c pending pods o v p =
      All (Idle o) p.drain_candidates
      × ((p.drain_candidates ≡ [])
          ⊎ ((pending ≡ [])
              × (p.desired_pods +ℤ pos (length p.drain_candidates)
                  ≡ pos (length pods) -ℤ v.active_drains)
              × (c.pool_min ≤ℤ p.desired_pods)
              × (left : ℤ) × (left +ℤ freed p.drain_candidates ≡ v.free_slots)
              × (max_ℤ c.buffer_max c.buffer_min ≤ℤ left)))

  plan_shrink-Shrinks :
      (c : PoolCapacity) (pods : List FastletPod) (o : Observation q) (v : CapacityView Quantity)
      → All (Idle o) v.removable
      → Shrinks c [] pods o v (plan_shrink q c (pos (length pods) -ℤ v.active_drains) v)
  plan_shrink-Shrinks c pods o v idle =
      let retained = max_ℤ c.buffer_max c.buffer_min in
      let sorted = sort_by sooner v.removable in
      let desired = pos (length pods) -ℤ v.active_drains in
      let (p, f, bounds) = remove_excess-Left c.pool_min retained sorted v.free_slots desired in
      (
        remove_excess-All (Idle o) c.pool_min retained sorted v.free_slots desired
            (sort_by-All sooner (Idle o) v.removable idle),
        elim bounds [
          | inl e ↦ inl e
          | inr (above, enough) ↦ inr (
            refl,
            p,
            above,
            (remove_excess c.pool_min retained sorted v.free_slots desired).1,
            f,
            enough,
          )
        ],
      )

  plan_packed-Shrinks :
      (c : PoolCapacity) (pending : List (Demand Quantity)) (pods : List FastletPod)
      (o : Observation q) (v : CapacityView Quantity) (needed : Option ℕ)
      → All (Idle o) v.removable
      → Shrinks c pending pods o v (plan_packed q c (pos (length pods)) pending v needed)
  plan_packed-Shrinks c pending pods o v none idle = (tt, inl refl)
  plan_packed-Shrinks c pending pods o v (some (suc n)) idle = rw (zero_lt_suc n) (tt, inl refl)
  plan_packed-Shrinks c [] pods o v (some zero) idle = plan_shrink-Shrinks c pods o v idle
  plan_packed-Shrinks c (d ∷ rest) pods o v (some zero) idle =
      rw (zero_lt_suc (length rest)) (tt, inl refl)

  module _ (fl : Floats) (order : FloatOrder fl) where
    -- A plan that removes Fastlets names only idle ones, is made only while no Sandbox waits, wants one Pod
    -- less for each of them and at least the minimum, and keeps the buffer free without them; the other
    -- plans name none.
    pub plan_scale-Shrinks :
        (c : PoolCapacity) (fresh : FreeBin Quantity) (demand : Demand Quantity)
        (pending : List (Demand Quantity)) (pods : List FastletPod) (o : Observation q)
        → Shrinks c pending pods o
            (observe_capacity q o demand fresh pods (no_capacity q))
            (plan_scale q fl order c fresh (some demand) pending pods o)
    unfolding plan_scale
    plan_scale-Shrinks c fresh demand pending pods o =
        let v = observe_capacity q o demand fresh pods (no_capacity q) in
        plan_packed-Shrinks c pending pods o v
          (additional_fastlets_for_demands q fl order pending (pos_part c.buffer_min) demand
            v.free_bins fresh)
          (observe_capacity-AllIdle o demand fresh pods (no_capacity q) tt)
