-- ===== src/PoolSizing/Draining/Targets.antt =====
-- internal/controlplane/reconciler/sandboxpool_controller.go: how many drains `reconcileDraining` starts
-- or cancels.

use std.Path.{subst}
use mathlib.Core.List.{Perm}
use fast_sandbox.Base.{
  ◌≡◌, ◌⊎◌, inl, inr, ℕ, ◌+◌, ◌-◌, ◌≤◌, ◌<◌, Bool, true, false, not, ◌&&◌, List, length, min, zero,
  suc, refl, ap, sym, Option, none, some, [], ◌∷◌, ◌++◌, ◌↔◌, ◌≢◌, eq_iff, lookup, take,
  sort_by-Perm, text_equality, String, Dict, ◌==◌, length-sort_by, length-take, ltb, ℤ, arith,
  Bool-cases, All, sort_by, nat_equality,
}
use fast_sandbox.Placement.Types.{FastletInfo}
use fast_sandbox.PoolSizing.Scaling.{FastletPod, pod_identity}
use fast_sandbox.PoolSizing.Selection.{DrainTarget, is_selected, template_is_current}
use fast_sandbox.PoolSizing.Selection.Appending.{Distinct}
use fast_sandbox.PoolSizing.Selection.Targets.{Picked, select_drain_targets-Picked}
use fast_sandbox.PoolSizing.Draining.{
  DrainDecision, no_drains, waits_for_template, follow_drains, cancels, starts, drain_target,
  draining_pods, available_pods, surplus_drains, started_later, decide_target, decide_drains,
  drain_plan, carry_out, calls_made, current_template_pods_ready, registry_is_ready, entry_is_ready,
  pods_are_ready, has_current_template, has_stale_template, start_drains,
}

take_prefix {ℓ} : {A : Type ℓ} (n : ℕ) (xs : List A) → (rest : List A) × (take n xs ++ rest ≡ xs)
take_prefix zero xs = (xs, refl)
take_prefix (suc n) [] = ([], refl)
take_prefix (suc n) (x ∷ xs) = let (rest, e) = take_prefix n xs in (rest, ap (λ ys. x ∷ ys) e)

take_prefix-Perm {ℓ} :
    {A : Type ℓ} (n : ℕ) (ys xs : List A)
    → Perm ys xs
    → (rest : List A) × Perm ys (take n xs ++ rest)
take_prefix-Perm n ys xs p =
    let (rest, e) = take_prefix n xs in (rest, subst (λ zs. Perm ys zs) (sym e) p)

module _ (hash : String) (ready resource_aware : Bool) (preferred : List String)
    (active : Dict ℕ) where
  -- What a plan means for a number of Pods to remove: `draining` are those that drain and `available`
  -- the others. Drains are cancelled, each once, until that number is left; no more are started than are missing, of
  -- Pods that do not drain, each once, and without resource admission all that are missing, or all Pods
  -- that there are.
  abbrev pub Heads : ℕ → List FastletPod → List FastletPod → DrainDecision → Type 0
  Heads target draining available no_drains = (target ≡ 0) × (length draining ≡ 0)
  Heads target draining available follow_drains = length draining ≡ target
  Heads target draining available waits_for_template =
      (length draining < target) × (ready ≡ false) × (has_stale_template hash available ≡ true)
  Heads target draining available (cancels pods) =
      (length pods + target ≡ length draining)
      × (rest : List FastletPod) × Perm draining (pods ++ rest)
  Heads target draining available (starts selected) =
      (length draining + length selected ≤ target)
      × Distinct selected
      × All (Picked available preferred hash ready resource_aware) selected
      × ((resource_aware ≡ true)
          ⊎ (length draining + length selected ≡ target)
          ⊎ (length selected ≡ length available)
          ⊎ All (λ p. is_selected (pod_identity p) selected ≡ true) available)

  cancels-Heads :
      (target : ℕ) (draining available : List FastletPod)
      → ltb target (length draining) ≡ true
      → Heads target draining available (cancels (surplus_drains target draining))
  unfolding surplus_drains
  cancels-Heads target draining available over =
      let (rest, p) =
        take_prefix-Perm (length draining - target) draining (sort_by started_later draining)
          (sort_by-Perm started_later draining) in
      (
        ground (
          arith,
          length-take (length draining - target) (sort_by started_later draining),
          length-sort_by started_later draining,
        ),
        rest,
        p,
      )

  starts-Heads :
      (target : ℕ) (draining available : List FastletPod)
      → ltb (length draining) target ≡ true
      → Heads target draining available (
          start_drains hash ready resource_aware preferred active
            (target - length draining)
            available)
  starts-Heads target draining available under =
      let count = min (target - length draining) (length available) in
      let (bound, distinct, picked, complete) =
        select_drain_targets-Picked available preferred hash ready resource_aware count active in
      (
        ground arith,
        distinct,
        picked,
        elim complete [
          | inl aware ↦ inl aware
          | inr (inl all_wanted) ↦ inr (ground arith)
          | inr (inr all) ↦ inr (inr (inr all))
        ],
      )

  decide_target-Heads :
      (target : ℕ) (pods draining available : List FastletPod)
      → Heads target draining available
          (decide_target hash ready resource_aware preferred active target pods draining available)
  decide_target-Heads target pods draining available =
      elim (Bool-cases (ltb target (length draining))) [
        | inl over ↦ rw over (cancels-Heads target draining available over)
        | inr e ↦ elim (Bool-cases (ltb (length draining) target)) [
          | inl under ↦
              elim (Bool-cases (
                has_current_template hash pods && not ready && has_stale_template hash available)) [
                  | inl waits ↦ rw (e, under, waits) (ground arith, ground arith, ground arith)
                  | inr go ↦ rw (e, under, go) (starts-Heads target draining available under)
                ]
          | inr f ↦ elim (Bool-cases (target == 0)) [
            | inl z ↦ rw (e, f, z) (ground arith, ground arith)
            | inr z ↦ rw (e, f, z) (ground arith)
          ]
        ]
      ]

  pub drain_plan-Heads :
      (pods : List FastletPod) (desired : ℤ)
      → Heads
          (drain_target pods desired)
          (draining_pods pods)
          (available_pods pods)
          (drain_plan hash ready resource_aware preferred active pods desired)
  unfolding drain_plan
  drain_plan-Heads pods desired =
      decide_target-Heads (drain_target pods desired) pods (draining_pods pods)
        (available_pods pods)

abbrev pub IsCurrent : String → FastletPod → Type 0
IsCurrent hash p = (hash ≢ "") × (p.template_hash ≡ hash)

abbrev pub AnyCurrent : String → List FastletPod → Type 0
AnyCurrent hash [] = ⊥
AnyCurrent hash (p ∷ rest) = IsCurrent hash p ⊎ AnyCurrent hash rest

template_is_current-IsCurrent :
    (hash : String) (p : FastletPod) → (template_is_current hash p ≡ true) ↔ IsCurrent hash p
unfolding template_is_current
template_is_current-IsCurrent hash p = ground (arith, eq_iff hash "", eq_iff p.template_hash hash)

has_current_template-AnyCurrent :
    (hash : String) (pods : List FastletPod)
    → (has_current_template hash pods ≡ true) ↔ AnyCurrent hash pods
unfolding has_current_template
has_current_template-AnyCurrent hash [] = ground arith
has_current_template-AnyCurrent hash (p ∷ rest) =
    ground (arith, template_is_current-IsCurrent hash p, has_current_template-AnyCurrent hash rest)

module _ {Q : Type 0} where
  -- An entry of the registry that is ready in all its parts, was heard of and does not drain.
  abbrev pub EntryReady : Option (FastletInfo Q) → Type 0
  EntryReady none = ⊥
  EntryReady (some i) =
      (i.pod_ready ≡ true)
      × (i.runtime_ready ≡ true)
      × (i.infra_ready ≡ true)
      × (0 < i.last_heartbeat)
      × (i.draining ≡ false)

  abbrev pub RegisteredReady : Option (Dict (FastletInfo Q)) → FastletPod → Type 0
  RegisteredReady none p = Unit {0}
  RegisteredReady (some entries) p = EntryReady (lookup (pod_identity p) entries)

  abbrev pub Ready : Option (Dict (FastletInfo Q)) → FastletPod → Type 0
  Ready registry p =
      (p.is_running ≡ true) × (p.has_ready_condition ≡ true) × RegisteredReady registry p

  abbrev pub AllReady : Option (Dict (FastletInfo Q)) → String → List FastletPod → Type 0
  AllReady registry hash [] = Unit {0}
  AllReady registry hash (p ∷ rest) =
      ((IsCurrent hash p → ⊥) ⊎ Ready registry p) × AllReady registry hash rest

  -- There is a Pod of the current template, and each that is one is ready.
  abbrev pub CurrentReady : Option (Dict (FastletInfo Q)) → String → List FastletPod → Type 0
  CurrentReady registry hash pods = AllReady registry hash pods × AnyCurrent hash pods

  entry_is_ready-EntryReady :
      (o : Option (FastletInfo Q)) → (entry_is_ready o ≡ true) ↔ EntryReady o
  entry_is_ready-EntryReady none = ground arith
  entry_is_ready-EntryReady (some i) = ground arith

  registry_is_ready-RegisteredReady :
      (registry : Option (Dict (FastletInfo Q))) (p : FastletPod)
      → (registry_is_ready registry p ≡ true) ↔ RegisteredReady registry p
  registry_is_ready-RegisteredReady none p = ground arith
  registry_is_ready-RegisteredReady (some entries) p =
      entry_is_ready-EntryReady (lookup (pod_identity p) entries)

  pods_are_ready-AllReady :
      (registry : Option (Dict (FastletInfo Q))) (hash : String) (pods : List FastletPod)
      → (pods_are_ready registry hash pods ≡ true) ↔ AllReady registry hash pods
  pods_are_ready-AllReady registry hash [] = ground arith
  pods_are_ready-AllReady registry hash (p ∷ rest) = ground (
    arith,
    template_is_current-IsCurrent hash p,
    registry_is_ready-RegisteredReady registry p,
    pods_are_ready-AllReady registry hash rest,
  )

  current_template_pods_ready-CurrentReady :
      (registry : Option (Dict (FastletInfo Q))) (hash : String) (pods : List FastletPod)
      → (current_template_pods_ready registry hash pods ≡ true) ↔ CurrentReady registry hash pods
  unfolding current_template_pods_ready
  current_template_pods_ready-CurrentReady registry hash pods =
      ground (
        arith,
        pods_are_ready-AllReady registry hash pods,
        has_current_template-AnyCurrent hash pods,
      )

module _ {A : Type 0} (succeeds : A → Bool) where
  -- Of the planned calls those were made that come before the first failure, and that one.
  abbrev pub Cut : List A → List A → Bool → Type 0
  Cut planned made ok =
      ((ok ≡ true) × (made ≡ planned) × All (λ x. succeeds x ≡ true) planned)
      ⊎ ((ok ≡ false)
          × (before : List A) × (x : A) × (after : List A) × (planned ≡ before ++ x ∷ after)
          × (made ≡ before ++ x ∷ [])
          × All (λ y. succeeds y ≡ true) before
          × (succeeds x ≡ false))

  calls_made-Cut : (xs : List A) → Cut xs (calls_made succeeds xs).0 (calls_made succeeds xs).1
  unfolding calls_made
  calls_made-Cut [] = inl (refl, refl, tt)
  calls_made-Cut (x ∷ xs) = elim (Bool-cases (succeeds x)) [
    | inr e ↦ rw e (inr (refl, [], x, xs, refl, refl, tt, e))
    | inl e ↦ rw e (elim (calls_made-Cut xs) [
      | inl (ok, all, good) ↦ inl (ok, ap (λ ys. x ∷ ys) all, (refl, good))
      | inr (bad, before, y, after, split, made, good, failed) ↦ inr (
        bad,
        x ∷ before,
        y,
        after,
        ap (λ ys. x ∷ ys) split,
        ap (λ ys. x ∷ ys) made,
        (e, good),
        failed,
      )
    ])
  ]

-- What was done of a plan.
abbrev pub CarriedOut : (FastletPod → Bool) → DrainDecision → DrainDecision × Bool → Type 0
CarriedOut succeeds (cancels planned) (d, ok) =
    (made : List FastletPod) × (d ≡ cancels made) × Cut succeeds planned made ok
CarriedOut succeeds (starts planned) (d, ok) =
    (made : List DrainTarget) × (d ≡ starts made) × Cut (λ t. succeeds t.target) planned made ok
CarriedOut succeeds no_drains x = x ≡ (no_drains, true)
CarriedOut succeeds waits_for_template x = x ≡ (waits_for_template, true)
CarriedOut succeeds follow_drains x = x ≡ (follow_drains, true)

carry_out-CarriedOut :
    (succeeds : FastletPod → Bool) (d : DrainDecision)
    → CarriedOut succeeds d (carry_out succeeds d)
carry_out-CarriedOut succeeds (cancels pods) = (_, refl, calls_made-Cut succeeds pods)
carry_out-CarriedOut succeeds (starts targets) =
    (_, refl, calls_made-Cut (λ t. succeeds t.target) targets)
carry_out-CarriedOut succeeds no_drains = refl
carry_out-CarriedOut succeeds waits_for_template = refl
carry_out-CarriedOut succeeds follow_drains = refl

-- A pool with more Pods than it wants to have heads for as many drains as there are too many: if more Pods
-- drain, the plan is to cancel drains, each once, until that many are left; if fewer do, it is to start no
-- more than are missing, of available Pods, each once, and without resource admission all that are missing,
-- or all available Pods; or it is to wait, and then the Pods of the current template are not ready and one
-- of another template is available. Those of the current template are ready exactly when there is one and
-- each runs, has the Ready condition, and is ready in the registry if there is one. The plan's calls are
-- made in order up to the first that fails.
pub decide_drains-Heads :
    {Q : Type 0} (succeeds : FastletPod → Bool) (registry : Option (Dict (FastletInfo Q)))
    (hash : String) (resource_aware : Bool) (preferred : List String) (active : Dict ℕ)
    (pods : List FastletPod) (desired : ℤ)
    → let ready = current_template_pods_ready registry hash pods in
      (plan : DrainDecision) × Heads hash ready resource_aware preferred active
        (drain_target pods desired)
        (draining_pods pods)
        (available_pods pods)
        plan
      × ((ready ≡ true) ↔ CurrentReady registry hash pods)
      × CarriedOut succeeds plan
          (decide_drains succeeds registry hash resource_aware preferred active pods desired)
unfolding decide_drains
decide_drains-Heads succeeds registry hash resource_aware preferred active pods desired =
    let ready = current_template_pods_ready registry hash pods in
    (
      drain_plan hash ready resource_aware preferred active pods desired,
      drain_plan-Heads hash ready resource_aware preferred active pods desired,
      current_template_pods_ready-CurrentReady registry hash pods,
      carry_out-CarriedOut succeeds _,
    )
