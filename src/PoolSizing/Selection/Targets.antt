-- ===== src/PoolSizing/Selection/Targets.antt =====
-- What `selectDrainTargets` selects.
use std.Path.{subst}
use fast_sandbox.Base.{
  ◌≡◌, refl, sym, ◌⊎◌, inl, inr, ℕ, zero, suc, ◌≤◌, Bool, true, false, not, List, [], length,
  keep_if-All, All, All-map, All-Mem, Mem, String, Dict, nat_equality, text_equality, sort_by,
  sort_by-All, sort_by-All_inv, pos, arith,
}
use fast_sandbox.PoolSizing.Scaling.{FastletPod, pod_identity, scale_down_reason}
use fast_sandbox.PoolSizing.Selection.{
  DrainTarget, upgrade_reason, template_is_current, is_selected, has_text, less_active, stale_pods,
  select_upgrades, select_positive, select_drain_targets,
}
use fast_sandbox.PoolSizing.Selection.Appending.{
  Distinct, Within, append_preferred-Within, append_targets-Full, append_targets-Within,
  find_pod-Mem, has_text-All,
}

module _ (available : List FastletPod) (preferred : List String) (hash : String)
    (ready resource_aware : Bool) where
  -- A target is an available Pod: one of an older template, while those of the current one are ready, or,
  -- to scale down, any, but with resource admission one of the plan's candidates.
  abbrev pub Picked : DrainTarget → Type 0
  Picked t =
      Mem t.target available
      × (((t.why ≡ upgrade_reason) × (ready ≡ true) × (template_is_current hash t.target ≡ false))
          ⊎ ((t.why ≡ scale_down_reason)
              × ((resource_aware ≡ false) ⊎ (has_text (pod_identity t.target) preferred ≡ true))))

  is_stale :
      (p : FastletPod)
      → not (template_is_current hash p) ≡ true
      → template_is_current hash p ≡ false
  is_stale p h = ground arith

  upgrades-Within :
      (count : ℕ) (active : Dict ℕ) (b : Bool)
      → ready ≡ b
      → Within count Picked (select_upgrades count b hash active available)
  upgrades-Within count active true e =
      append_targets-Within count Picked upgrade_reason
        (sort_by (less_active active) (stale_pods hash available)) []
        (sort_by-All (less_active active)
          (λ p. Picked (record { target = p; why = upgrade_reason })) (stale_pods hash available)
          (All-map (stale_pods hash available)
            (λ p (m, stale). (m, inl (refl, e, is_stale p stale)))
            (keep_if-All (λ p. Mem p available) (λ p. not (template_is_current hash p)) available
              (All-Mem available))))
        (omega arith, tt, tt)
  upgrades-Within count active false e = (omega arith, tt, tt)

  select_positive-Within :
      (count : ℕ) (active : Dict ℕ) (aware : Bool)
      → resource_aware ≡ aware
      → Within count Picked (select_positive count available preferred hash ready aware active)
  unfolding select_positive
  select_positive-Within count active true e =
      append_preferred-Within count Picked available preferred
        (select_upgrades count ready hash active available)
        (All-map preferred
          (λ identity named p found.
            let (m, same) = find_pod-Mem identity available p found in
            (m, inr (refl, inr (subst (λ s. has_text s preferred ≡ true) (sym same) named))))
          (has_text-All preferred))
        (upgrades-Within count active ready refl)
  select_positive-Within count active false e =
      append_targets-Within count Picked scale_down_reason (sort_by (less_active active) available)
        (select_upgrades count ready hash active available)
        (sort_by-All (less_active active)
          (λ p. Picked (record { target = p; why = scale_down_reason })) available
          (All-map available (λ p m. (m, inr (refl, inl e))) (All-Mem available)))
        (upgrades-Within count active ready refl)

  -- Without resource admission nothing is held back.
  abbrev Complete : ℕ → Bool → List DrainTarget → Type 0
  Complete count aware selected =
      (aware ≡ true)
      ⊎ (count ≤ length selected)
      ⊎ All (λ p. is_selected (pod_identity p) selected ≡ true) available

  select_positive-Complete :
      (count : ℕ) (active : Dict ℕ) (aware : Bool)
      → Complete count aware (select_positive count available preferred hash ready aware active)
  unfolding select_positive
  select_positive-Complete count active true = inl refl
  select_positive-Complete count active false =
      elim (append_targets-Full count scale_down_reason (sort_by (less_active active) available)
        (select_upgrades count ready hash active available)) [
          | inl enough ↦ inr (inl enough)
          | inr all ↦ inr (inr (sort_by-All_inv (less_active active) _ available all))
        ]

  -- At most the wanted number of Pods is selected, each once, and each is an available Pod: one of an
  -- older template while those of the current one are ready, or one for the scale-down, which with
  -- resource admission is a candidate of the plan. Without resource admission the wanted number is
  -- selected, or every available Pod.
  pub select_drain_targets-Picked :
      (count : ℕ) (active : Dict ℕ)
      → let selected =
          select_drain_targets available (pos count) preferred hash ready resource_aware active in
        (length selected ≤ count)
        × Distinct selected
        × All Picked selected
        × ((resource_aware ≡ true)
            ⊎ (length selected ≡ count)
            ⊎ All (λ p. is_selected (pod_identity p) selected ≡ true) available)
  unfolding select_drain_targets
  select_drain_targets-Picked zero active = (omega arith, tt, tt, inr (inl refl))
  select_drain_targets-Picked (suc n) active =
      let (bound, distinct, picked) = select_positive-Within (suc n) active resource_aware refl in
      (
        bound,
        distinct,
        picked,
        elim (select_positive-Complete (suc n) active resource_aware) [
          | inl e ↦ inl e
          | inr (inl enough) ↦ inr (inl (omega arith))
          | inr (inr all) ↦ inr (inr all)
        ],
      )
