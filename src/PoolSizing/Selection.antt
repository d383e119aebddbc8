-- ===== src/PoolSizing/Selection.antt =====
-- internal/controlplane/reconciler/sandboxpool_controller.go: which Pods are drained, `selectDrainTargets`.
pub mod Appending
pub mod Targets
use mathlib.Core.List.{Perm}
use mathlib.Core.List.Perm
use fast_sandbox.Base.{
  ◌≡◌, refl, sym, ap, ◌∙◌, ◌⊎◌, inl, inr, ℕ, zero, suc, ◌+◌, ◌≤◌, Bool, true, false, not, ◌&&◌,
  ◌||◌, Option, none, some, List, [], ◌∷◌, ◌++◌, map, length, length-append, keep_if, keep_if-All,
  All, All-append, All-map, All-Mem, Mem, String, Dict, lookup, ◌==◌, nat_equality, text_equality,
  eq_iff, sort_by, sort_by-All, sort_by-Perm, text_lt, if◌then◌else◌, ltb, leb, ℤ, pos, negsuc,
  leb_ℤ, arith, Bool-cases, Option-cases,
}
use fast_sandbox.PoolSizing.Scaling.{FastletPod, pod_identity, scale_down_reason, count_or_zero}

abbrev pub upgrade_reason : String
upgrade_reason = "planned-upgrade"

pub record DrainTarget : Type 0 where
  pub target : FastletPod
  pub why : String

-- `fastletPodTemplateCurrent`
unfoldable pub template_is_current : String → FastletPod → Bool
template_is_current hash p = not (hash == "") && p.template_hash == hash

unfoldable pub is_selected : String → List DrainTarget → Bool
is_selected identity [] = false
is_selected identity (t ∷ rest) = pod_identity t.target == identity || is_selected identity rest

abbrev pub has_text : String → List String → Bool
has_text s [] = false
has_text s (t ∷ rest) = t == s || has_text s rest

-- Fewer assigned Sandboxes first, then the name.
unfoldable pub less_active : Dict ℕ → FastletPod → FastletPod → Bool
less_active active a b =
    let left = count_or_zero (lookup (pod_identity a) active) in
    let right = count_or_zero (lookup (pod_identity b) active) in
    if not (left == right) then ltb left right else text_lt a.name b.name

abbrev pub last_pod : String → FastletPod → Option FastletPod → Option FastletPod
last_pod identity p (some found) = some found
last_pod identity p none = if pod_identity p == identity then some p else none

-- The Pod that a map by identity holds: the last one.
unfoldable pub find_pod : String → List FastletPod → Option FastletPod
find_pod identity [] = none
find_pod identity (p ∷ rest) = last_pod identity p (find_pod identity rest)

abbrev pub stale_pods : String → List FastletPod → List FastletPod
stale_pods hash available = keep_if (λ p. not (template_is_current hash p)) available

module _ (count : ℕ) where
  -- `appendTarget`
  unfoldable pub append_target : String → FastletPod → List DrainTarget → List DrainTarget
  unfolding is_selected
  append_target reason p selected =
      if leb count (length selected) || is_selected (pod_identity p) selected
      then selected
      else selected ++ record { target = p; why = reason } ∷ []

  unfoldable pub append_targets : String → List FastletPod → List DrainTarget → List DrainTarget
  unfolding append_target
  append_targets reason [] selected = selected
  append_targets reason (p ∷ rest) selected =
      append_targets reason rest (append_target reason p selected)

  abbrev pub append_found : Option FastletPod → List DrainTarget → List DrainTarget
  append_found none selected = selected
  append_found (some p) selected = append_target scale_down_reason p selected

  unfoldable pub append_preferred :
      List FastletPod → List String → List DrainTarget → List DrainTarget
  unfolding append_target find_pod
  append_preferred available [] selected = selected
  append_preferred available (identity ∷ rest) selected =
      append_preferred available rest (append_found (find_pod identity available) selected)

  abbrev pub select_upgrades : Bool → String → Dict ℕ → List FastletPod → List DrainTarget
  select_upgrades ready hash active available =
      if ready
      then append_targets upgrade_reason (sort_by (less_active active) (stale_pods hash available))
          []
      else []

  unfoldable pub select_positive :
      List FastletPod → List String → String → Bool → Bool → Dict ℕ → List DrainTarget
  unfolding append_targets append_preferred template_is_current sort_by less_active
  select_positive available preferred hash ready resource_aware active =
      let upgrades = select_upgrades ready hash active available in
      if resource_aware
      then append_preferred available preferred upgrades
      else append_targets scale_down_reason (sort_by (less_active active) available) upgrades

-- A count of 0 or less selects none.
unfoldable pub select_drain_targets :
    List FastletPod → ℤ → List String → String → Bool → Bool → Dict ℕ → List DrainTarget
unfolding select_positive
select_drain_targets available (pos zero) preferred hash ready resource_aware active = []
select_drain_targets available (pos (suc n)) preferred hash ready resource_aware active =
    select_positive (suc n) available preferred hash ready resource_aware active
select_drain_targets available (negsuc n) preferred hash ready resource_aware active = []
