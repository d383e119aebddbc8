-- ===== src/PoolSizing/Selection/Appending.antt =====
-- What the appending loops of `selectDrainTargets` select.
use std.Path.{subst}
use fast_sandbox.Base.{
  ◌≡◌, refl, sym, ap, ◌∙◌, ◌⊎◌, inl, inr, ℕ, ◌≤◌, true, false, ◌||◌, Option, none, some, List, [],
  ◌∷◌, ◌++◌, length, length-append, All, All-append, All-map, Mem, mem-cons_self, mem-cons_of_mem,
  String, ◌==◌, nat_equality, text_equality, eq_iff, leb, arith, Bool-cases, Option-cases,
}
use fast_sandbox.PoolSizing.Scaling.{FastletPod, pod_identity, scale_down_reason}
use fast_sandbox.PoolSizing.Selection.{
  DrainTarget, is_selected, has_text, find_pod, append_target, append_targets, last_pod,
  append_preferred,
}

abbrev pub Distinct : List DrainTarget → Type 0
Distinct [] = Unit {0}
Distinct (t ∷ rest) = (is_selected (pod_identity t.target) rest ≡ false) × Distinct rest

is_selected-append :
    (identity : String) (selected : List DrainTarget) (t : DrainTarget)
    → is_selected identity (selected ++ t ∷ [])
      ≡ (is_selected identity selected || pod_identity t.target == identity)
unfolding is_selected
is_selected-append identity [] t = ground arith
is_selected-append identity (s ∷ rest) t = ground (arith, is_selected-append identity rest t)

Distinct-append :
    (selected : List DrainTarget) (t : DrainTarget)
    → is_selected (pod_identity t.target) selected ≡ false
    → Distinct selected
    → Distinct (selected ++ t ∷ [])
unfolding is_selected
Distinct-append [] t new d = (refl, tt)
Distinct-append (s ∷ rest) t new (first, d) = (
  ground (
    arith,
    is_selected-append (pod_identity s.target) rest t,
    eq_iff (pod_identity s.target) (pod_identity t.target),
    eq_iff (pod_identity t.target) (pod_identity s.target),
  ),
  Distinct-append rest t (ground arith) d,
)

module _ (count : ℕ) (P : DrainTarget → Type 0) where
  abbrev pub Within : List DrainTarget → Type 0
  Within selected = (length selected ≤ count) × Distinct selected × All P selected

  append_target-Within :
      (reason : String) (p : FastletPod) (selected : List DrainTarget)
      → P (record { target = p; why = reason })
      → Within selected
      → Within (append_target count reason p selected)
  unfolding append_target
  append_target-Within reason p selected fits (bound, distinct, all) =
      elim (Bool-cases (leb count (length selected) || is_selected (pod_identity p) selected)) [
        | inl e ↦ rw e (bound, distinct, all)
        | inr e ↦
            let t : DrainTarget = record { target = p; why = reason } in
            rw e (
              ground (arith, length-append selected (t ∷ [])),
              Distinct-append selected t (ground arith) distinct,
              All-append P selected (t ∷ []) all (fits, tt),
            )
      ]

  pub append_targets-Within :
      (reason : String) (pods : List FastletPod) (selected : List DrainTarget)
      → All (λ p. P (record { target = p; why = reason })) pods
      → Within selected
      → Within (append_targets count reason pods selected)
  unfolding append_targets
  append_targets-Within reason [] selected fits w = w
  append_targets-Within reason (p ∷ rest) selected (first, fits) w =
      append_targets-Within reason rest (append_target count reason p selected) fits
        (append_target-Within reason p selected first w)

  pub append_preferred-Within :
      (available : List FastletPod) (preferred : List String) (selected : List DrainTarget)
      → All
          (λ identity.
            (p : FastletPod)
            → find_pod identity available ≡ some p
            → P (record { target = p; why = scale_down_reason }))
          preferred
      → Within selected
      → Within (append_preferred count available preferred selected)
  unfolding append_preferred
  append_preferred-Within available [] selected fits w = w
  append_preferred-Within available (identity ∷ rest) selected (first, fits) w =
      elim (Option-cases (find_pod identity available)) [
        | inl e ↦ rw e (append_preferred-Within available rest selected fits w)
        | inr (p, e) ↦ rw e (
            append_preferred-Within available rest
              (append_target count scale_down_reason p selected) fits
              (append_target-Within scale_down_reason p selected (first p e) w))
      ]

last_pod-cases :
    (identity : String) (first p : FastletPod) (later : Option FastletPod)
    → last_pod identity first later ≡ some p
    → (later ≡ some p) ⊎ ((first ≡ p) × (pod_identity first ≡ identity))
last_pod-cases identity first p (some found) e = inl e
last_pod-cases identity first p none e = ground (arith, eq_iff (pod_identity first) identity)

pub find_pod-Mem :
    (identity : String) (pods : List FastletPod) (p : FastletPod)
    → find_pod identity pods ≡ some p
    → Mem p pods × (pod_identity p ≡ identity)
unfolding find_pod
find_pod-Mem identity [] p e = absurd (cc e)
find_pod-Mem identity (first ∷ rest) p e =
    elim (last_pod-cases identity first p (find_pod identity rest) e) [
      | inl found ↦
          let (m, same) = find_pod-Mem identity rest p found in (mem-cons_of_mem first m, same)
      | inr (same, named) ↦
          (subst (λ x. Mem x (first ∷ rest)) same mem-cons_self, ap pod_identity (sym same) ∙ named)
    ]

-- Every identity of the list is one of the list's.
pub has_text-All : (all : List String) → All (λ s. has_text s all ≡ true) all
has_text-All [] = tt
has_text-All (s ∷ rest) =
    (ground (arith, eq_iff s s), All-map rest (λ x h. ground arith) (has_text-All rest))

append_target-keeps :
    (count : ℕ) (reason identity : String) (p : FastletPod) (selected : List DrainTarget)
    → is_selected identity selected ≡ true
    → is_selected identity (append_target count reason p selected) ≡ true
unfolding append_target
append_target-keeps count reason identity p selected h =
    ground (arith, is_selected-append identity selected (record { target = p; why = reason }))

append_targets-keeps :
    (count : ℕ) (reason identity : String) (pods : List FastletPod) (selected : List DrainTarget)
    → is_selected identity selected ≡ true
    → is_selected identity (append_targets count reason pods selected) ≡ true
unfolding append_targets
append_targets-keeps count reason identity [] selected h = h
append_targets-keeps count reason identity (p ∷ rest) selected h =
    append_targets-keeps count reason identity rest (append_target count reason p selected)
      (append_target-keeps count reason identity p selected h)

append_target-longer :
    (count : ℕ) (reason : String) (p : FastletPod) (selected : List DrainTarget)
    → length selected ≤ length (append_target count reason p selected)
unfolding append_target
append_target-longer count reason p selected =
    ground (arith, length-append selected (record { target = p; why = reason } ∷ []))

append_targets-longer :
    (count : ℕ) (reason : String) (pods : List FastletPod) (selected : List DrainTarget)
    → length selected ≤ length (append_targets count reason pods selected)
unfolding append_targets
append_targets-longer count reason [] selected = omega arith
append_targets-longer count reason (p ∷ rest) selected = omega (
  arith,
  append_target-longer count reason p selected,
  append_targets-longer count reason rest (append_target count reason p selected),
)

append_target-Full :
    (count : ℕ) (reason : String) (p : FastletPod) (selected : List DrainTarget)
    → (count ≤ length (append_target count reason p selected))
      ⊎ (is_selected (pod_identity p) (append_target count reason p selected) ≡ true)
unfolding append_target
append_target-Full count reason p selected = ground (
  arith,
  is_selected-append (pod_identity p) selected (record { target = p; why = reason }),
  eq_iff (pod_identity p) (pod_identity p),
)

-- The loop ends with enough targets, or has taken every Pod.
pub append_targets-Full :
    (count : ℕ) (reason : String) (pods : List FastletPod) (selected : List DrainTarget)
    → (count ≤ length (append_targets count reason pods selected))
      ⊎ All
          (λ p. is_selected (pod_identity p) (append_targets count reason pods selected) ≡ true)
          pods
unfolding append_targets
append_targets-Full count reason [] selected = inr tt
append_targets-Full count reason (p ∷ rest) selected =
    let next = append_target count reason p selected in
    elim (append_target-Full count reason p selected) [
      | inl enough ↦ inl (omega (arith, enough, append_targets-longer count reason rest next))
      | inr taken ↦ elim (append_targets-Full count reason rest next) [
        | inl enough ↦ inl enough
        | inr all ↦ inr (append_targets-keeps count reason (pod_identity p) rest next taken, all)
      ]
    ]
