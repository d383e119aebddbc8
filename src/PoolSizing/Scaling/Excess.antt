-- ===== src/PoolSizing/Scaling/Excess.antt =====
-- What the loop over the candidates for removal takes and leaves.
use fast_sandbox.Base.{
  ◌≡◌, refl, sym, ap, ◌∙◌, ◌⊎◌, inl, inr, ℕ, suc, Bool, true, false, ◌||◌, List, [], ◌∷◌, length,
  nat_equality, text_equality, int_equality, All, ltb, ℤ, pos, pos_part, neg_part, ◌+ℤ◌, ◌-ℤ◌, ◌≤ℤ◌,
  ltb_ℤ, leb_ℤ, arith, int_laws, -ℤ_parts, Bool-cases,
}
use fast_sandbox.PoolSizing.Scaling.{DrainCandidate, remove_excess}

-- The free slots of some candidates together.
abbrev pub freed : List DrainCandidate → ℤ
freed [] = pos 0
freed (c ∷ rest) = c.free_count +ℤ freed rest

-- What the loop leaves: the Pods and free slots without those taken, and if it took any, no fewer Pods
-- than the minimum and no fewer free slots than are to be kept.
abbrev pub Left : ℤ → ℤ → ℤ → ℤ → List DrainCandidate × ℤ × ℤ → Type 0
Left pool_min retained available desired r =
    (r.2 +ℤ pos (length r.0) ≡ desired)
    × (r.1 +ℤ freed r.0 ≡ available)
    × ((r.0 ≡ []) ⊎ ((pool_min ≤ℤ r.2) × (retained ≤ℤ r.1)))

plus_zero : (a : ℤ) → a +ℤ pos 0 ≡ a
plus_zero a = omega int_laws

one_more : (a d : ℤ) (n : ℕ) → a +ℤ pos n ≡ d -ℤ pos 1 → a +ℤ pos (suc n) ≡ d
one_more a d n e = omega (int_laws, ap pos_part e, ap neg_part e)

free_more : (a d f c : ℤ) → a +ℤ f ≡ d -ℤ c → a +ℤ (c +ℤ f) ≡ d
free_more a d f c e = omega (int_laws, ap pos_part e, ap neg_part e)

stops-Left :
    (pool_min retained available desired : ℤ)
    → Left pool_min retained available desired ([], available, desired)
stops-Left pool_min retained available desired = (plus_zero desired, plus_zero available, inl refl)

still_above :
    (pool_min desired : ℤ) → leb_ℤ desired pool_min ≡ false → pool_min ≤ℤ (desired -ℤ pos 1)
still_above pool_min desired h = ground (arith, -ℤ_parts desired (pos 1))

still_free : (a retained : ℤ) → ltb_ℤ a retained ≡ false → retained ≤ℤ a
still_free a retained h = ground arith

neither_true : (a b : Bool) → (a || b) ≡ false → (a ≡ false) × (b ≡ false)
neither_true a b h = ground arith

-- The last one that is taken.
last-Left :
    (pool_min retained desired available : ℤ) (taken : List DrainCandidate) (pods free : ℤ)
    → leb_ℤ desired pool_min ≡ false
    → ltb_ℤ available retained ≡ false
    → pods +ℤ pos (length taken) ≡ desired -ℤ pos 1
    → free +ℤ freed taken ≡ available
    → taken ≡ []
    → (pool_min ≤ℤ pods) × (retained ≤ℤ free)
last-Left pool_min retained desired available taken pods free above enough p f none_left =
    let pods_same : pods ≡ desired -ℤ pos 1 =
      sym (plus_zero pods) ∙ sym (ap (λ cs. pods +ℤ pos (length cs)) none_left) ∙ p in
    let free_same : free ≡ available =
      sym (plus_zero free) ∙ sym (ap (λ cs. free +ℤ freed cs) none_left) ∙ f in
    (
      rw pods_same (still_above pool_min desired above),
      rw free_same (still_free available retained enough),
    )

takes-Left :
    (pool_min retained available desired : ℤ) (c : DrainCandidate) (r : List DrainCandidate × ℤ × ℤ)
    → (leb_ℤ desired pool_min || ltb_ℤ (available -ℤ c.free_count) retained) ≡ false
    → Left pool_min retained (available -ℤ c.free_count) (desired -ℤ pos 1) r
    → Left pool_min retained available desired (c ∷ r.0, r.1, r.2)
takes-Left pool_min retained available desired c (taken, free, pods) enough (p, f, kept) = (
  one_more pods desired (length taken) p,
  free_more free available (freed taken) c.free_count f,
  inr (elim kept [
    | inl e ↦
        let (above, left) = neither_true _ _ enough in
        last-Left pool_min retained desired (available -ℤ c.free_count) taken pods free above left p
          f e
    | inr k ↦ k
  ]),
)

pub remove_excess-Left :
    (pool_min retained : ℤ) (cs : List DrainCandidate) (available desired : ℤ)
    → Left pool_min retained available desired
        (remove_excess pool_min retained cs available desired)
unfolding remove_excess
remove_excess-Left pool_min retained [] available desired =
    stops-Left pool_min retained available desired
remove_excess-Left pool_min retained (c ∷ rest) available desired =
    elim (Bool-cases (leb_ℤ desired pool_min || ltb_ℤ (available -ℤ c.free_count) retained)) [
      | inl stop ↦ rw stop (stops-Left pool_min retained available desired)
      | inr go ↦ rw go (
          takes-Left pool_min retained available desired c
            (remove_excess pool_min retained rest (available -ℤ c.free_count) (desired -ℤ pos 1)) go
            (remove_excess-Left pool_min retained rest (available -ℤ c.free_count)
              (desired -ℤ pos 1)))
    ]

pub zero_lt_suc : (n : ℕ) → ltb 0 (suc n) ≡ true
zero_lt_suc n = ground arith

pub remove_excess-All :
    (P : DrainCandidate → Type 0) (pool_min retained : ℤ) (cs : List DrainCandidate)
    (available desired : ℤ)
    → All P cs
    → All P (remove_excess pool_min retained cs available desired).0
unfolding remove_excess
remove_excess-All P pool_min retained [] available desired ps = tt
remove_excess-All P pool_min retained (c ∷ rest) available desired (p, ps) =
    elim (Bool-cases (leb_ℤ desired pool_min || ltb_ℤ (available -ℤ c.free_count) retained)) [
      | inl stop ↦ rw stop tt
      | inr go ↦ rw go (
        p,
        remove_excess-All P pool_min retained rest (available -ℤ c.free_count) (desired -ℤ pos 1)
            ps,
      )
    ]
