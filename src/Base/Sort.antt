-- ===== src/Base/Sort.antt =====
-- `sort.SliceStable` and `sort.Slice` as an insertion sort: an item goes behind those that are less.
use mathlib.Core.Path.{◌≡◌}
use mathlib.Core.Bool.{Bool}
use mathlib.Core.Logic.{inl, inr}
use mathlib.Core.List.{List, [], ◌∷◌, Perm}
use mathlib.Core.List.Perm
use native.Mathlib.Omega.{arith}
use Prim.Native.Nat.{◌+◌}
use fast_sandbox.Base.Lists.{All, length}
use fast_sandbox.Base.Tests.{if◌then◌else◌, Bool-cases}

module _ {ℓ} {A : Type ℓ} (less : A → A → Bool) where
  unfoldable pub insert_by : A → List A → List A
  insert_by a [] = a ∷ []
  insert_by a (b ∷ bs) = let rest = insert_by a bs in if less b a then b ∷ rest else a ∷ b ∷ bs

  unfoldable pub sort_by : List A → List A
  unfolding insert_by
  sort_by [] = []
  sort_by (a ∷ rest) = insert_by a (sort_by rest)

  insert_by-Perm : (a : A) (bs : List A) → Perm (a ∷ bs) (insert_by a bs)
  unfolding insert_by
  insert_by-Perm a [] = Perm.refl (a ∷ [])
  insert_by-Perm a (b ∷ bs) = elim (Bool-cases (less b a)) [
    | inl e ↦ rw e (Perm.trans (Perm.swap b a bs) (Perm.cons b (insert_by-Perm a bs)))
    | inr e ↦ rw e (Perm.refl (a ∷ b ∷ bs))
  ]

  pub sort_by-Perm : (as' : List A) → Perm as' (sort_by as')
  unfolding sort_by
  sort_by-Perm [] = Perm.refl []
  sort_by-Perm (a ∷ rest) =
      Perm.trans (Perm.cons a (sort_by-Perm rest)) (insert_by-Perm a (sort_by rest))

  length-insert_by : (a : A) (bs : List A) → length (insert_by a bs) ≡ length bs + 1
  unfolding insert_by
  length-insert_by a [] = omega arith
  length-insert_by a (b ∷ bs) = elim (Bool-cases (less b a)) [
    | inl e ↦ rw e (omega (arith, length-insert_by a bs))
    | inr e ↦ rw e (omega arith)
  ]

  pub length-sort_by : (as' : List A) → length (sort_by as') ≡ length as'
  unfolding sort_by
  length-sort_by [] = omega arith
  length-sort_by (a ∷ rest) = omega (arith, length-sort_by rest, length-insert_by a (sort_by rest))

  insert_by-All {κ} :
      (P : A → Type κ) (a : A) (bs : List A) → P a → All P bs → All P (insert_by a bs)
  unfolding insert_by
  insert_by-All P a [] p ps = (p, ps)
  insert_by-All P a (b ∷ bs) p (p', ps) = elim (Bool-cases (less b a)) [
    | inl e ↦ rw e (p', insert_by-All P a bs p ps)
    | inr e ↦ rw e (p, (p', ps))
  ]

  pub sort_by-All {κ} : (P : A → Type κ) (as' : List A) → All P as' → All P (sort_by as')
  unfolding sort_by
  sort_by-All P [] ps = ps
  sort_by-All P (a ∷ rest) (p, ps) = insert_by-All P a (sort_by rest) p (sort_by-All P rest ps)

  insert_by-All_inv {κ} :
      (P : A → Type κ) (a : A) (bs : List A) → All P (insert_by a bs) → P a × All P bs
  unfolding insert_by
  insert_by-All_inv P a [] ps = ps
  insert_by-All_inv P a (b ∷ bs) ps = elim (Bool-cases (less b a)) [
    | inl e ↦
        let qs : All P (b ∷ insert_by a bs) = rw e at ps in
        let (p, rest) = insert_by-All_inv P a bs qs.1 in (p, (qs.0, rest))
    | inr e ↦ let qs : All P (a ∷ b ∷ bs) = rw e at ps in (qs.0, qs.1)
  ]

  pub sort_by-All_inv {κ} : (P : A → Type κ) (as' : List A) → All P (sort_by as') → All P as'
  unfolding sort_by
  sort_by-All_inv P [] ps = ps
  sort_by-All_inv P (a ∷ rest) ps =
      let (p, qs) = insert_by-All_inv P a (sort_by rest) ps in (p, sort_by-All_inv P rest qs)
