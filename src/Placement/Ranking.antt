-- ===== src/Placement/Ranking.antt =====
-- placement/registry.go: the order of `sort.Slice` in `TopK`.
use mathlib.Core.List.{Perm}
use mathlib.Core.List.Perm
use fast_sandbox.Base.{
  ℕ, zero, suc, ◌≡◌, refl, true, false, List, [], ◌∷◌, Bool-cases, text_lt-asym, arith, ap,
  text_equality, nat_equality, int_equality, ◌∙◌, All, inl, inr, length, take-All,
}
use fast_sandbox.Placement.Quantity.{Quantities}
use fast_sandbox.Placement.TopK.{
  Floats, Ranked, before, before_stable, before_server, before_load, insert_ranked, sort_ranked,
  first,
}

module _ (q : Quantities) (fl : Floats) where
  open q use {Quantity}

  abbrev pub Row : Type 0
  Row = Ranked q fl

  stable-asym : (a b : Row) → before_stable q fl a b ≡ true → before_stable q fl b a ≡ false
  stable-asym a b e = ground (arith, text_lt-asym a.info.id b.info.id)

  server-asym : (a b : Row) → before_server q fl a b ≡ true → before_server q fl b a ≡ false
  server-asym a b e = ground (arith, stable-asym a b)

  load-asym : (a b : Row) → before_load q fl a b ≡ true → before_load q fl b a ≡ false
  load-asym a b e = ground (arith, server-asym a b)

  before-asym : (a b : Row) → before q fl a b ≡ true → before q fl b a ≡ false
  unfolding before
  before-asym a b e = ground (arith, load-asym a b)

  -- No row is before the row that stands in front of it.
  abbrev pub Unbroken : List Row → Type 0
  Unbroken [] = Unit
  Unbroken (a ∷ []) = Unit
  Unbroken (a ∷ b ∷ rest) = (before q fl b a ≡ false) × Unbroken (b ∷ rest)

  insert_behind-Unbroken :
      (a b : Row) (bs : List Row)
      → before q fl a b ≡ false
      → Unbroken (b ∷ bs)
      → Unbroken (b ∷ insert_ranked q fl a bs)
  unfolding insert_ranked
  insert_behind-Unbroken a b [] e sorted = (e, tt)
  insert_behind-Unbroken a b (c ∷ cs) e (x, sorted) = elim (Bool-cases (before q fl a c)) [
    | inl f ↦ rw (f) (e, (before-asym a c f, sorted))
    | inr f ↦ rw (f) (x, insert_behind-Unbroken a c cs f sorted)
  ]

  insert_ranked-Unbroken :
      (a : Row) (bs : List Row) → Unbroken bs → Unbroken (insert_ranked q fl a bs)
  unfolding insert_ranked
  insert_ranked-Unbroken a [] sorted = tt
  insert_ranked-Unbroken a (b ∷ bs) sorted = elim (Bool-cases (before q fl a b)) [
    | inl e ↦ rw (e) (before-asym a b e, sorted)
    | inr e ↦ rw (e) (insert_behind-Unbroken a b bs e sorted)
  ]

  insert_ranked-Perm : (a : Row) (bs : List Row) → Perm (a ∷ bs) (insert_ranked q fl a bs)
  unfolding insert_ranked
  insert_ranked-Perm a [] = Perm.refl (a ∷ [])
  insert_ranked-Perm a (b ∷ bs) = elim (Bool-cases (before q fl a b)) [
    | inl e ↦ rw (e) (Perm.refl (a ∷ b ∷ bs))
    | inr e ↦ rw (e) (Perm.trans (Perm.swap b a bs) (Perm.cons b (insert_ranked-Perm a bs)))
  ]

  pub sort_ranked-Perm : (rows : List Row) → Perm rows (sort_ranked q fl rows)
  unfolding sort_ranked
  sort_ranked-Perm [] = Perm.refl []
  sort_ranked-Perm (a ∷ rest) =
      Perm.trans (Perm.cons a (sort_ranked-Perm rest))
        (insert_ranked-Perm a (sort_ranked q fl rest))

  pub sort_ranked-Unbroken : (rows : List Row) → Unbroken (sort_ranked q fl rows)
  unfolding sort_ranked
  sort_ranked-Unbroken [] = tt
  sort_ranked-Unbroken (a ∷ rest) =
      insert_ranked-Unbroken a (sort_ranked q fl rest) (sort_ranked-Unbroken rest)

  insert_ranked-All :
      (P : Row → Type 0) (a : Row) (bs : List Row)
      → P a
      → All P bs
      → All P (insert_ranked q fl a bs)
  unfolding insert_ranked
  insert_ranked-All P a [] p ps = (p, tt)
  insert_ranked-All P a (b ∷ bs) p (pb, ps) = elim (Bool-cases (before q fl a b)) [
    | inl e ↦ rw (e) (p, (pb, ps))
    | inr e ↦ rw (e) (pb, insert_ranked-All P a bs p ps)
  ]

  pub sort_ranked-All :
      (P : Row → Type 0) (rows : List Row) → All P rows → All P (sort_ranked q fl rows)
  unfolding sort_ranked
  sort_ranked-All P [] ps = tt
  sort_ranked-All P (a ∷ rest) (p, ps) =
      insert_ranked-All P a (sort_ranked q fl rest) p (sort_ranked-All P rest ps)

  pub first-All :
      (P : Row → Type 0) (k : ℕ) (rows : List Row) → All P rows → All P (first q fl k rows)
  first-All P zero rows ps = ps
  first-All P (suc k) rows ps = take-All P (suc k) rows ps

  length-insert_ranked :
      (a : Row) (bs : List Row) → length (insert_ranked q fl a bs) ≡ suc (length bs)
  unfolding insert_ranked
  length-insert_ranked a [] = refl
  length-insert_ranked a (b ∷ bs) = elim (Bool-cases (before q fl a b)) [
    | inl e ↦ rw (e) refl
    | inr e ↦ rw (e) (ap suc (length-insert_ranked a bs))
  ]

  pub length-sort_ranked : (rows : List Row) → length (sort_ranked q fl rows) ≡ length rows
  unfolding sort_ranked
  length-sort_ranked [] = refl
  length-sort_ranked (a ∷ rest) =
      length-insert_ranked a (sort_ranked q fl rest) ∙ ap suc (length-sort_ranked rest)
