-- ===== src/AgentState/Held.antt =====
-- How many leases name an image.
use fast_sandbox.Base.{
  ℕ, ◌+◌, ◌≤◌, ◌≡◌, ap, inl, inr, some, [], ◌∷◌, String, Dict, lookup, insert, remove, Bool-cases,
  ◌==◌, text_equality, if◌then◌else◌, arith,
}
use fast_sandbox.AgentState.Leases.{Lease}

abbrev pub weight : String → Lease → ℕ
weight i l = if l.image == i then 1 else 0

unfoldable pub held : String → Dict Lease → ℕ
held i [] = 0
held i ((k, l) ∷ m) = weight i l + held i m

pub held-insert-le :
    (i k : String) (l : Lease) (m : Dict Lease) → held i (insert k l m) ≤ weight i l + held i m
unfolding held insert
held-insert-le i k l [] = omega arith
held-insert-le i k l ((j, w) ∷ m) = elim (Bool-cases (j == k)) [
  | inl e ↦ rw e (omega arith)
  | inr e ↦ rw e (omega (arith, held-insert-le i k l m))
]

held-remove-le : (i k : String) (m : Dict Lease) → held i (remove k m) ≤ held i m
unfolding held remove
held-remove-le i k [] = omega arith
held-remove-le i k ((j, w) ∷ m) = elim (Bool-cases (j == k)) [
  | inl e ↦ rw e (omega (arith, held-remove-le i k m))
  | inr e ↦ rw e (omega (arith, held-remove-le i k m))
]

pub held-remove :
    (i k : String) (l : Lease) (m : Dict Lease)
    → lookup k m ≡ some l
    → held i (remove k m) + weight i l ≤ held i m
unfolding held remove lookup
held-remove i k l [] h = cc
held-remove i k l ((j, w) ∷ m) h = elim (Bool-cases (j == k)) [
  | inl e ↦
      let same : w ≡ l = cc (rw e at h) in
      rw e (omega (arith, held-remove-le i k m, ap (weight i) same))
  | inr e ↦ rw e (omega (arith, held-remove i k l m (rw e at h)))
]
