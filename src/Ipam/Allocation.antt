-- ===== src/Ipam/Allocation.antt =====
-- What `Allocate` returns, and when it returns an error.

use fast_sandbox.Base.{
  ℕ, zero, suc, ◌+◌, ◌≤◌, ◌<◌, ◌≡◌, refl, Bool, true, false, Option, none, some, leb, leb→le, arith,
  sym, ◌∙◌, Bool-cases, inl, inr,
}
use fast_sandbox.Ipam.{
  Prefix, Ipam, limit, size_of, prefix_contains, new_ipam, taken, walk, allocate,
}

new_ipam-gateway :
    (p : Option Prefix) (reserve_guest : Bool) (i : Ipam)
    → new_ipam p reserve_guest ≡ some i
    → i.gateway ≡ i.base + 1
unfolding new_ipam
new_ipam-gateway none reserve_guest i e = cc
new_ipam-gateway (some p) reserve_guest i e = ground arith

-- What an outcome of the walk from address `a` says.
Outcome : Ipam → (ℕ → Bool) → ℕ → Option (ℕ × ℕ) → Type 0
Outcome i used a none = (c : ℕ) → a ≤ c → c + 1 < limit i → taken i used c ≡ true
Outcome i used a (some (c, bits)) =
    (a ≤ c) × (c + 1 < limit i) × (taken i used c ≡ false) × (bits ≡ i.prefix_bits)

over-Outcome : (i : Ipam) (used : ℕ → Bool) (a : ℕ) → limit i ≤ a + 1 → Outcome i used a none
unfolding Outcome
over-Outcome i used a h = λ c le lt. absurd (omega (arith, h, le, lt))

later-Outcome :
    (i : Ipam) (used : ℕ → Bool) (a : ℕ) (o : Option (ℕ × ℕ))
    → taken i used a ≡ true
    → Outcome i used (a + 1) o
    → Outcome i used a o
unfolding Outcome
later-Outcome i used a none e h = λ c le lt. elim (Bool-cases (leb (a + 1) c)) [
  | inl later ↦ h c (leb→le _ _ later) lt
  | inr here ↦ let same : a ≡ c = ground arith in rw (← same) e
]
later-Outcome i used a (some (c, bits)) e (le, lt, free, same) = (omega (arith, le), lt, free, same)

contains-below : (i : Ipam) (a : ℕ) → prefix_contains i a ≡ true → a < limit i
contains-below i a e = ground arith

found-Outcome :
    (i : Ipam) (used : ℕ → Bool) (a : ℕ)
    → a + 1 < limit i
    → taken i used a ≡ false
    → Outcome i used a (some (a, i.prefix_bits))
unfolding Outcome
found-Outcome i used a lt free = (omega arith, lt, free, refl)

walk-Outcome :
    (i : Ipam) (used : ℕ → Bool) (n a : ℕ)
    → i.base ≤ a
    → limit i ≤ a + n
    → Outcome i used a (walk i used n a)
unfolding walk
walk-Outcome i used zero a low fuel = over-Outcome i used a (omega (arith, fuel))
walk-Outcome i used (suc n) a low fuel = elim (Bool-cases (prefix_contains i a)) [
  | inr out ↦ rw out (over-Outcome i used a (ground arith))
  | inl here ↦ elim (Bool-cases (prefix_contains i (a + 1))) [
    | inr last ↦ rw (here, last) (over-Outcome i used a (ground arith))
    | inl next ↦ elim (Bool-cases (taken i used a)) [
      | inl t ↦
          rw (here, next, t)
            (later-Outcome i used a _ t
              (walk-Outcome i used n (a + 1) (omega (arith, low)) (omega (arith, fuel))))
      | inr f ↦ rw (here, next, f) (found-Outcome i used a (contains-below i (a + 1) next) f)
    ]
  ]
]

allocate-Outcome :
    (p : Option Prefix) (reserve_guest : Bool) (i : Ipam) (used : ℕ → Bool)
    → new_ipam p reserve_guest ≡ some i
    → Outcome i used (i.gateway + 1) (allocate i used)
unfolding allocate
allocate-Outcome p reserve_guest i used e =
    let at_gateway = new_ipam-gateway p reserve_guest i e in
    walk-Outcome i used (size_of i.prefix_bits) (i.gateway + 1) (omega (arith, at_gateway))
      (omega (arith, at_gateway))

Outcome-free :
    (i : Ipam) (used : ℕ → Bool) (o : Option (ℕ × ℕ)) (a bits : ℕ)
    → o ≡ some (a, bits)
    → Outcome i used (i.gateway + 1) o
    → (i.gateway < a) × (a + 1 < limit i) × (taken i used a ≡ false) × (bits ≡ i.prefix_bits)
unfolding Outcome
Outcome-free i used none a bits e h = cc
Outcome-free i used (some (c, bits')) a bits e (le, lt, free, same) =
    let at_c : c ≡ a = cc e in
    let length : bits' ≡ bits = cc e in
    (omega (arith, le, at_c), omega (arith, lt, at_c), rw (← at_c) free, sym length ∙ same)

Outcome-exhausted :
    (i : Ipam) (used : ℕ → Bool) (o : Option (ℕ × ℕ)) (c : ℕ)
    → o ≡ none
    → Outcome i used (i.gateway + 1) o
    → i.gateway < c
    → c + 1 < limit i
    → taken i used c ≡ true
unfolding Outcome
Outcome-exhausted i used none c e h low lt = h c (omega (arith, low)) lt
Outcome-exhausted i used (some x) c e h low lt = cc

-- An address that the allocator of a prefix gives out lies between the gateway and the last address of
-- the prefix, is neither used nor the reserved guest address, and comes with the prefix's length.
pub allocate-new_ipam :
    (p : Option Prefix) (reserve_guest : Bool) (i : Ipam) (used : ℕ → Bool) (a bits : ℕ)
    → new_ipam p reserve_guest ≡ some i
    → allocate i used ≡ some (a, bits)
    → (i.gateway < a) × (a + 1 < limit i) × (taken i used a ≡ false) × (bits ≡ i.prefix_bits)
allocate-new_ipam p reserve_guest i used a bits made e =
    Outcome-free i used (allocate i used) a bits e (allocate-Outcome p reserve_guest i used made)

-- The allocator of a prefix gives an error only when every address between the gateway and the last
-- address of the prefix is used or the reserved guest address.
pub allocate-none :
    (p : Option Prefix) (reserve_guest : Bool) (i : Ipam) (used : ℕ → Bool) (c : ℕ)
    → new_ipam p reserve_guest ≡ some i
    → allocate i used ≡ none
    → i.gateway < c
    → c + 1 < limit i
    → taken i used c ≡ true
allocate-none p reserve_guest i used c made e low lt =
    Outcome-exhausted i used (allocate i used) c e (allocate-Outcome p reserve_guest i used made)
      low lt
