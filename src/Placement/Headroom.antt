-- ===== src/Placement/Headroom.antt =====
-- placement/registry.go: the number of Sandboxes that a Fastlet still takes.
use Prim.Native.Nat.{◌^◌, min}
use native.Mathlib.Nat.{mul-le-mul_right}
use fast_sandbox.Base.{
  ℕ, ◌*◌, ◌/◌, ◌≤◌, ◌<◌, ◌≡◌, refl, Bool, true, false, not, ◌&&◌, ◌||◌, ◌-ℤ◌, ◌⊎◌, inl, inr, arith,
  ◌∙◌, Bool-cases, if◌then◌else◌, pos, pos_part, leb_ℤ,
}
use fast_sandbox.Placement.Quantity.{Quantities}
use fast_sandbox.Placement.Types.{Demand, FastletInfo, scheduling_used, slot_capacity}
use fast_sandbox.Placement.Capacity.{
  int32, resource_schedulability, fits, effective_free_capacity, free_slots_of, free_of, View,
  quotient, no_view, in_service,
}

div-mul_le : (a b : ℕ) → (a / b) * b ≤ a
div-mul_le a b = omega arith

int32-small : (n : ℕ) → n < 2 ^ 31 → int32 n ≡ pos n
int32-small n lt = ground arith

int32-bounds : (n : ℕ) → (pos_part (int32 n) ≤ n) × (pos_part (int32 n) < 2 ^ 31)
int32-bounds n = ground arith

within_share : (n a d : ℕ) → n ≤ a / d → n * d ≤ a
within_share n a d le = omega (arith, mul-le-mul_right d le, div-mul_le a d)

least : (a b c : ℕ) → (min (min a b) c ≤ a) × (min (min a b) c ≤ b) × (min (min a b) c ≤ c)
least a b c = (omega arith, omega arith, omega arith)

pick-cases :
    {A : Type 0} (b : Bool) (x y : A) → ((if b then x else y) ≡ y) ⊎ ((if b then x else y) ≡ x)
pick-cases true x y = inr refl
pick-cases false x y = inl refl

module _ (q : Quantities) where
  open q use {Quantity, milli_value, value, is_positive}

  abbrev Info : Type 0
  Info = FastletInfo Quantity

  abbrev offered : Info → View q
  offered i = record {
    schedulable = true;
    free_slots = free_slots_of q i;
    free_resources = free_of q i;
  }

  resource_schedulability-cases :
      (i : Info) (now stale_after : ℕ)
      → (resource_schedulability q i now stale_after ≡ no_view q)
        ⊎ (resource_schedulability q i now stale_after ≡ offered i)
  unfolding resource_schedulability
  resource_schedulability-cases i now stale_after =
      pick-cases
        (in_service q i now stale_after
          && not (
              leb_ℤ (free_slots_of q i) (pos 0)
              || not (is_positive (free_of q i).cpu)
              || not (is_positive (free_of q i).memory)))
        (offered i) (no_view q)

  -- `n` more Sandboxes of the demand are within the free slots and the free resources.
  abbrev pub Fit : Info → Demand Quantity → ℕ → Type 0
  Fit i d n =
      (n ≤ pos_part (slot_capacity i -ℤ scheduling_used i))
      × (n * pos_part (milli_value d.cpu) ≤ pos_part (milli_value (free_of q i).cpu))
      × (n * pos_part (value d.memory) ≤ pos_part (value (free_of q i).memory))

  share : Info → Demand Quantity → ℕ
  share i d =
      min
        (min (pos_part (free_slots_of q i))
          (quotient q (milli_value (free_of q i).cpu) (milli_value d.cpu)))
        (quotient q (value (free_of q i).memory) (value d.memory))

  share-Fit : (i : Info) (d : Demand Quantity) → (share i d < 2 ^ 31) × Fit i d (share i d)
  unfolding share
  share-Fit i d =
      let (slots, small) = int32-bounds (pos_part (slot_capacity i -ℤ scheduling_used i)) in
      let (a, b, c) =
        least (pos_part (free_slots_of q i))
          (quotient q (milli_value (free_of q i).cpu) (milli_value d.cpu))
          (quotient q (value (free_of q i).memory) (value d.memory)) in
      (
        omega (arith, a, small),
        (omega (arith, a, slots), within_share (share i d) _ _ b, within_share (share i d) _ _ c),
      )

  effective-cases :
      (i : Info) (d : Demand Quantity) (now stale_after : ℕ)
      → (effective_free_capacity q i d now stale_after ≡ pos 0)
        ⊎ (effective_free_capacity q i d now stale_after ≡ int32 (share i d))
  unfolding effective_free_capacity fits share
  effective-cases i d now stale_after = elim (resource_schedulability-cases i now stale_after) [
    | inl e ↦ inl (rw (e) refl)
    | inr e ↦ rw (e) (elim (Bool-cases (fits q (offered i) d)) [
      | inl f ↦ inr (rw (f) refl)
      | inr f ↦ inl (rw (f) refl)
    ])
  ]

  -- What `effective_free_capacity` gives is a count: that many more Sandboxes of the demand take no
  -- more than the free slots, the free CPU and the free memory of the Fastlet.
  pub effective_free_capacity-Fit :
      (i : Info) (d : Demand Quantity) (now stale_after : ℕ)
      → (n : ℕ) × (effective_free_capacity q i d now stale_after ≡ pos n) × Fit i d n
  effective_free_capacity-Fit i d now stale_after = elim (effective-cases i d now stale_after) [
    | inl e ↦ (0, e, ground arith)
    | inr e ↦
        let (small, fit) = share-Fit i d in (share i d, e ∙ int32-small (share i d) small, fit)
  ]
