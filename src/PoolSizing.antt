-- ===== src/PoolSizing.antt =====
-- internal/controlplane/reconciler/sandboxpool_controller.go: how many Fastlets a pool needs for the
-- Sandboxes that wait, `additionalFastletsForDemands`.
--
-- Slot counts are integers: they are far below the bounds of an int32.
pub mod Packing
pub mod Scaling
pub mod Selection
pub mod Draining
use fast_sandbox.Base.{
  ℕ, zero, suc, ◌+◌, Bool, true, false, not, ◌&&◌, ◌||◌, Option, none, some, List, [], ◌∷◌, ◌++◌,
  length, replicate, update_at, sort_by, if◌then◌else◌, ℤ, pos, ◌-ℤ◌, ltb_ℤ, leb_ℤ,
}
use fast_sandbox.Placement.Quantity.{Quantities}
use fast_sandbox.Placement.Types.{Demand}
use fast_sandbox.Placement.TopK.{Floats}

-- The order on `float64`.
pub record FloatOrder (fl : Floats) : Type 0 where
  pub less : fl.F → fl.F → Bool
  pub equal : fl.F → fl.F → Bool

pub record FreeBin (Q : Type 0) : Type 0 where
  pub slots : ℤ
  pub free : Demand Q

module _ (q : Quantities) where
  open q use {Quantity, sub, is_positive, cmp_le, milli_value, value}

  -- `resourceDemandFits`
  unfoldable pub resource_demand_fits : Demand Quantity → FreeBin Quantity → Bool
  resource_demand_fits d bin =
      ltb_ℤ (pos 0) bin.slots
      && is_positive d.cpu
      && is_positive d.memory
      && cmp_le d.cpu bin.free.cpu
      && cmp_le d.memory bin.free.memory

  abbrev pub remaining : Demand Quantity → FreeBin Quantity → Demand Quantity
  remaining d bin = record { cpu = sub bin.free.cpu d.cpu; memory = sub bin.free.memory d.memory }

  -- What a bin offers after it took a demand.
  unfoldable pub take_from : Demand Quantity → FreeBin Quantity → FreeBin Quantity
  take_from d bin = record { slots = bin.slots -ℤ pos 1; free = remaining d bin }

  module _ (fl : Floats) (order : FloatOrder fl) where
    open fl use {F, of_int, quotient, max}

    -- `dominantDemandShare`
    unfoldable pub dominant_demand_share : Demand Quantity → Demand Quantity → F
    dominant_demand_share d capacity =
        if leb_ℤ (milli_value capacity.cpu) (pos 0) || leb_ℤ (value capacity.memory) (pos 0)
        then of_int (pos 2)
        else max (quotient (of_int (milli_value d.cpu)) (of_int (milli_value capacity.cpu)))
            (quotient (of_int (value d.memory)) (of_int (value capacity.memory)))

    abbrev pub same_quantity : Quantity → Quantity → Bool
    same_quantity a b = cmp_le a b && cmp_le b a

    -- The order of the packing: the largest share of an empty Fastlet first.
    unfoldable pub larger : Demand Quantity → Demand Quantity → Demand Quantity → Bool
    unfolding dominant_demand_share
    larger capacity a b =
        if not (order.equal (dominant_demand_share a capacity) (dominant_demand_share b capacity))
        then order.less (dominant_demand_share b capacity) (dominant_demand_share a capacity)
        else if not (same_quantity a.memory b.memory)
        then not (cmp_le a.memory b.memory)
        else not (cmp_le a.cpu b.cpu)

    abbrev pub is_better : F → Option (ℕ × F) → Bool
    is_better score none = true
    is_better score (some (i, best)) = order.less score best

    -- The best bin so far, with its score, after the bin at `i` was looked at.
    abbrev pub consider :
        Demand Quantity → Demand Quantity → ℕ → FreeBin Quantity → Option (ℕ × F) → Option (ℕ × F)
    consider capacity d i bin best =
        if resource_demand_fits d bin
          && is_better (dominant_demand_share (remaining d bin) capacity) best
        then some (i, dominant_demand_share (remaining d bin) capacity)
        else best

    unfoldable pub best_bin :
        Demand Quantity
        → Demand Quantity
        → ℕ
        → List (FreeBin Quantity)
        → Option (ℕ × F)
        → Option (ℕ × F)
    unfolding resource_demand_fits dominant_demand_share
    best_bin capacity d i [] best = best
    best_bin capacity d i (bin ∷ rest) best =
        best_bin capacity d (i + 1) rest (consider capacity d i bin best)

    -- The bins after one demand was packed, and 1 if that took a new Fastlet.
    abbrev pub pack_into :
        FreeBin Quantity
        → Demand Quantity
        → List (FreeBin Quantity)
        → Option (ℕ × F)
        → Option (ℕ × List (FreeBin Quantity))
    pack_into fresh d bins (some (i, score)) = some (0, update_at i (take_from d) bins)
    pack_into fresh d bins none =
        if not (resource_demand_fits d fresh)
        then none
        else some (1, update_at (length bins) (take_from d) (bins ++ fresh ∷ []))

    unfoldable pub pack_one :
        FreeBin Quantity
        → Demand Quantity
        → List (FreeBin Quantity)
        → Option (ℕ × List (FreeBin Quantity))
    unfolding best_bin resource_demand_fits take_from
    pack_one fresh d bins = pack_into fresh d bins (best_bin fresh.free d 0 bins none)

    unfoldable pub pack_all :
        FreeBin Quantity → List (Demand Quantity) → ℕ → List (FreeBin Quantity) → Option ℕ
    unfolding pack_one
    pack_all fresh [] added bins = some added
    pack_all fresh (d ∷ rest) added bins = elim (pack_one fresh d bins) [
      | none ↦ none
      | some (k, next) ↦ pack_all fresh rest (added + k) next
    ]

    -- All demands in the order of the packing: those that wait, and the buffer.
    unfoldable pub ordered_demands :
        List (Demand Quantity) → ℕ → Demand Quantity → FreeBin Quantity → List (Demand Quantity)
    unfolding larger sort_by
    ordered_demands pending buffer_min default_demand fresh =
        sort_by (larger fresh.free) (pending ++ replicate buffer_min default_demand)

    -- `additionalFastletsForDemands`; none is "not packable".
    unfoldable pub additional_fastlets_for_demands :
        List (Demand Quantity)
        → ℕ
        → Demand Quantity
        → List (FreeBin Quantity)
        → FreeBin Quantity
        → Option ℕ
    unfolding ordered_demands pack_all
    additional_fastlets_for_demands pending buffer_min default_demand existing fresh =
        pack_all fresh (ordered_demands pending buffer_min default_demand fresh) 0 existing
