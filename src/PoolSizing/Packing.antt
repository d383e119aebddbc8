-- ===== src/PoolSizing/Packing.antt =====
-- What the number of additional Fastlets means: with that many more, every demand has a Fastlet that admits it.
use mathlib.Core.Logic.{◌↔◌}
use mathlib.Core.List.{Perm, append-nil, append_assoc}
use fast_sandbox.Base.{
  ◌≡◌, pos, ◌-ℤ◌, ◌<ℤ◌, refl, ap, ◌∙◌, ◌⊎◌, inl, inr, ℕ, suc, ◌+◌, true, false, Option, none, some,
  List, [], ◌∷◌, ◌++◌, map, length, replicate, get_elem?, update_at, get_elem?-append,
  get_elem?-length, update_at-append, replicate-append-replicate, sort_by-Perm, Mem, mem-cons_self,
  mem-cons_of_mem, arith, Bool-cases,
}
use fast_sandbox.Placement.Quantity.{Quantities}
use fast_sandbox.Placement.Types.{Demand}
use fast_sandbox.Placement.TopK.{Floats}
use fast_sandbox.PoolSizing.{
  FloatOrder, FreeBin, resource_demand_fits, take_from, remaining, dominant_demand_share, is_better,
  consider, best_bin, pack_into, pack_one, pack_all, larger, ordered_demands,
  additional_fastlets_for_demands,
}

module _ (q : Quantities) where
  open q use {Quantity, sub, is_positive, cmp_le}

  -- An empty place of a bin for a demand of something: a slot is free, and so is what it asks for.
  abbrev pub Fits : Demand Quantity → FreeBin Quantity → Type 0
  Fits d bin =
      (pos 0 <ℤ bin.slots)
      × (is_positive d.cpu ≡ true)
      × (is_positive d.memory ≡ true)
      × (cmp_le d.cpu bin.free.cpu ≡ true)
      × (cmp_le d.memory bin.free.memory ≡ true)

  -- A bin with one slot less, and less of both by the demand.
  abbrev pub without : Demand Quantity → FreeBin Quantity → FreeBin Quantity
  without d bin = record {
    slots = bin.slots -ℤ pos 1;
    free = record { cpu = sub bin.free.cpu d.cpu; memory = sub bin.free.memory d.memory };
  }

  -- Each demand in turn goes to the bin at its index, where it fits after all that went there before.
  abbrev pub Admits : List (Demand Quantity × ℕ) → List (FreeBin Quantity) → Type 0
  Admits [] bins = Unit {0}
  Admits ((d, i) ∷ rest) bins =
      ((bin : FreeBin Quantity) × (get_elem? bins i ≡ some bin) × Fits d bin)
      × Admits rest (update_at i (without d) bins)

  -- The same by the code's test and update.
  abbrev Places : List (Demand Quantity × ℕ) → List (FreeBin Quantity) → Type 0
  Places [] bins = Unit {0}
  Places ((d, i) ∷ rest) bins =
      ((bin : FreeBin Quantity) × (get_elem? bins i ≡ some bin)
        × (resource_demand_fits q d bin ≡ true))
      × Places rest (update_at i (take_from q d) bins)

  resource_demand_fits-Fits :
      (d : Demand Quantity) (bin : FreeBin Quantity)
      → (resource_demand_fits q d bin ≡ true) ↔ Fits d bin
  unfolding resource_demand_fits
  resource_demand_fits-Fits d bin = ground arith

  Places-Admits :
      (plan : List (Demand Quantity × ℕ)) (bins : List (FreeBin Quantity))
      → Places plan bins
      → Admits plan bins
  unfolding take_from
  Places-Admits [] bins p = tt
  Places-Admits ((d, i) ∷ rest) bins ((bin, at, fit), more) = (
    (bin, at, (resource_demand_fits-Fits d bin).0 fit),
    Places-Admits rest (update_at i (without d) bins) more,
  )

  module _ (fl : Floats) (order : FloatOrder fl) where
    open fl use {F}

    -- The bin at an index, counted from `i`, takes the demand.
    abbrev Chosen : Demand Quantity → ℕ → List (FreeBin Quantity) → Option (ℕ × F) → Type 0
    Chosen d i bins none = Unit {0}
    Chosen d i bins (some (j, score)) =
        (k : ℕ) × (bin : FreeBin Quantity) × (j ≡ i + k)
        × (get_elem? bins k ≡ some bin)
        × (resource_demand_fits q d bin ≡ true)

    consider-cases :
        (capacity d : Demand Quantity) (i : ℕ) (bin : FreeBin Quantity) (best : Option (ℕ × F))
        → (consider q fl order capacity d i bin best ≡ best)
          ⊎ ((score : F) × (consider q fl order capacity d i bin best ≡ some (i, score))
              × (resource_demand_fits q d bin ≡ true))
    consider-cases capacity d i bin best = elim (Bool-cases (resource_demand_fits q d bin)) [
      | inl fit ↦
          elim (Bool-cases (
            is_better q fl order (dominant_demand_share q fl order (remaining q d bin) capacity)
              best)) [
                | inl e ↦ inr (
                  dominant_demand_share q fl order (remaining q d bin) capacity,
                  rw (fit, e) refl,
                  fit,
                )
                | inr e ↦ inl (rw (fit, e) refl)
              ]
      | inr unfit ↦ inl (rw unfit refl)
    ]

    Chosen-behind :
        (d : Demand Quantity) (i : ℕ) (bin : FreeBin Quantity) (rest : List (FreeBin Quantity))
        (best : Option (ℕ × F))
        → Chosen d (i + 1) rest best
        → Chosen d i (bin ∷ rest) best
    Chosen-behind d i bin rest none c = tt
    Chosen-behind d i bin rest (some (j, score)) (k, found, e, at, fit) =
        (suc k, found, omega arith, at, fit)

    best_bin-Chosen :
        (capacity d : Demand Quantity) (i : ℕ) (bins : List (FreeBin Quantity))
        (best : Option (ℕ × F))
        → (best_bin q fl order capacity d i bins best ≡ best)
          ⊎ Chosen d i bins (best_bin q fl order capacity d i bins best)
    unfolding best_bin
    best_bin-Chosen capacity d i [] best = inl refl
    best_bin-Chosen capacity d i (bin ∷ rest) best =
        elim (best_bin-Chosen capacity d (i + 1) rest (consider q fl order capacity d i bin best)) [
          | inl e ↦ elim (consider-cases capacity d i bin best) [
            | inl f ↦ inl (e ∙ f)
            | inr (score, f, fit) ↦ inr (rw (e ∙ f) (0, bin, omega arith, refl, fit))
          ]
          | inr c ↦ inr (
              Chosen-behind d i bin rest
                (best_bin q fl order capacity d (i + 1) rest
                  (consider q fl order capacity d i bin best))
                c)
        ]

    -- What packing one demand gives, beside the Fastlets that may still be added: the demand does not
    -- fit an empty Fastlet, or it went to a bin that admits it.
    abbrev Packed :
        FreeBin Quantity
        → Demand Quantity
        → List (FreeBin Quantity)
        → Option (ℕ × List (FreeBin Quantity))
        → Type 0
    Packed fresh d bins none = resource_demand_fits q d fresh ≡ false
    Packed fresh d bins (some (k, next)) =
        (i : ℕ) × (bin : FreeBin Quantity) × (get_elem? (bins ++ replicate k fresh) i ≡ some bin)
        × (resource_demand_fits q d bin ≡ true)
        × (next ≡ update_at i (take_from q d) (bins ++ replicate k fresh))

    pack_into-Packed :
        (fresh : FreeBin Quantity) (d : Demand Quantity) (bins : List (FreeBin Quantity))
        (best : Option (ℕ × F))
        → Chosen d 0 bins best
        → Packed fresh d bins (pack_into q fl order fresh d bins best)
    pack_into-Packed fresh d bins (some (j, score)) (k, bin, e, at, fit) =
        let same : j ≡ k = omega arith in
        rw same (k, bin, rw (append-nil bins) at, fit, rw (append-nil bins) refl)
    pack_into-Packed fresh d bins none c = elim (Bool-cases (resource_demand_fits q d fresh)) [
      | inl fit ↦ rw fit (length bins, fresh, get_elem?-length bins fresh [], fit, refl)
      | inr unfit ↦ rw unfit unfit
    ]

    best_bin-start :
        (capacity d : Demand Quantity) (bins : List (FreeBin Quantity))
        → Chosen d 0 bins (best_bin q fl order capacity d 0 bins none)
    best_bin-start capacity d bins = elim (best_bin-Chosen capacity d 0 bins none) [
      | inl e ↦ rw e tt
      | inr c ↦ c
    ]

    pack_one-Packed :
        (fresh : FreeBin Quantity) (d : Demand Quantity) (bins : List (FreeBin Quantity))
        → Packed fresh d bins (pack_one q fl order fresh d bins)
    unfolding pack_one
    pack_one-Packed fresh d bins =
        pack_into-Packed fresh d bins (best_bin q fl order fresh.free d 0 bins none)
          (best_bin-start fresh.free d bins)

    -- The answer for some demands and bins: with that many empty Fastlets more, there is a bin for each
    -- demand that admits it; none if a demand does not fit an empty Fastlet.
    abbrev pub Enough :
        FreeBin Quantity → List (Demand Quantity) → List (FreeBin Quantity) → Option ℕ → Type 0
    Enough fresh demands bins none = (d : Demand Quantity) × Mem d demands × ¬ Fits d fresh
    Enough fresh demands bins (some n) =
        (plan : List (Demand Quantity × ℕ)) × (map (λ place. place.0) plan ≡ demands)
        × Admits plan (bins ++ replicate n fresh)

    -- The same by the code's test and update.
    abbrev Placed :
        FreeBin Quantity → List (Demand Quantity) → List (FreeBin Quantity) → Option ℕ → Type 0
    Placed fresh demands bins none =
        (d : Demand Quantity) × Mem d demands × (resource_demand_fits q d fresh ≡ false)
    Placed fresh demands bins (some n) =
        (plan : List (Demand Quantity × ℕ)) × (map (λ place. place.0) plan ≡ demands)
        × Places plan (bins ++ replicate n fresh)

    abbrev EnoughMore :
        FreeBin Quantity → List (Demand Quantity) → ℕ → List (FreeBin Quantity) → Option ℕ → Type 0
    EnoughMore fresh demands added bins none = Placed fresh demands bins none
    EnoughMore fresh demands added bins (some n) =
        (more : ℕ) × (n ≡ added + more) × Placed fresh demands bins (some more)

    Packed-EnoughMore :
        (fresh : FreeBin Quantity) (d : Demand Quantity) (rest : List (Demand Quantity))
        (added k : ℕ) (bins next : List (FreeBin Quantity)) (r : Option ℕ)
        → Packed fresh d bins (some (k, next))
        → EnoughMore fresh rest (added + k) next r
        → EnoughMore fresh (d ∷ rest) added bins r
    Packed-EnoughMore fresh d rest added k bins next none packed (e, m, unfit) =
        (e, mem-cons_of_mem d m, unfit)
    Packed-EnoughMore fresh d rest added k bins next (some n) (i, bin, at, fit, step)
          (more, sum, (plan, same, admits)) =
        let all : bins ++ replicate (k + more) fresh
            ≡ (bins ++ replicate k fresh) ++ replicate more fresh =
          rw
            (
              append_assoc bins (replicate k fresh) (replicate more fresh),
              replicate-append-replicate k more fresh,
            )
            refl in
        let written : update_at i (take_from q d) (bins ++ replicate (k + more) fresh)
            ≡ next ++ replicate more fresh =
          rw
            (
              all,
              update_at-append (bins ++ replicate k fresh) (replicate more fresh) i (take_from q d)
                  bin at,
              step,
            )
            refl in
        (
          k + more,
          omega arith,
          (
            (d, i) ∷ plan,
            ap (λ others. d ∷ others) same,
            (
              (bin, rw all (get_elem?-append (bins ++ replicate k fresh) _ i bin at), fit),
              rw written admits,
            ),
          ),
        )

    pack_all-EnoughMore :
        (fresh : FreeBin Quantity) (demands : List (Demand Quantity)) (added : ℕ)
        (bins : List (FreeBin Quantity))
        → EnoughMore fresh demands added bins (pack_all q fl order fresh demands added bins)
    unfolding pack_all
    pack_all-EnoughMore fresh [] added bins = (0, omega arith, ([], refl, tt))
    pack_all-EnoughMore fresh (d ∷ rest) added bins =
        elim (pack_one q fl order fresh d bins)
            as (λ p.
              Packed fresh d bins p
              → EnoughMore fresh (d ∷ rest) added bins (elim p [
                | none ↦ none
                | some (k, next) ↦ pack_all q fl order fresh rest (added + k) next
              ])) [
                | none ↦ λ unfit. (d, mem-cons_self, unfit)
                | some (k, next) ↦ λ packed.
                    Packed-EnoughMore fresh d rest added k bins next
                      (pack_all q fl order fresh rest (added + k) next) packed
                      (pack_all-EnoughMore fresh rest (added + k) next)
              ]
          (pack_one-Packed fresh d bins)

    Enough-start :
        (fresh : FreeBin Quantity) (demands : List (Demand Quantity))
        (bins : List (FreeBin Quantity)) (r : Option ℕ)
        → EnoughMore fresh demands 0 bins r
        → Enough fresh demands bins r
    Enough-start fresh demands bins none (d, m, unfit) =
        (d, m, (λ fits. absurd (cc (unfit, (resource_demand_fits-Fits d fresh).1 fits))))
    Enough-start fresh demands bins (some n) (m, e, (plan, same, places)) =
        let more : n ≡ m = omega arith in
        rw more (plan, same, Places-Admits plan (bins ++ replicate m fresh) places)

    -- All demands, those that wait and the buffer's, stand in some order for which the answer is right:
    -- with that many empty Fastlets beside the existing ones, each demand has a Fastlet that admits it
    -- after those before it; or there is no answer, and one of the demands does not fit an empty Fastlet.
    pub additional_fastlets_for_demands-Enough :
        (pending : List (Demand Quantity)) (buffer_min : ℕ) (default_demand : Demand Quantity)
        (existing : List (FreeBin Quantity)) (fresh : FreeBin Quantity)
        → (demands : List (Demand Quantity)) × Perm
            (pending ++ replicate buffer_min default_demand)
            demands
          × Enough fresh demands existing (
              additional_fastlets_for_demands q fl order pending buffer_min default_demand existing
                fresh)
    unfolding additional_fastlets_for_demands ordered_demands
    additional_fastlets_for_demands-Enough pending buffer_min default_demand existing fresh =
        let demands = ordered_demands q fl order pending buffer_min default_demand fresh in
        (
          demands,
          sort_by-Perm (larger q fl order fresh.free) _,
          Enough-start fresh demands existing _ (pack_all-EnoughMore fresh demands 0 existing),
        )
