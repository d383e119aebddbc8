-- ===== src/Placement/Reservation.antt =====
-- What `ReserveLocal` and `ReleaseLocal` promise.
use fast_sandbox.Base.{
  ℕ, ◌≤◌, ◌≡◌, refl, ◌⊎◌, inl, inr, Bool, true, false, some, String, lookup, lookup-insert_self,
  Bool-cases, Option-cases, arith, lookup-insert, eq_iff, sym, ◌==◌, text_equality, ltb, leb, ◌<◌,
  ap, int_laws, ℤ, pos, negsuc, ltb_ℤ, ◌||◌, ◌≤ℤ◌, ◌<ℤ◌, ◌+ℤ◌, ◌-ℤ◌, leb_ℤ, pos_part, neg_part,
}
use fast_sandbox.Placement.Quantity.{Quantities, QuantityLaws}
use fast_sandbox.Placement.Types.{Demand, FastletInfo, Registry, scheduling_used, slot_capacity}
use fast_sandbox.Placement.Reserve.{
  demands_resources, promised_cpu, promised_memory, exceeds, InInt64, wrap_int64, add_int64,
  reserve_slot, fewer_slots, release_slot, reserve_local, reserve_found, release_local,
  release_found, put_fastlet,
}

leb-false : (a b : ℕ) → leb a b ≡ false → b < a
leb-false a b h = ground arith

ltb-false : (a b : ℕ) → ltb a b ≡ false → b ≤ a
ltb-false a b h = ground arith

one_more_slot : (u n c : ℤ) → u +ℤ n <ℤ c → u +ℤ (n +ℤ pos 1) ≤ℤ c
one_more_slot u n c h = omega int_laws

within : (c x y s d : ℤ) → c +ℤ x +ℤ y ≤ℤ d → s ≤ℤ x +ℤ y → c +ℤ s ≤ℤ d
within c x y s d h k = omega int_laws

wrap_same : (n : ℤ) → InInt64 n → wrap_int64 n ≡ n
wrap_same n (low, high) =
    let a : leb_ℤ (pos 9223372036854775808) n ≡ false = ground arith in
    let b : ltb_ℤ n (negsuc 9223372036854775807) ≡ false = ground arith in rw (a, b) refl

twice :
    (a b c : ℤ)
    → InInt64 (a +ℤ b)
    → InInt64 (a +ℤ b +ℤ c)
    → add_int64 (add_int64 a b) c ≡ a +ℤ b +ℤ c
unfolding add_int64
twice a b c first second = rw (wrap_same (a +ℤ b) first) (wrap_same (a +ℤ b +ℤ c) second)

below_both : (a b c d : ℤ) → (ltb_ℤ a b || ltb_ℤ c d) ≡ false → (b ≤ℤ a) × (d ≤ℤ c)
below_both a b c d h = ground arith

module _ (q : Quantities) (laws : QuantityLaws q) where
  open q use {Quantity, milli_value, value}

  -- The CPU and the memory that a Fastlet has committed and in flight.
  abbrev pub held_cpu : FastletInfo Quantity → ℤ
  held_cpu i = milli_value i.resource_committed.cpu +ℤ milli_value i.in_flight_resources.cpu

  abbrev pub held_memory : FastletInfo Quantity → ℤ
  held_memory i = value i.resource_committed.memory +ℤ value i.in_flight_resources.memory

  -- No sum that `ReserveLocal` computes leaves the range of an int64.
  abbrev pub NoOverflow : Demand Quantity → FastletInfo Quantity → Type 0
  NoOverflow d i =
      InInt64 (held_cpu i)
      × InInt64 (held_cpu i +ℤ milli_value d.cpu)
      × InInt64 (held_memory i)
      × InInt64 (held_memory i +ℤ value d.memory)

  exceeds-false :
      (i : FastletInfo Quantity) (d : Demand Quantity)
      → NoOverflow d i
      → exceeds q i d ≡ false
      → (held_cpu i +ℤ milli_value d.cpu ≤ℤ milli_value i.resource_capacity.cpu)
        × (held_memory i +ℤ value d.memory ≤ℤ value i.resource_capacity.memory)
  unfolding exceeds promised_cpu promised_memory
  exceeds-false i d (c, c', m, m') h =
      let cpu = twice _ _ (milli_value d.cpu) c c' in
      let memory = twice _ _ (value d.memory) m m' in
      below_both (milli_value i.resource_capacity.cpu) (held_cpu i +ℤ milli_value d.cpu)
        (value i.resource_capacity.memory) (held_memory i +ℤ value d.memory) (rw (cpu, memory) at h)

  -- The slots in use and in flight, and for a request of resources those too, are within capacity.
  abbrev pub Fits : Demand Quantity → FastletInfo Quantity → Type 0
  Fits d j =
      (scheduling_used j ≤ℤ slot_capacity j)
      × ((demands_resources q d ≡ false)
          ⊎ ((held_cpu j ≤ℤ milli_value j.resource_capacity.cpu)
              × (held_memory j ≤ℤ value j.resource_capacity.memory)))

  Reserved : Demand Quantity → FastletInfo Quantity → FastletInfo Quantity × Bool → Type 0
  Reserved d i (j, true) = Fits d j
  Reserved d i (j, false) = j ≡ i

  reserve_slot-Reserved :
      (d : Demand Quantity) (i : FastletInfo Quantity)
      → NoOverflow d i
      → Reserved d i (reserve_slot q d i)
  unfolding reserve_slot Reserved
  reserve_slot-Reserved d i small =
      elim (Bool-cases (leb_ℤ (slot_capacity i) (scheduling_used i))) [
        | inl full ↦ rw full
        | inr room ↦
            let slots : i.admission.used +ℤ (i.in_flight_slots +ℤ pos 1) ≤ℤ slot_capacity i =
              one_more_slot i.admission.used i.in_flight_slots (slot_capacity i)
                (leb-false _ _ room) in
            elim (Bool-cases (demands_resources q d)) [
              | inr slot_only ↦ rw (room, slot_only) (slots, inl slot_only)
              | inl both ↦ elim (Bool-cases (exceeds q i d)) [
                | inl over ↦ rw (room, both, over)
                | inr under ↦
                    let (c, m) = exceeds-false i d small under in
                    rw (room, both, under)
                      (
                        slots,
                        inr (
                          within (milli_value i.resource_committed.cpu) _ _ _ _ c
                              (laws.milli_value-add _ _),
                          within (value i.resource_committed.memory) _ _ _ _ m (laws.value-add _ _),
                        ),
                      )
              ]
            ]
      ]

  Granted : String → Demand Quantity → Registry Quantity → Registry Quantity × Bool → Type 0
  Granted id d r (g, true) = (j : FastletInfo Quantity) × (lookup id g.fastlets ≡ some j) × Fits d j
  Granted id d r (g, false) = (k : String) → lookup k g.fastlets ≡ lookup k r.fastlets

  Granted-of_Reserved :
      (id : String) (d : Demand Quantity) (r : Registry Quantity) (i : FastletInfo Quantity)
      (x : FastletInfo Quantity × Bool)
      → lookup id r.fastlets ≡ some i
      → Reserved d i x
      → Granted id d r (put_fastlet q id x.0 r, x.1)
  unfolding Reserved Granted
  Granted-of_Reserved id d r i (j, true) e h = (j, lookup-insert_self id j r.fastlets, h)
  Granted-of_Reserved id d r i (j, false) e h = λ k. elim (Bool-cases (id == k)) [
    | inl t ↦
        let at_k : lookup k r.fastlets ≡ some i = rw (sym ((eq_iff id k).0 t)) e in
        simp (lookup-insert, t) (rw (h, at_k))
    | inr f ↦ simp (lookup-insert, f)
  ]

  reserve_local-Granted :
      (id : String) (d : Demand Quantity) (r : Registry Quantity)
      → ((i : FastletInfo Quantity) → lookup id r.fastlets ≡ some i → NoOverflow d i)
      → Granted id d r (reserve_local q id d r)
  unfolding Granted reserve_local
  reserve_local-Granted id d r small = elim (Option-cases (lookup id r.fastlets)) [
    | inl e ↦ rw (e, reserve_found) (λ k. refl)
    | inr (i, e) ↦
        rw (e, reserve_found)
          (Granted-of_Reserved id d r i _ e (reserve_slot-Reserved d i (small i e)))
  ]

  Granted-cases :
      (id : String) (d : Demand Quantity) (r : Registry Quantity) (x : Registry Quantity × Bool)
      → Granted id d r x
      → ((x.1 ≡ true) × ((j : FastletInfo Quantity) × (lookup id x.0.fastlets ≡ some j) × Fits d j))
        ⊎ ((x.1 ≡ false) × ((k : String) → lookup k x.0.fastlets ≡ lookup k r.fastlets))
  unfolding Granted
  Granted-cases id d r (g, true) h = inl (refl, h)
  Granted-cases id d r (g, false) h = inr (refl, h)

  -- Where no sum of the CPU and the memory leaves the range of an int64, `ReserveLocal` grants a request
  -- only if the Fastlet then still has its slots, in use and in flight, within its capacity, and for a
  -- request of CPU and memory those committed and in flight too. A request that it refuses changes no
  -- Fastlet.
  pub reserve_local-bounds :
      (id : String) (d : Demand Quantity) (r : Registry Quantity)
      → ((i : FastletInfo Quantity) → lookup id r.fastlets ≡ some i → NoOverflow d i)
      → let x = reserve_local q id d r in
        ((x.1 ≡ true) × ((j : FastletInfo Quantity) × (lookup id x.0.fastlets ≡ some j) × Fits d j))
        ⊎ ((x.1 ≡ false) × ((k : String) → lookup k x.0.fastlets ≡ lookup k r.fastlets))
  reserve_local-bounds id d r small = Granted-cases id d r _ (reserve_local-Granted id d r small)

  -- What the ledger of a Fastlet says to placement.
  abbrev pub SameLedger : FastletInfo Quantity → FastletInfo Quantity → Type 0
  SameLedger i j =
      (scheduling_used j ≡ scheduling_used i)
      × (milli_value j.in_flight_resources.cpu ≡ milli_value i.in_flight_resources.cpu)
      × (value j.in_flight_resources.memory ≡ value i.in_flight_resources.memory)

  back_to : (u n : ℤ) → pos 0 ≤ℤ n → u +ℤ fewer_slots q (n +ℤ pos 1) ≡ u +ℤ n
  unfolding ◌+ℤ◌ ◌-ℤ◌
  back_to u n h = ground arith

  release_slot-reserve_slot :
      (d : Demand Quantity) (i : FastletInfo Quantity)
      → pos 0 ≤ℤ i.in_flight_slots
      → (reserve_slot q d i).1 ≡ true
      → SameLedger i (release_slot q d (reserve_slot q d i).0)
  unfolding reserve_slot release_slot
  release_slot-reserve_slot d i h granted =
      elim (Bool-cases (leb_ℤ (slot_capacity i) (scheduling_used i))) [
        | inl full ↦ cc (rw full at granted)
        | inr room ↦ elim (Bool-cases (demands_resources q d)) [
          | inr slot_only ↦
              rw (room, slot_only) (back_to i.admission.used i.in_flight_slots h, refl, refl)
          | inl both ↦ elim (Bool-cases (exceeds q i d)) [
            | inl over ↦ cc (rw (room, both, over) at granted)
            | inr under ↦
                rw (room, both, under)
                  (
                    back_to i.admission.used i.in_flight_slots h,
                    laws.milli_value-add_sub _ _,
                    laws.value-add_sub _ _,
                  )
          ]
        ]
      ]

  -- If no negative number of slots is in flight, a reservation that was granted is undone by `ReleaseLocal`: the slots and the resources in flight are
  -- what they were before.
  pub release_local-reserve_local :
      (id : String) (d : Demand Quantity) (r : Registry Quantity) (i : FastletInfo Quantity)
      → lookup id r.fastlets ≡ some i
      → pos 0 ≤ℤ i.in_flight_slots
      → (reserve_local q id d r).1 ≡ true
      → (j : FastletInfo Quantity) × (lookup id
            (release_local q id d (reserve_local q id d r).0).fastlets
          ≡ some j)
        × SameLedger i j
  unfolding reserve_local release_local
  release_local-reserve_local id d r i e h granted =
      let j = release_slot q d (reserve_slot q d i).0 in
      (
        j,
        rw (e, reserve_found) (rw (lookup-insert_self, release_found) (lookup-insert_self id j _)),
        release_slot-reserve_slot d i h (rw (e, reserve_found) at granted),
      )

  negative : (z d s : ℤ) → z ≡ pos 0 → pos 2 ≤ℤ d → s ≤ℤ z -ℤ d +ℤ pos 1 → s <ℤ pos 0
  negative z d s e h k = omega (int_laws, ap pos_part e, ap neg_part e)

  -- If a Fastlet has no slot and no CPU in flight, `ReleaseLocal` of a request that demands some memory
  -- and at least 2 milli-CPU makes its CPU in flight negative, while its slots in flight stay at zero.
  pub release_local-negative :
      (id : String) (d : Demand Quantity) (r : Registry Quantity) (i : FastletInfo Quantity)
      → lookup id r.fastlets ≡ some i
      → i.in_flight_slots ≡ pos 0
      → i.in_flight_resources.cpu ≡ q.zero_quantity
      → demands_resources q d ≡ true
      → pos 2 ≤ℤ milli_value d.cpu
      → (j : FastletInfo Quantity) × (lookup id (release_local q id d r).fastlets ≡ some j)
        × (milli_value j.in_flight_resources.cpu <ℤ pos 0)
        × (j.in_flight_slots ≡ pos 0)
  unfolding release_local release_slot
  release_local-negative id d r i e slots cpu both h = (
    release_slot q d i,
    rw (e, release_found) (lookup-insert_self id (release_slot q d i) _),
    rw both (
        negative (milli_value i.in_flight_resources.cpu) (milli_value d.cpu) _
          (rw cpu laws.milli_value-zero) h (laws.milli_value-sub _ _)),
    rw (both, slots),
  )
