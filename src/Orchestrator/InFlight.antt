-- ===== src/Orchestrator/InFlight.antt =====
-- What a create call leaves in the registry.

use fast_sandbox.Base.{
  ℕ, ◌≡◌, inl, inr, refl, sym, ap, ◌∙◌, Bool, true, false, some, List, String, lookup,
  lookup-insert_self, Bool-cases, arith, ℤ, pos, ◌≤ℤ◌, ◌+ℤ◌, ◌-ℤ◌, leb_ℤ,
}
use fast_sandbox.Placement.Quantity.{Quantities, QuantityLaws}
use fast_sandbox.Placement.Types.{Demand, Registry, slot_capacity, scheduling_used}
use fast_sandbox.Placement.Reserve.{
  demands_resources, exceeds, reserve_slot, reserve_found, reserve_local, put_fastlet, fewer_slots,
  release_slot, release_found, release_local,
}
use fast_sandbox.Orchestrator.{CallResult, call_target, call_reserved, create_on_target}
use fast_sandbox.Orchestrator.Kept.{Info, Keeps, KeepsAt, GiveBack, call_target-KeepsAt}

module _ (q : Quantities) (laws : QuantityLaws q) where
  open q use {Quantity, milli_value, value}

  -- The same slots and resources are in flight, as placement reads them.
  abbrev pub SameInFlight : Info q → Info q → Type 0
  SameInFlight i j =
      (j.in_flight_slots ≡ i.in_flight_slots)
      × (milli_value j.in_flight_resources.cpu ≡ milli_value i.in_flight_resources.cpu)
      × (value j.in_flight_resources.memory ≡ value i.in_flight_resources.memory)

  fewer_than_more : (n : ℤ) → pos 0 ≤ℤ n → fewer_slots q (n +ℤ pos 1) ≡ n
  unfolding ◌+ℤ◌ ◌-ℤ◌
  fewer_than_more n h = ground arith

  -- A release of what was reserved, on an entry with the same in flight.
  release_slot-reserve_slot :
      (d : Demand Quantity) (i k : Info q)
      → pos 0 ≤ℤ i.in_flight_slots
      → (reserve_slot q d i).1 ≡ true
      → Keeps q (reserve_slot q d i).0 k
      → SameInFlight i (release_slot q d k)
  unfolding reserve_slot release_slot
  release_slot-reserve_slot d i k h granted (slots, resources) =
      elim (Bool-cases (leb_ℤ (slot_capacity i) (scheduling_used i))) [
        | inl full ↦ cc (rw full at granted)
        | inr room ↦ elim (Bool-cases (demands_resources q d)) [
          | inl both ↦ elim (Bool-cases (exceeds q i d)) [
            | inl over ↦ cc (rw (room, both, over) at granted)
            | inr under ↦
                let same_slots = rw (room, both, under) at slots in
                let same_resources = rw (room, both, under) at resources in
                rw both (
                  ap (fewer_slots q) same_slots ∙ fewer_than_more i.in_flight_slots h,
                  ap (λ x. milli_value (q.sub x.cpu d.cpu)) same_resources
                      ∙ laws.milli_value-add_sub _ _,
                  ap (λ x. value (q.sub x.memory d.memory)) same_resources ∙ laws.value-add_sub _ _,
                )
          ]
          | inr slot_only ↦
              let same_slots = rw (room, slot_only) at slots in
              let same_resources = rw (room, slot_only) at resources in
              rw slot_only (
                ap (fewer_slots q) same_slots ∙ fewer_than_more i.in_flight_slots h,
                ap (λ x. milli_value x.cpu) same_resources,
                ap (λ x. value x.memory) same_resources,
              )
        ]
      ]

  abbrev pub SameAt : String → Info q → Registry Quantity → Type 0
  SameAt id i r = (j : Info q) × (lookup id r.fastlets ≡ some j) × SameInFlight i j

  Keeps-SameAt :
      (id : String) (i : Info q) (r : Registry Quantity) → KeepsAt q id i r → SameAt id i r
  Keeps-SameAt id i r (j, found, (slots, resources)) =
      (j, found, (slots, ap (λ x. milli_value x.cpu) resources, ap (λ x. value x.memory) resources))

  release_local-SameAt :
      (id : String) (d : Demand Quantity) (i : Info q) (r : Registry Quantity)
      → pos 0 ≤ℤ i.in_flight_slots
      → (reserve_slot q d i).1 ≡ true
      → KeepsAt q id (reserve_slot q d i).0 r
      → SameAt id i (release_local q id d r)
  unfolding release_local release_found
  release_local-SameAt id d i r h granted (k, found, (slots, resources)) = (
    release_slot q d k,
    rw found (lookup-insert_self id (release_slot q d k) r.fastlets),
    release_slot-reserve_slot d i k h granted (slots, resources),
  )

  -- What a reservation of an entry gives.
  abbrev Reserves : String → Demand Quantity → Info q → Registry Quantity × Bool → Type 0
  Reserves id d i (r, true) =
      ((reserve_slot q d i).1 ≡ true) × (lookup id r.fastlets ≡ some (reserve_slot q d i).0)
  Reserves id d i (r, false) = SameAt id i r

  call_reserved-SameAt :
      (declarative : Bool) (now : ℕ) (c : Info q) (d : Demand Quantity) (inputs : List ℕ)
      (x : CallResult) (others : Registry Quantity → Registry Quantity) (i : Info q)
      (y : Registry Quantity × Bool)
      → GiveBack q c.id others
      → pos 0 ≤ℤ i.in_flight_slots
      → Reserves c.id d i y
      → SameAt c.id i (call_reserved q declarative now c d inputs x others y).1
  call_reserved-SameAt declarative now c d inputs x others i (r, false) back h same = same
  call_reserved-SameAt declarative now c d inputs x others i (r, true) back h (granted, found) =
      release_local-SameAt c.id d i (call_target q now c inputs x others r).1 h granted
        (call_target-KeepsAt q now c inputs x others r (reserve_slot q d i).0 back found)

  reserve_slot-refused :
      (d : Demand Quantity) (i : Info q)
      → (reserve_slot q d i).1 ≡ false
      → (reserve_slot q d i).0 ≡ i
  unfolding reserve_slot
  reserve_slot-refused d i refused =
      elim (Bool-cases (leb_ℤ (slot_capacity i) (scheduling_used i))) [
        | inl full ↦ rw full refl
        | inr room ↦ elim (Bool-cases (demands_resources q d)) [
          | inl both ↦ elim (Bool-cases (exceeds q i d)) [
            | inl over ↦ rw (room, both, over) refl
            | inr under ↦ cc (rw (room, both, under) at refused)
          ]
          | inr slot_only ↦ cc (rw (room, slot_only) at refused)
        ]
      ]

  put-Reserves :
      (id : String) (d : Demand Quantity) (i : Info q) (r : Registry Quantity) (x : Info q × Bool)
      → reserve_slot q d i ≡ x
      → Reserves id d i (put_fastlet q id x.0 r, x.1)
  put-Reserves id d i r (j, true) e =
      (ap (λ y. y.1) e, lookup-insert_self id j r.fastlets ∙ ap (λ y. some y.0) (sym e))
  put-Reserves id d i r (j, false) e =
      let same : j ≡ i = ap (λ y. y.0) (sym e) ∙ reserve_slot-refused d i (ap (λ y. y.1) e) in
      (
        j,
        lookup-insert_self id j r.fastlets,
        (
          ap (λ y. y.in_flight_slots) same,
          ap (λ y. milli_value y.in_flight_resources.cpu) same,
          ap (λ y. value y.in_flight_resources.memory) same,
        ),
      )

  reserve_local-Reserves :
      (id : String) (d : Demand Quantity) (i : Info q) (r : Registry Quantity)
      → lookup id r.fastlets ≡ some i
      → Reserves id d i (reserve_local q id d r)
  unfolding reserve_local reserve_found
  reserve_local-Reserves id d i r found = rw found (put-Reserves id d i r (reserve_slot q d i) refl)

  -- Whatever the Fastlet answers, if it answers, and whether or not a reservation is needed or granted:
  -- after a create call the same slots and resources are in flight at the Fastlet as before, if those
  -- were not negative and what others did during the call left its entry with the same in flight.
  pub create_on_target-SameInFlight :
      (declarative needs : Bool) (now : ℕ) (c : Info q) (d : Demand Quantity) (inputs : List ℕ)
      (x : CallResult) (others : Registry Quantity → Registry Quantity) (i : Info q)
      (r : Registry Quantity)
      → lookup c.id r.fastlets ≡ some i
      → pos 0 ≤ℤ i.in_flight_slots
      → GiveBack q c.id others
      → (j : Info q) × (lookup c.id
            (create_on_target q declarative needs now c d inputs x others r).1.fastlets
          ≡ some j)
        × SameInFlight i j
  unfolding create_on_target
  create_on_target-SameInFlight declarative true now c d inputs x others i r found h back =
      call_reserved-SameAt declarative now c d inputs x others i (reserve_local q c.id d r) back h
        (reserve_local-Reserves c.id d i r found)
  create_on_target-SameInFlight declarative false now c d inputs x others i r found h back =
      Keeps-SameAt c.id i (call_target q now c inputs x others r).1
        (call_target-KeepsAt q now c inputs x others r i back found)
