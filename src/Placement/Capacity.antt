-- ===== src/Placement/Capacity.antt =====
-- placement/registry.go: the capacity that a Fastlet offers, `HasFreshHostMemoryPressure` to
-- `EffectiveFreeCapacity`.
use Prim.Native.Nat.{◌%◌, ◌^◌, min}
use fast_sandbox.Base.{
  ℕ, ◌-◌, ◌/◌, Bool, true, false, not, ◌&&◌, ◌||◌, Option, none, some, List, [], ◌∷◌, String, ◌==◌,
  text_equality, nat_equality, if◌then◌else◌, ltb, leb, ℤ, pos, negsuc, pos_part, leb_ℤ, ◌-ℤ◌,
}
use fast_sandbox.Placement.Quantity.{Quantities}
use fast_sandbox.Placement.Types.{
  Demand, FastletInfo, admission_state_beq, open_state, blocked, ResourceStatus, scheduling_used,
  slot_capacity,
}

-- Two's complement.
abbrev pub int32 : ℕ → ℤ
int32 n = let r = n % 2 ^ 32 in if ltb r (2 ^ 31) then pos r else negsuc (2 ^ 32 - r - 1)

-- `!t.IsZero() && now.Sub(t) <= staleAfter`
abbrev pub is_fresh : ℕ → ℕ → ℕ → Bool
is_fresh t now stale_after = not (t == 0) && leb (now - t) stale_after

module _ (q : Quantities) where
  open q use {Quantity, zero_quantity, sub, is_positive, cmp_le, milli_value, value}

  abbrev Info : Type 0
  Info = FastletInfo Quantity

  abbrev pub memory_pressure : Option ResourceStatus → Bool
  memory_pressure none = false
  memory_pressure (some r) =
      r.version == "v2"
      && admission_state_beq r.state blocked
      && (r.reason == "HOST_MEMORY_PRESSURE" || r.reason == "NODE_MEMORY_PRESSURE")

  -- `HasFreshHostMemoryPressure`
  unfoldable pub has_fresh_pressure : Info → ℕ → ℕ → Bool
  has_fresh_pressure i now stale_after =
      not (i.node_name == "")
      && memory_pressure i.admission.resources
      && is_fresh i.resource_received_at now stale_after
      && is_fresh i.last_heartbeat now stale_after

  -- `FreshHostMemoryPressureNodes`, as the list of the set's members
  unfoldable pub pressure_nodes : List Info → ℕ → ℕ → List String
  pressure_nodes [] now stale_after = []
  pressure_nodes (i ∷ is) now stale_after =
      let rest = pressure_nodes is now stale_after in
      if has_fresh_pressure i now stale_after then i.node_name ∷ rest else rest

  pub record View : Type 0 where
    pub schedulable : Bool
    pub free_slots : ℤ
    pub free_resources : Demand Quantity

  abbrev pub no_view : View
  no_view = record {
    schedulable = false;
    free_slots = pos 0;
    free_resources = record { cpu = zero_quantity; memory = zero_quantity };
  }

  abbrev pub open_status : Option ResourceStatus → Bool
  open_status none = false
  open_status (some r) = r.version == "v2" && admission_state_beq r.state open_state

  abbrev pub in_service : Info → ℕ → ℕ → Bool
  in_service i now stale_after =
      i.pod_ready
      && i.runtime_ready
      && i.infra_ready
      && not i.draining
      && not i.drain_requested
      && is_fresh i.last_heartbeat now stale_after
      && not (ltb now i.rejected_until)
      && open_status i.admission.resources
      && is_fresh i.resource_received_at now stale_after

  abbrev pub free_of : Info → Demand Quantity
  free_of i = record {
    cpu = sub (sub i.resource_capacity.cpu i.resource_committed.cpu) i.in_flight_resources.cpu;
    memory =
        sub (sub i.resource_capacity.memory i.resource_committed.memory)
          i.in_flight_resources.memory;
  }

  abbrev pub free_slots_of : Info → ℤ
  free_slots_of i = int32 (pos_part (slot_capacity i -ℤ scheduling_used i))

  -- `ResourceSchedulability`
  unfoldable pub resource_schedulability : Info → ℕ → ℕ → View
  resource_schedulability i now stale_after =
      if in_service i now stale_after
        && not (
            leb_ℤ (free_slots_of i) (pos 0)
            || not (is_positive (free_of i).cpu)
            || not (is_positive (free_of i).memory))
      then record { schedulable = true; free_slots = free_slots_of i; free_resources = free_of i }
      else no_view

  unfoldable pub fits : View → Demand Quantity → Bool
  fits v d =
      v.schedulable
      && is_positive d.cpu
      && is_positive d.memory
      && cmp_le d.cpu v.free_resources.cpu
      && cmp_le d.memory v.free_resources.memory

  -- The quotients are of positive numbers where the code reaches them.
  abbrev pub quotient : ℤ → ℤ → ℕ
  quotient a b = pos_part a / pos_part b

  -- `EffectiveFreeCapacity`
  unfoldable pub effective_free_capacity : Info → Demand Quantity → ℕ → ℕ → ℤ
  unfolding resource_schedulability
  effective_free_capacity i d now stale_after =
      let v = resource_schedulability i now stale_after in
      let cpu_free = quotient (milli_value v.free_resources.cpu) (milli_value d.cpu) in
      let memory_free = quotient (value v.free_resources.memory) (value d.memory) in
      if fits v d then int32 (min (min (pos_part v.free_slots) cpu_free) memory_free) else pos 0
