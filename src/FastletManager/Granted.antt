-- ===== src/FastletManager/Granted.antt =====
-- When a create is given a place, and that it changes nothing otherwise.
use fast_sandbox.Base.{
  ℕ, ◌≡◌, refl, ◌⊎◌, inl, inr, Bool, true, false, Option, none, some, lookup, arith,
}
use fast_sandbox.Placement.Quantity.{Quantities}
use fast_sandbox.Placement.Types.{Demand}
use fast_sandbox.FastletManager.Phases.{Phase}
use fast_sandbox.FastletManager.Identity.{Failure, fenced}
use fast_sandbox.FastletManager.Records.{RuntimeConfig}
use fast_sandbox.FastletManager.Create.{State, CreateInput, Reservation, placed}
use fast_sandbox.FastletManager.Reserve.{
  reserve_sandbox, reserve_serving, reserve_by_uid, reserve_existing, reserve_unfenced,
  reserve_room, no_room, not_serving, place,
}

abbrev pub is_placed : Reservation → Bool
is_placed (placed a) = true
is_placed _ = false

module _ (q : Quantities) (requests_of : RuntimeConfig → Option (Demand q.Quantity)) where
  -- The Sandbox was unknown, its generation is not fenced, and there is room for it.
  abbrev pub Room : CreateInput → Bool → State q → Type 0
  Room input clean m =
      (lookup input.config.identity.sandbox_uid m.sandboxes ≡ none)
      × (fenced input.config.identity.sandbox_uid input.config.identity.instance_generation
            input.config.identity.assignment_attempt m.tombstones
          ≡ false)
      × (no_room q requests_of input.config clean m ≡ none)

  abbrev pub Outcome : CreateInput → Bool → ℕ → State q → Reservation × State q → Type 0
  Outcome input clean now m x =
      ((is_placed x.0 ≡ false) × (x.1 ≡ m))
      ⊎ ((x.0 ≡ placed m.next_object)
          × (x.1 ≡ place q requests_of input now m)
          × Room input clean m)

  existing-Outcome :
      (input : CreateInput) (clean : Bool) (now : ℕ) (a : ℕ) (phase : Phase) (m : State q)
      → Outcome input clean now m (reserve_existing q requests_of a phase input.config m)
  existing-Outcome input clean now a phase m = inl (ground arith)

  room-Outcome :
      (input : CreateInput) (clean : Bool) (now : ℕ) (m : State q) (o : Option Failure)
      → no_room q requests_of input.config clean m ≡ o
      → lookup input.config.identity.sandbox_uid m.sandboxes ≡ none
      → fenced input.config.identity.sandbox_uid input.config.identity.instance_generation
          input.config.identity.assignment_attempt m.tombstones
        ≡ false
      → Outcome input clean now m (reserve_room q requests_of input now o m)
  room-Outcome input clean now m none e l f = inr (refl, refl, (l, f, e))
  room-Outcome input clean now m (some x) e l f = inl (refl, refl)

  new-Outcome :
      (input : CreateInput) (clean : Bool) (now : ℕ) (m : State q) (b : Bool)
      → fenced input.config.identity.sandbox_uid input.config.identity.instance_generation
          input.config.identity.assignment_attempt m.tombstones
        ≡ b
      → lookup input.config.identity.sandbox_uid m.sandboxes ≡ none
      → Outcome input clean now m (reserve_unfenced q requests_of input clean now b m)
  new-Outcome input clean now m true f l = inl (refl, refl)
  new-Outcome input clean now m false f l =
      room-Outcome input clean now m (no_room q requests_of input.config clean m) refl l f

  by_uid-Outcome :
      (input : CreateInput) (clean : Bool) (now : ℕ) (m : State q) (o : Option ℕ)
      → lookup input.config.identity.sandbox_uid m.sandboxes ≡ o
      → Outcome input clean now m (reserve_by_uid q requests_of input clean now o m)
  by_uid-Outcome input clean now m (some a) l =
      existing-Outcome input clean now a (m.objects a).phase m
  by_uid-Outcome input clean now m none l = new-Outcome input clean now m _ refl l

  serving-Outcome :
      (input : CreateInput) (clean : Bool) (now : ℕ) (m : State q) (o : Option Failure)
      → Outcome input clean now m (reserve_serving q requests_of input clean now o m)
  serving-Outcome input clean now m (some f) = inl (refl, refl)
  serving-Outcome input clean now m none =
      by_uid-Outcome input clean now m (lookup input.config.identity.sandbox_uid m.sandboxes) refl

  pub reserve-Outcome :
      (input : CreateInput) (clean : Bool) (now : ℕ) (m : State q)
      → Outcome input clean now m (reserve_sandbox q requests_of input clean now m)
  unfolding reserve_sandbox
  reserve-Outcome input clean now m =
      serving-Outcome input clean now m (not_serving q requests_of input.bindings m)
