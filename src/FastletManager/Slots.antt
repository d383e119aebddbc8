-- ===== src/FastletManager/Slots.antt =====
-- The slots that the manager counts, reports and gives out.
use fast_sandbox.Base.{
  ℕ, ◌+◌, ◌<◌, ◌≡◌, refl, ==_refl, nat_equality, inl, inr, Bool, true, false, Option, none, List,
  [], ◌∷◌, ◌++◌, map, keep_if, length, All, String, Dict, lookup, insert, pos, ◌≤ℤ◌, arith, ◌==◌,
  text_equality, if◌then◌else◌,
}
use fast_sandbox.Placement.Quantity.{Quantities}
use fast_sandbox.Placement.Types.{Demand}
use fast_sandbox.FastletManager.Phases.{Phase, column_of, occupies}
use fast_sandbox.FastletManager.Records.{
  RuntimeConfig, Metadata, Manager, SlotStatus, active, phases, slot_status, count_phases,
  count_column, write_object,
}
use fast_sandbox.FastletManager.Create.{State, CreateInput}
use fast_sandbox.FastletManager.Reserve.{reserve_sandbox, no_room, place, placeholder_of}
use fast_sandbox.FastletManager.Granted.{reserve-Outcome, is_placed}

abbrev total : SlotStatus → ℕ
total s = s.creating + s.running + s.deleting

column-total :
    (p : Phase) (s : SlotStatus)
    → total (count_column s (column_of p)) ≡ total s + (if occupies p then 1 else 0)
unfolding column_of occupies
column-total p s = ground arith

count-one :
    (b : Bool) (p : Phase) (ps : List Phase)
    → length (if b then p ∷ ps else ps) ≡ (if b then 1 else 0) + length ps
count-one true p ps = omega arith
count-one false p ps = omega arith

count_phases-total :
    (ps : List Phase) (s : SlotStatus)
    → total (count_phases ps s) ≡ total s + length (keep_if occupies ps)
unfolding count_phases
count_phases-total [] s = omega arith
count_phases-total (p ∷ ps) s = omega (
  arith,
  count_phases-total ps (count_column s (column_of p)),
  column-total p s,
  count-one (occupies p) p (keep_if occupies ps),
)

-- The slots in use that the Fastlet reports are those that its admission counts: the two lists of phases
-- in the code agree.
pub slot_status-active : {Q : Type 0} → (m : Manager Q) → (slot_status m).used ≡ active m
unfolding slot_status active
slot_status-active m =
    let empty : SlotStatus = record {
      capacity = m.capacity;
      creating = 0;
      running = 0;
      deleting = 0;
      used = 0;
    } in
    omega (arith, count_phases-total (phases m) empty)

insert-append :
    {V : Type 0} (k : String) (v : V) (d : Dict V)
    → lookup k d ≡ none
    → insert k v d ≡ d ++ (k, v) ∷ []
unfolding lookup insert
insert-append k v [] e = refl
insert-append k v ((j, w) ∷ d) e = ground (arith, insert-append k v d)

-- Every address in the map was given out.
abbrev pub Known : {Q : Type 0} → Manager Q → Type 0
Known m = All (λ entry. entry.1 < m.next_object) m.sandboxes

module _ (q : Quantities) (requests_of : RuntimeConfig → Option (Demand q.Quantity)) where
  other_address : (next a : ℕ) → a < next → (next == a) ≡ false
  other_address next a h = ground arith

  -- An entry at the end, at an address that the others do not have.
  append-active :
      (input : CreateInput) (now next : ℕ) (uid : String) (objects : ℕ → Metadata) (d : Dict ℕ)
      → All (λ entry. entry.1 < next) d
      → length (
          keep_if occupies (
            map
              (λ entry.
                (write_object next (placeholder_of q requests_of input now) objects entry.1).phase)
              (d ++ (uid, next) ∷ [])))
        ≡ length (keep_if occupies (map (λ entry. (objects entry.1).phase) d)) + 1
  unfolding occupies
  append-active input now next uid objects [] known = rw (==_refl next) refl
  append-active input now next uid objects ((k, a) ∷ d) (h, known) = rw (other_address next a h) (
      omega (
        arith,
        append-active input now next uid objects d known,
        count-one (occupies (objects a).phase) (objects a).phase
            (keep_if occupies (map (λ entry. (objects entry.1).phase) d)),
        count-one (occupies (objects a).phase) (objects a).phase (
            keep_if occupies (
              map
                (λ entry.
                  (write_object next (placeholder_of q requests_of input now) objects
                    entry.1).phase)
                (d ++ (uid, next) ∷ []))),
      ))

  place-active :
      (input : CreateInput) (now : ℕ) (m : State q)
      → Known m
      → lookup input.config.identity.sandbox_uid m.sandboxes ≡ none
      → active (place q requests_of input now m) ≡ active m + 1
  unfolding place active phases
  place-active input now m known l =
      rw (insert-append input.config.identity.sandbox_uid m.next_object m.sandboxes l) (
        append-active input now m.next_object input.config.identity.sandbox_uid m.objects
          m.sandboxes known)

  no_room-slots :
      (input : CreateInput) (clean : Bool) (m : State q)
      → no_room q requests_of input.config clean m ≡ none
      → pos (active m + 1) ≤ℤ m.capacity
  no_room-slots input clean m e = ground arith

  -- A create that is given a place in a manager whose addresses were given out takes one slot, and leaves
  -- the slots in use, counted and reported, within the capacity.
  pub reserve_sandbox-capacity :
      (input : CreateInput) (clean : Bool) (now : ℕ) (m : State q)
      → Known m
      → is_placed (reserve_sandbox q requests_of input clean now m).0 ≡ true
      → (active (reserve_sandbox q requests_of input clean now m).1 ≡ active m + 1)
        × (pos (slot_status (reserve_sandbox q requests_of input clean now m).1).used ≤ℤ m.capacity)
  reserve_sandbox-capacity input clean now m known granted =
      elim (reserve-Outcome q requests_of input clean now m) [
        | inl (p, e) ↦ absurd (cc (p, granted))
        | inr (p, e, (l, f, r)) ↦
            let one = place-active input now m known l in
            rw e (
              one,
              omega (
                arith,
                slot_status-active (place q requests_of input now m),
                one,
                no_room-slots input clean m r,
              ),
            )
      ]
