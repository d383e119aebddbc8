-- ===== src/AgentState/Refs.antt =====
-- The counts of one image under each operation on the reference table.
use fast_sandbox.Base.{
  ◌≡◌, inl, inr, some, String, Dict, lookup, insert, lookup-insert, Bool-cases, Option-cases, ◌==◌,
  text_equality, if◌then◌else◌, ℤ, pos, ◌+ℤ◌, ◌-ℤ◌, eq_iff,
}
use fast_sandbox.AgentState.Leases.{
  ImageRefs, refs_or_new, clamp, add_pin, drop_pin, add_lease, drop_lease,
}
use fast_sandbox.AgentState.Replay.{bumped}

abbrev pub refs_of : String → Dict ImageRefs → ImageRefs
refs_of i m = refs_or_new (lookup i m)

refs_of-insert :
    (i j : String) (r : ImageRefs) (m : Dict ImageRefs)
    → refs_of j (insert i r m) ≡ (if i == j then r else refs_of j m)
refs_of-insert i j r m = elim (Bool-cases (i == j)) [
  | inl e ↦ simp (lookup-insert, e)
  | inr e ↦ simp (lookup-insert, e)
]

pub refs_of-add_pin :
    (i j : String) (m : Dict ImageRefs)
    → refs_of j (add_pin i m) ≡ (
        if i == j
        then record (refs_of i m) { pin_count = (refs_of i m).pin_count +ℤ pos 1 }
        else refs_of j m)
unfolding add_pin
refs_of-add_pin i j m = refs_of-insert i j _ m

pub refs_of-add_lease :
    (i j : String) (m : Dict ImageRefs)
    → refs_of j (add_lease i m) ≡ (
        if i == j
        then record (refs_of i m) { lease_count = (refs_of i m).lease_count +ℤ pos 1 }
        else refs_of j m)
unfolding add_lease
refs_of-add_lease i j m = refs_of-insert i j _ m

pub refs_of-bumped :
    (i j : String) (d : ℤ) (m : Dict ImageRefs)
    → refs_of j (bumped i d m) ≡ (
        if i == j
        then record (refs_of i m) { pin_count = clamp ((refs_of i m).pin_count +ℤ d) }
        else refs_of j m)
unfolding bumped
refs_of-bumped i j d m = refs_of-insert i j _ m

-- An image without an entry has the count 0, which stays.
pub refs_of-drop_pin :
    (i j : String) (m : Dict ImageRefs)
    → refs_of j (drop_pin i m) ≡ (
        if i == j
        then record (refs_of i m) { pin_count = clamp ((refs_of i m).pin_count -ℤ pos 1) }
        else refs_of j m)
unfolding drop_pin ◌-ℤ◌
refs_of-drop_pin i j m = elim (Option-cases (lookup i m)) [
  | inl e ↦ elim (Bool-cases (i == j)) [
    | inl t ↦ rw (e, drop_pin) (rw (t) (rw (← (eq_iff i j).0 t) (rw e)))
    | inr f ↦ rw (e, drop_pin) (rw f)
  ]
  | inr (r, e) ↦ rw (e, drop_pin) (refs_of-insert i j _ m)
]

pub refs_of-drop_lease :
    (bound : ℤ → ℤ) (i j : String) (m : Dict ImageRefs) (r : ImageRefs)
    → lookup i m ≡ some r
    → refs_of j (drop_lease bound i m)
      ≡ (if i == j then record r { lease_count = bound (r.lease_count -ℤ pos 1) } else refs_of j m)
unfolding drop_lease
refs_of-drop_lease bound i j m r e = rw (e, drop_lease) (refs_of-insert i j _ m)
