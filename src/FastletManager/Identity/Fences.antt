-- ===== src/FastletManager/Identity/Fences.antt =====
-- What the fence between identities lets through, and that a tombstone only rises.
use fast_sandbox.Base.{
  ◌≡◌, ◌↔◌, ◌⊎◌, inl, inr, refl, true, false, ◌||◌, Option, none, some, String, Dict, lookup,
  lookup-insert, lookup-insert_self, sym, ◌==◌, text_equality, int_equality, eq_iff, eq_of_parts, ℤ,
  pos, ltb_ℤ, leb_ℤ, arith, Bool-cases,
}
use fast_sandbox.FastletManager.Identity.{
  SandboxIdentity, validate_identity_fence, record_tombstone, fenced, fenced_by, before_identity,
  identity_at_or_before,
}

abbrev pub SameInstance : String → SandboxIdentity → SandboxIdentity → Type 0
SameInstance pod existing i =
    ((pod == "" || i.fastlet_pod_uid == pod) ≡ true)
    × (i.instance_generation ≡ existing.instance_generation)
    × (i.assignment_attempt ≡ existing.assignment_attempt)
    × (i.runtime_instance_id ≡ existing.runtime_instance_id)
    × ((leb_ℤ i.route_generation (pos 0) ≡ true) ⊎ (i.route_generation ≡ existing.route_generation))

antisym_ℤ : (a b : ℤ) → ltb_ℤ a b ≡ false → ltb_ℤ b a ≡ false → a ≡ b
antisym_ℤ a b h k = ground (arith, eq_of_parts a b)

fence-SameInstance :
    (pod : String) (existing i : SandboxIdentity)
    → validate_identity_fence pod existing i ≡ none
    → SameInstance pod existing i
unfolding validate_identity_fence
fence-SameInstance pod existing i e = ground (
  arith,
  antisym_ℤ i.instance_generation existing.instance_generation,
  antisym_ℤ i.assignment_attempt existing.assignment_attempt,
  antisym_ℤ i.route_generation existing.route_generation,
  eq_iff i.runtime_instance_id existing.runtime_instance_id,
)

SameInstance-fence :
    (pod : String) (existing i : SandboxIdentity)
    → SameInstance pod existing i
    → validate_identity_fence pod existing i ≡ none
unfolding validate_identity_fence
SameInstance-fence pod existing i same =
    ground (arith, eq_iff i.runtime_instance_id existing.runtime_instance_id)

-- The fence between a managed Sandbox and a request gives no error exactly when the request is for this
-- pod (where the Fastlet knows its own), for the same generation, attempt and runtime instance, and names
-- the same route generation or none.
pub validate_identity_fence-SameInstance :
    (pod : String) (existing i : SandboxIdentity)
    → (validate_identity_fence pod existing i ≡ none) ↔ SameInstance pod existing i
validate_identity_fence-SameInstance pod existing i =
    (fence-SameInstance pod existing i, SameInstance-fence pod existing i)

before-at_or_before :
    (t i : SandboxIdentity) (g a : ℤ)
    → before_identity (some t) i ≡ true
    → identity_at_or_before g a t ≡ true
    → identity_at_or_before g a i ≡ true
unfolding identity_at_or_before
before-at_or_before t i g a b h = ground arith

record_tombstone-lookup :
    (i : SandboxIdentity) (tombstones : Dict SandboxIdentity) (uid : String)
    → (lookup uid (record_tombstone i tombstones) ≡ lookup uid tombstones)
      ⊎ ((lookup uid (record_tombstone i tombstones) ≡ some i)
          × (before_identity (lookup uid tombstones) i ≡ true))
unfolding record_tombstone
record_tombstone-lookup i tombstones uid =
    elim (Bool-cases (before_identity (lookup i.sandbox_uid tombstones) i)) [
      | inr e ↦ inl (rw e refl)
      | inl e ↦ elim (Bool-cases (i.sandbox_uid == uid)) [
        | inl same ↦
            let path : i.sandbox_uid ≡ uid = (eq_iff i.sandbox_uid uid).0 same in
            inr (simp (e, lookup-insert, same), rw (sym path) e)
        | inr other ↦ inl (simp (e, lookup-insert, other))
      ]
    ]

fenced_by-before :
    (old : Option SandboxIdentity) (i : SandboxIdentity) (g a : ℤ)
    → before_identity old i ≡ true
    → fenced_by old g a ≡ true
    → identity_at_or_before g a i ≡ true
fenced_by-before none i g a b h = absurd (cc h)
fenced_by-before (some t) i g a b h = before-at_or_before t i g a b h

-- A tombstone that is recorded never lowers a fence, of any UID.
pub record_tombstone-fenced :
    (i : SandboxIdentity) (tombstones : Dict SandboxIdentity) (uid : String) (g a : ℤ)
    → fenced uid g a tombstones ≡ true
    → fenced uid g a (record_tombstone i tombstones) ≡ true
unfolding fenced
record_tombstone-fenced i tombstones uid g a h = elim (record_tombstone-lookup i tombstones uid) [
  | inl e ↦ rw e h
  | inr (e, b) ↦ rw e (fenced_by-before (lookup uid tombstones) i g a b h)
]

not_before-fenced :
    (old : Option SandboxIdentity) (i : SandboxIdentity) (g a : ℤ)
    → before_identity old i ≡ false
    → identity_at_or_before g a i ≡ true
    → fenced_by old g a ≡ true
unfolding identity_at_or_before
not_before-fenced none i g a b h = absurd (cc b)
not_before-fenced (some t) i g a b h =
    ground (arith, antisym_ℤ t.instance_generation i.instance_generation)

-- It fences the identity it is recorded for, and all before it.
pub record_tombstone_self :
    (i : SandboxIdentity) (tombstones : Dict SandboxIdentity) (g a : ℤ)
    → identity_at_or_before g a i ≡ true
    → fenced i.sandbox_uid g a (record_tombstone i tombstones) ≡ true
unfolding fenced record_tombstone
record_tombstone_self i tombstones g a h =
    elim (Bool-cases (before_identity (lookup i.sandbox_uid tombstones) i)) [
      | inl e ↦ rw (e, lookup-insert_self i.sandbox_uid i tombstones) h
      | inr e ↦ rw e (not_before-fenced (lookup i.sandbox_uid tombstones) i g a e h)
    ]
