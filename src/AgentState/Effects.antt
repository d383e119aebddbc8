-- ===== src/AgentState/Effects.antt =====
-- The tables that recovery builds against the live ones: releases, and the effect of every call.

use fast_sandbox.Base.{
  ◌≡◌, refl, inl, inr, none, some, String, Dict, lookup, insert, remove, Bool-cases, Option-cases,
  ◌==◌, text_equality, arith, ap, ℤ, pos, negsuc, ◌≤ℤ◌, ◌-ℤ◌, int_laws, eq_iff, ==_refl, ==_false,
}
use fast_sandbox.AgentState.Leases.{
  Lease, State, ImageRefs, Op, Args, Result, pin_image, unpin_image, lease_devices, release_devices,
  unknown, clamp, drop_lease, record_lease, forget_lease, apply_result,
}
use fast_sandbox.AgentState.Refs.{refs_of, refs_of-drop_lease}
use fast_sandbox.AgentState.Held.{held, weight, held-remove}
use fast_sandbox.AgentState.Replay.{bumped, bump_pin, replay_effect}
use fast_sandbox.AgentState.Tables.{
  Tables, Sound, pin-refs, pin-covered, pin-counted, unpin-refs, unpin-covered, unpin-counted,
  lease-refs, lease-counted, lease-covered,
}

-- A lease that is found is counted, so its image has an entry in both tables.
positive-found :
    (m : Dict ImageRefs) (k : String)
    → pos 1 ≤ℤ (refs_of k m).lease_count
    → (r : ImageRefs) × (lookup k m ≡ some r)
positive-found m k h = elim (Option-cases (lookup k m)) [
  | inl e ↦ absurd (omega (arith, (rw e at h)))
  | inr found ↦ found
]

clamp_positive : (c : ℤ) → pos 1 ≤ℤ c → clamp (c -ℤ pos 1) ≡ c -ℤ pos 1
unfolding ◌-ℤ◌
clamp_positive c h = ground arith

module _ (s t : State) (h : Tables s t) (id : String) (l : Lease)
    (found : lookup id s.leases ≡ some l) where
  open h use {refs, covered, counted}

  held_positive : pos 1 ≤ℤ (refs_of l.image s.images).lease_count
  held_positive =
      let one : weight l.image l ≡ 1 = rw (==_refl l.image) in
      omega (arith, covered l.image, held-remove l.image id l s.leases found)

  release-refs :
      (i : String)
      → refs_of i (drop_lease (λ c. c) l.image t.images)
        ≡ refs_of i (drop_lease clamp l.image s.images)
  release-refs i =
      let (r, e) = positive-found s.images l.image held_positive in
      let (r', e') = positive-found t.images l.image (rw (refs l.image) held_positive) in
      let same : r' ≡ r = rw (e, e') at (refs l.image) in
      let one : pos 1 ≤ℤ r.lease_count = rw e at held_positive in
      rw (
        refs_of-drop_lease (λ c. c) l.image i t.images r' e',
        refs_of-drop_lease clamp l.image i s.images r e,
        same,
        clamp_positive r.lease_count one,
        refs i,
      )

  release-covered :
      (i : String)
      → pos (held i (remove id s.leases))
        ≤ℤ (refs_of i (drop_lease clamp l.image s.images)).lease_count
  release-covered i =
      let (r, e) = positive-found s.images l.image held_positive in
      let one : pos 1 ≤ℤ r.lease_count = rw e at held_positive in
      rw (refs_of-drop_lease clamp l.image i s.images r e, clamp_positive r.lease_count one)
        (elim (Bool-cases (l.image == i)) [
          | inl t ↦
              let named : pos (held i s.leases) ≤ℤ (refs_of l.image s.images).lease_count =
                rw ((eq_iff l.image i).0 t) (covered i) in
              let here : pos (held i s.leases) ≤ℤ r.lease_count = rw e at named in
              let weighs : weight i l ≡ 1 = rw t in
              rw t (omega (int_laws, held-remove i id l s.leases found))
          | inr f ↦ rw f (omega (arith, covered i, held-remove i id l s.leases found))
        ])

  release-counted :
      (i : String) → pos 0 ≤ℤ (refs_of i (drop_lease clamp l.image s.images)).pin_count
  release-counted i =
      let (r, e) = positive-found s.images l.image held_positive in
      rw (refs_of-drop_lease clamp l.image i s.images r e) (elim (Bool-cases (l.image == i)) [
        | inl t ↦ rw t (rw e at (counted l.image))
        | inr f ↦ rw f (counted i)
      ])

record_lease-Tables :
    (l : Lease) (s t : State) → Tables s t → Tables (record_lease l s) (record_lease l t)
unfolding record_lease
record_lease-Tables l s t h = record {
  leases = ap (insert l.lease_id l) h.leases;
  by_sandbox = ap (insert l.sandbox_id l.lease_id) h.by_sandbox;
  refs = lease-refs s t h l.image;
  covered = lease-covered s l h.covered;
  counted = lease-counted s t h l.image;
}

forget_lease-Tables :
    (id : String) (s t : State)
    → Tables s t
    → Tables (forget_lease clamp id s) (forget_lease (λ c. c) id t)
unfolding forget_lease
forget_lease-Tables id s t h = elim (Option-cases (lookup id s.leases)) [
  | inl e ↦ let gone : lookup id t.leases ≡ none = rw h.leases e in rw (e, gone, forget_lease) h
  | inr (l, e) ↦
      let there : lookup id t.leases ≡ some l = rw h.leases e in
      rw (e, there, forget_lease)
        (record {
          leases = ap (remove id) h.leases;
          by_sandbox = ap (remove l.sandbox_id) h.by_sandbox;
          refs = release-refs s t h id l e;
          covered = release-covered s t h id l e;
          counted = release-counted s t h id l e;
        })
]

-- What the effects leave alone.
abbrev pub Keeps : State → State → Type 0
Keeps s t = (t.completed ≡ s.completed) × (t.inflight ≡ s.inflight) × (t.journal ≡ s.journal)

forget_lease-Keeps : (bound : ℤ → ℤ) (id : String) (s : State) → Keeps s (forget_lease bound id s)
unfolding forget_lease
forget_lease-Keeps bound id s = elim (Option-cases (lookup id s.leases)) [
  | inl e ↦ rw (e, forget_lease) (refl, refl, refl)
  | inr (l, e) ↦ rw (e, forget_lease) (refl, refl, refl)
]

pub apply_result-Keeps :
    (op : Op) (args : Args) (r : Result) (s : State) → Keeps s (apply_result op args r s)
unfolding apply_result record_lease
apply_result-Keeps pin_image args r s = (refl, refl, refl)
apply_result-Keeps unpin_image args r s = (refl, refl, refl)
apply_result-Keeps lease_devices args r s = (refl, refl, refl)
apply_result-Keeps release_devices args r s = forget_lease-Keeps clamp args.lease_id s
apply_result-Keeps (unknown u) args r s = (refl, refl, refl)

pub effect-Tables :
    (op : Op) (args : Args) (r : Result) (s t : State)
    → Sound op args
    → Tables s t
    → (t' : State) × (replay_effect op args r t ≡ some t')
      × Tables (apply_result op args r s) t'
      × (t'.completed ≡ t.completed)
unfolding replay_effect apply_result bump_pin record_lease
effect-Tables pin_image args r s t ok h = (
  record t { images = bumped args.image (pos 1) t.images },
  rw (==_false args.image "" ok),
  record {
    leases = h.leases;
    by_sandbox = h.by_sandbox;
    refs = pin-refs s t h args.image;
    covered = pin-covered s t h args.image;
    counted = pin-counted s t h args.image;
  },
  refl,
)
effect-Tables unpin_image args r s t ok h = (
  record t { images = bumped args.image (negsuc 0) t.images },
  rw (==_false args.image "" ok),
  record {
    leases = h.leases;
    by_sandbox = h.by_sandbox;
    refs = unpin-refs s t h args.image;
    covered = unpin-covered s t h args.image;
    counted = unpin-counted s t h args.image;
  },
  refl,
)
effect-Tables lease_devices args r s t ok h =
    (record_lease r.lease t, refl, record_lease-Tables r.lease s t h, refl)
effect-Tables release_devices args r s t ok h = (
  forget_lease (λ c. c) args.lease_id t,
  refl,
  forget_lease-Tables args.lease_id s t h,
  (forget_lease-Keeps (λ c. c) args.lease_id t).0,
)
effect-Tables (unknown u) args r s t ok h = absurd ok
