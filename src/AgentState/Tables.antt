-- ===== src/AgentState/Tables.antt =====
-- The tables that recovery builds against the live ones: pins and new leases.

use fast_sandbox.Base.{
  ◌≡◌, ◌≢◌, inl, inr, String, insert, Bool-cases, ◌==◌, text_equality, arith, ℤ, pos, negsuc, ◌≤ℤ◌,
  ◌+ℤ◌, ◌-ℤ◌, int_laws, eq_iff,
}
use fast_sandbox.AgentState.Leases.{
  Lease, State, Op, Args, pin_image, unpin_image, lease_devices, release_devices, unknown, clamp,
  add_pin, drop_pin, add_lease,
}
use fast_sandbox.AgentState.Refs.{
  refs_of, refs_of-add_pin, refs_of-add_lease, refs_of-bumped, refs_of-drop_pin,
}
use fast_sandbox.AgentState.Held.{held, weight, held-insert-le}
use fast_sandbox.AgentState.Replay.{bumped}

-- The recovered tables `t` are those of `s`: an image without references may have an entry or not.
pub record Tables (s t : State) : Type 0 where
  pub leases : t.leases ≡ s.leases
  pub by_sandbox : t.by_sandbox ≡ s.by_sandbox
  pub refs : (i : String) → refs_of i t.images ≡ refs_of i s.images
  -- so the clamp at 0 is never reached
  pub covered : (i : String) → pos (held i s.leases) ≤ℤ (refs_of i s.images).lease_count
  pub counted : (i : String) → pos 0 ≤ℤ (refs_of i s.images).pin_count

-- What the server has checked of a call before the state sees it.
abbrev pub Sound : Op → Args → Type 0
Sound pin_image args = args.image ≢ ""
Sound unpin_image args = args.image ≢ ""
Sound lease_devices args = Unit
Sound release_devices args = Unit
Sound (unknown _) args = ⊥

minus_one : (c : ℤ) → c +ℤ negsuc 0 ≡ c -ℤ pos 1
minus_one c = omega int_laws

clamp_plus_one : (c : ℤ) → pos 0 ≤ℤ c → clamp (c +ℤ pos 1) ≡ c +ℤ pos 1
unfolding ◌+ℤ◌
clamp_plus_one c h = ground arith

-- How the references of every image change when those of one image do.
module _ (s t : State) (h : Tables s t) (k : String) where
  open h use {refs, covered, counted}

  pub pin-refs :
      (i : String) → refs_of i (bumped k (pos 1) t.images) ≡ refs_of i (add_pin k s.images)
  pin-refs i = elim (Bool-cases (k == i)) [
    | inl e ↦ simp (refs_of-bumped, refs_of-add_pin, e, refs k) (rw (clamp_plus_one _ (counted k)))
    | inr e ↦ simp (refs_of-bumped, refs_of-add_pin, e) (refs i)
  ]

  pub pin-covered :
      (i : String) → pos (held i s.leases) ≤ℤ (refs_of i (add_pin k s.images)).lease_count
  pin-covered i = elim (Bool-cases (k == i)) [
    | inl e ↦ simp (refs_of-add_pin, e) (rw ((eq_iff k i).0 e) (covered i))
    | inr e ↦ simp (refs_of-add_pin, e) (covered i)
  ]

  pub pin-counted : (i : String) → pos 0 ≤ℤ (refs_of i (add_pin k s.images)).pin_count
  pin-counted i = elim (Bool-cases (k == i)) [
    | inl e ↦ simp (refs_of-add_pin, e) (omega (int_laws, counted k))
    | inr e ↦ simp (refs_of-add_pin, e) (counted i)
  ]

  pub unpin-refs :
      (i : String) → refs_of i (bumped k (negsuc 0) t.images) ≡ refs_of i (drop_pin k s.images)
  unpin-refs i = elim (Bool-cases (k == i)) [
    | inl e ↦ simp (refs_of-bumped, refs_of-drop_pin, e, refs k, minus_one)
    | inr e ↦ simp (refs_of-bumped, refs_of-drop_pin, e) (refs i)
  ]

  pub unpin-covered :
      (i : String) → pos (held i s.leases) ≤ℤ (refs_of i (drop_pin k s.images)).lease_count
  unpin-covered i = elim (Bool-cases (k == i)) [
    | inl e ↦ simp (refs_of-drop_pin, e) (rw ((eq_iff k i).0 e) (covered i))
    | inr e ↦ simp (refs_of-drop_pin, e) (covered i)
  ]

  clamp_nonneg : (c : ℤ) → pos 0 ≤ℤ clamp c
  clamp_nonneg c = ground arith

  pub unpin-counted : (i : String) → pos 0 ≤ℤ (refs_of i (drop_pin k s.images)).pin_count
  unpin-counted i = elim (Bool-cases (k == i)) [
    | inl e ↦ simp (refs_of-drop_pin, e) (clamp_nonneg ((refs_of k s.images).pin_count -ℤ pos 1))
    | inr e ↦ simp (refs_of-drop_pin, e) (counted i)
  ]

  pub lease-refs :
      (i : String) → refs_of i (add_lease k t.images) ≡ refs_of i (add_lease k s.images)
  lease-refs i = elim (Bool-cases (k == i)) [
    | inl e ↦ simp (refs_of-add_lease, e, refs k)
    | inr e ↦ simp (refs_of-add_lease, e) (refs i)
  ]

  pub lease-counted : (i : String) → pos 0 ≤ℤ (refs_of i (add_lease k s.images)).pin_count
  lease-counted i = elim (Bool-cases (k == i)) [
    | inl e ↦ simp (refs_of-add_lease, e) (counted k)
    | inr e ↦ simp (refs_of-add_lease, e) (counted i)
  ]

pub lease-covered :
    (s : State) (l : Lease)
    → ((i : String) → pos (held i s.leases) ≤ℤ (refs_of i s.images).lease_count)
    → (i : String)
    → pos (held i (insert l.lease_id l s.leases))
      ≤ℤ (refs_of i (add_lease l.image s.images)).lease_count
lease-covered s l covered i = elim (Bool-cases (l.image == i)) [
  | inl e ↦
      let here : pos (held i s.leases) ≤ℤ (refs_of l.image s.images).lease_count =
        rw ((eq_iff l.image i).0 e) (covered i) in
      let one : weight i l ≡ 1 = rw e in
      simp (refs_of-add_lease, e) (omega (int_laws, held-insert-le i l.lease_id l s.leases))
  | inr e ↦
      let nil : weight i l ≡ 0 = rw e in
      simp (refs_of-add_lease, e)
        (omega (int_laws, covered i, held-insert-le i l.lease_id l s.leases))
]
