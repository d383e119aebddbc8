-- ===== src/FastletManager/Tombstones.antt =====
-- The fence that a delete leaves.
use fast_sandbox.Base.{
  ℕ, ◌≡◌, refl, ap, ◌⊎◌, inl, inr, Bool, true, false, ◌&&◌, Option, none, some, List, [], ◌∷◌,
  String, ℤ, Bool-cases, lookup, arith,
}
use fast_sandbox.Placement.Quantity.{Quantities}
use fast_sandbox.Placement.Types.{Demand}
use fast_sandbox.FastletManager.Phases.{terminating}
use fast_sandbox.FastletManager.Identity.{
  SandboxIdentity, Failure, fenced, identity_at_or_before, record_tombstone,
}
use fast_sandbox.FastletManager.Identity.Fences.{record_tombstone-fenced, record_tombstone_self}
use fast_sandbox.FastletManager.Records.{RuntimeConfig, uid_of, held, forget, set_phase}
use fast_sandbox.FastletManager.Create.{State, CreateInput}
use fast_sandbox.FastletManager.Reserve.{
  place, reserve_sandbox, runtime_create_failed, commit_runtime_create, park, resume_boot,
  mark_create_failed,
}
use fast_sandbox.FastletManager.Delete.{
  delete_by, note_pending, is_creating, buried, delete_found, delete_checked, delete_targeted,
  DeleteStep, delete_done, delete_accepted, delete_sandbox, dispatch_delete, async_delete_failed,
  async_delete_done, begin_cleanup, end_cleanup,
}
use fast_sandbox.FastletManager.Granted.{reserve-Outcome, is_placed}
use fast_sandbox.FastletManager.Drain.{set_draining}
use fast_sandbox.FastletManager.History.{
  Event, reserves, binding_fails, create_parks, boot_resumes, boot_fails, delete_fails, delete_ends,
  create_fails, cleanup_ends, create_commits, deletes, delete_dispatches, cleanup_begins, drains,
  pressure, step, run,
}

abbrev pub is_accepted : DeleteStep → Bool
is_accepted (delete_done f) = false
is_accepted (delete_accepted a strict was_creating) = true

module _ (q : Quantities) (requests_of : RuntimeConfig → Option (Demand q.Quantity)) where
  -- The tombstones stay, or one is recorded.
  abbrev Kept : State q → State q → Type 0
  Kept m n =
      (n.tombstones ≡ m.tombstones)
      ⊎ ((i : SandboxIdentity) × (n.tombstones ≡ record_tombstone i m.tombstones))

  reserve-Kept :
      (input : CreateInput) (clean : Bool) (now : ℕ) (m : State q)
      → (reserve_sandbox q requests_of input clean now m).1.tombstones ≡ m.tombstones
  unfolding place
  reserve-Kept input clean now m = elim (reserve-Outcome q requests_of input clean now m) [
    | inl (p, e) ↦ ap (λ n. n.tombstones) e
    | inr (p, e, room) ↦ ap (λ n. n.tombstones) e
  ]

  -- An accepted delete records the tombstone, and any other delete changes nothing.
  abbrev pub Deleted : SandboxIdentity → State q → DeleteStep × State q → Type 0
  Deleted i m x =
      ((is_accepted x.0 ≡ false) × (x.1 ≡ m))
      ⊎ ((is_accepted x.0 ≡ true)
          × (x.1.tombstones ≡ record_tombstone i m.tombstones)
          × (x.1.draining ≡ m.draining)
          × (x.1.drain_id ≡ m.drain_id)
          × (x.1.sandboxes ≡ m.sandboxes)
          × (x.1.next_object ≡ m.next_object))

  pending-tombstones :
      (b : Bool) (uid : String) (m : State q)
      → ((note_pending b uid m).tombstones ≡ m.tombstones)
        × ((note_pending b uid m).draining ≡ m.draining)
        × ((note_pending b uid m).drain_id ≡ m.drain_id)
        × ((note_pending b uid m).sandboxes ≡ m.sandboxes)
        × ((note_pending b uid m).next_object ≡ m.next_object)
  pending-tombstones true uid m = (refl, refl, refl, refl, refl)
  pending-tombstones false uid m = (refl, refl, refl, refl, refl)

  by-Deleted :
      (b ending : Bool) (i : SandboxIdentity) (a : ℕ) (strict : Bool) (m : State q)
      → Deleted i m (delete_by b ending i a strict m)
  unfolding set_phase
  by-Deleted true ending i a strict m = inl (refl, refl)
  by-Deleted false true i a strict m = inr (refl, refl, refl, refl, refl, refl)
  by-Deleted false false i a strict m =
      let (t, d, d', s, n) =
        pending-tombstones (strict && is_creating (m.objects a).phase) i.sandbox_uid
          (set_phase a terminating m) in
      inr (refl, ap (record_tombstone i) t, d, d', s, n)

  checked-Deleted :
      (o : Option Failure) (i : SandboxIdentity) (a : ℕ) (strict : Bool) (m : State q)
      → Deleted i m (delete_checked o i a strict m)
  checked-Deleted (some f) i a strict m = inl (refl, refl)
  checked-Deleted none i a strict m = by-Deleted _ _ i a strict m

  found-Deleted :
      (i : SandboxIdentity) (o : Option ℕ) (m : State q) → Deleted i m (delete_found i o m)
  found-Deleted i none m = inr (refl, refl, refl, refl, refl, refl)
  found-Deleted i (some a) m = checked-Deleted _ i a _ m

  targeted-Deleted :
      (i : SandboxIdentity) (o : Option Failure) (m : State q) → Deleted i m (delete_targeted o i m)
  targeted-Deleted i (some f) m = inl (refl, refl)
  targeted-Deleted i none m = found-Deleted i (lookup i.sandbox_uid m.sandboxes) m

  pub delete-Deleted : (i : SandboxIdentity) (m : State q) → Deleted i m (delete_sandbox i m)
  unfolding delete_sandbox
  delete-Deleted i m = targeted-Deleted i _ m

  delete-Kept : (i : SandboxIdentity) (m : State q) → Kept m (delete_sandbox i m).1
  delete-Kept i m = elim (delete-Deleted i m) [
    | inl (p, e) ↦ inl (ap (λ n. n.tombstones) e)
    | inr (p, e, d, d', s, n) ↦ inr (i, e)
  ]

  step-Kept : (e : Event) (m : State q) → Kept m (step q requests_of e m)
  unfolding step forget set_phase park resume_boot mark_create_failed async_delete_failed
      async_delete_done runtime_create_failed end_cleanup commit_runtime_create dispatch_delete
      begin_cleanup set_draining
  step-Kept (reserves input clean now) m = inl (reserve-Kept input clean now m)
  step-Kept (binding_fails a) m = inl (ground arith)
  step-Kept (create_parks a) m = inl (ground arith)
  step-Kept (boot_resumes a) m = inl (ground arith)
  step-Kept (boot_fails a) m = inl (ground arith)
  step-Kept (delete_fails a) m = inl (ground arith)
  step-Kept (delete_ends a) m = elim (Bool-cases (held (uid_of (m.objects a)) a m)) [
    | inl e ↦ inr (buried (m.objects a), rw e refl)
    | inr e ↦ inl (rw e refl)
  ]
  step-Kept (create_fails a true) m = inl (ground arith)
  step-Kept (create_fails a false) m = inl (ground arith)
  step-Kept (cleanup_ends a cleaned) m = inl (ground arith)
  step-Kept (create_commits input a now) m = inl (ground arith)
  step-Kept (deletes i) m = delete-Kept i m
  step-Kept (delete_dispatches a strict was_creating busy) m = inl (ground arith)
  step-Kept (cleanup_begins a requested) m = inl (ground arith)
  step-Kept (drains r) m = inl (ground arith)
  step-Kept (pressure state reason) m = inl refl

  run-fenced :
      (events : List Event) (m : State q) (uid : String) (g a : ℤ)
      → fenced uid g a m.tombstones ≡ true
      → fenced uid g a (run q requests_of events m).tombstones ≡ true
  unfolding run
  run-fenced [] m uid g a h = h
  run-fenced (e ∷ rest) m uid g a h =
      run-fenced rest (step q requests_of e m) uid g a (elim (step-Kept e m) [
        | inl same ↦ rw same h
        | inr (i, next) ↦ rw next (record_tombstone-fenced i m.tombstones uid g a h)
      ])

  accepted-fenced :
      (i : SandboxIdentity) (m : State q) (g a : ℤ)
      → is_accepted (delete_sandbox i m).0 ≡ true
      → identity_at_or_before g a i ≡ true
      → fenced i.sandbox_uid g a (delete_sandbox i m).1.tombstones ≡ true
  accepted-fenced i m g a accepted before = elim (delete-Deleted i m) [
    | inl (p, e) ↦ absurd (cc (p, accepted))
    | inr (p, e, d, d', s, n) ↦ rw e (record_tombstone_self i m.tombstones g a before)
  ]

  -- Once a delete has been accepted for an identity, whatever creates, deletes, failures, cleanups and drains
  -- follow in any order, no create of that UID with a generation and attempt at or before the deleted
  -- ones is given a place.
  pub deleted-never_placed :
      (i : SandboxIdentity) (m : State q) (events : List Event) (input : CreateInput) (clean : Bool)
      (now : ℕ)
      → is_accepted (delete_sandbox i m).0 ≡ true
      → input.config.identity.sandbox_uid ≡ i.sandbox_uid
      → identity_at_or_before input.config.identity.instance_generation
          input.config.identity.assignment_attempt i
        ≡ true
      → is_placed
          (reserve_sandbox q requests_of input clean now
            (run q requests_of events (delete_sandbox i m).1)).0
        ≡ false
  deleted-never_placed i m events input clean now accepted same before =
      elim (reserve-Outcome q requests_of input clean now
        (run q requests_of events (delete_sandbox i m).1)) [
          | inl (p, e) ↦ p
          | inr (p, e, (l, f, r)) ↦
              let g = input.config.identity.instance_generation in
              let a = input.config.identity.assignment_attempt in
              let t : fenced input.config.identity.sandbox_uid g a
                    (run q requests_of events (delete_sandbox i m).1).tombstones
                  ≡ true =
                rw same (
                  run-fenced events (delete_sandbox i m).1 i.sandbox_uid g a
                    (accepted-fenced i m g a accepted before)) in
              absurd (cc (t, f))
        ]
