-- ===== src/FastletManager/Addresses.antt =====
-- The addresses in the manager's map were given out.
use fast_sandbox.Base.{
  ◌<◌, ◌+◌, All, All-map, insert, remove, ◌==◌, text_equality, ℕ, ◌≡◌, inl, inr, Bool, true, false,
  Option, List, [], ◌∷◌, String, Dict, Bool-cases, arith,
}
use fast_sandbox.Placement.Quantity.{Quantities}
use fast_sandbox.Placement.Types.{Demand}
use fast_sandbox.FastletManager.Identity.{SandboxIdentity}
use fast_sandbox.FastletManager.Records.{RuntimeConfig, uid_of, held, forget, set_phase}
use fast_sandbox.FastletManager.Create.{State, CreateInput}
use fast_sandbox.FastletManager.Reserve.{
  is_terminating, place, reserve_sandbox, runtime_create_failed, commit_runtime_create, park,
  resume_boot, mark_create_failed,
}
use fast_sandbox.FastletManager.Delete.{
  delete_sandbox, dispatch_delete, async_delete_failed, async_delete_done, begin_cleanup,
  end_cleanup,
}
use fast_sandbox.FastletManager.Granted.{reserve-Outcome}
use fast_sandbox.FastletManager.Drain.{set_draining}
use fast_sandbox.FastletManager.History.{
  Event, reserves, binding_fails, create_parks, boot_resumes, boot_fails, delete_fails, delete_ends,
  create_fails, cleanup_ends, create_commits, deletes, delete_dispatches, cleanup_begins, drains,
  pressure, step, run,
}
use fast_sandbox.FastletManager.Tombstones.{delete-Deleted}
use fast_sandbox.FastletManager.Slots.{Known}

insert-All :
    {V : Type 0} (P : String × V → Type 0) (k : String) (v : V) (d : Dict V)
    → P (k, v)
    → All P d
    → All P (insert k v d)
unfolding insert
insert-All P k v [] p ps = (p, tt)
insert-All P k v ((j, w) ∷ d) p (h, ps) = elim (Bool-cases (j == k)) [
  | inl e ↦ rw e (p, ps)
  | inr e ↦ rw e (h, insert-All P k v d p ps)
]

remove-All :
    {V : Type 0} (P : String × V → Type 0) (k : String) (d : Dict V) → All P d → All P (remove k d)
unfolding remove
remove-All P k [] ps = tt
remove-All P k ((j, w) ∷ d) (h, ps) = elim (Bool-cases (j == k)) [
  | inl e ↦ rw e (remove-All P k d ps)
  | inr e ↦ rw e (h, remove-All P k d ps)
]

-- A new address, at any UID.
given-All :
    (uid : String) (next : ℕ) (d : Dict ℕ)
    → All (λ entry. entry.1 < next) d
    → All (λ entry. entry.1 < next + 1) (insert uid next d)
given-All uid next d known =
    insert-All (λ entry. entry.1 < next + 1) uid next d (omega arith)
      (All-map d (λ entry h. omega (arith, h)) known)

module _ (q : Quantities) (requests_of : RuntimeConfig → Option (Demand q.Quantity)) where
  same-Known :
      (m n : State q)
      → n.sandboxes ≡ m.sandboxes
      → n.next_object ≡ m.next_object
      → Known m
      → Known n
  same-Known m n s e known = rw (s, e) known

  forget-Known : (a : ℕ) (m : State q) → Known m → Known (forget a m)
  unfolding forget
  forget-Known a m known = elim (Bool-cases (held (uid_of (m.objects a)) a m)) [
    | inl e ↦
        rw e
          (remove-All (λ entry. entry.1 < m.next_object) (uid_of (m.objects a)) m.sandboxes known)
    | inr e ↦ rw e known
  ]

  reserve-Known :
      (input : CreateInput) (clean : Bool) (now : ℕ) (m : State q)
      → Known m
      → Known (reserve_sandbox q requests_of input clean now m).1
  unfolding place
  reserve-Known input clean now m known = elim (reserve-Outcome q requests_of input clean now m) [
    | inl (p, e) ↦ rw e known
    | inr (p, e, room) ↦
        rw e (given-All input.config.identity.sandbox_uid m.next_object m.sandboxes known)
  ]

  delete-Known : (i : SandboxIdentity) (m : State q) → Known m → Known (delete_sandbox i m).1
  delete-Known i m known = elim (delete-Deleted q requests_of i m) [
    | inl (p, e) ↦ rw e known
    | inr (p, e, d, d', s, n) ↦ rw (s, n) known
  ]

  commit-Known :
      (input : CreateInput) (a now : ℕ) (m : State q)
      → Known m
      → Known (commit_runtime_create q requests_of input a now m).1
  unfolding commit_runtime_create
  commit-Known input a now m known = elim (Bool-cases (is_terminating (m.objects a).phase)) [
    | inl e ↦ rw e (given-All input.config.identity.sandbox_uid m.next_object m.sandboxes known)
    | inr e ↦ rw e (given-All input.config.identity.sandbox_uid m.next_object m.sandboxes known)
  ]

  create_failed-Known :
      (a : ℕ) (cleaned : Bool) (m : State q)
      → Known m
      → Known (runtime_create_failed q requests_of a cleaned m).1
  unfolding runtime_create_failed set_phase
  create_failed-Known a true m known = forget-Known a m known
  create_failed-Known a false m known =
      same-Known m (runtime_create_failed q requests_of a false m).1 (ground arith) (ground arith)
        known

  cleanup-Known :
      (a : ℕ) (cleaned : Bool) (m : State q) → Known m → Known (end_cleanup a cleaned m).1
  unfolding end_cleanup set_phase
  cleanup-Known a true m known = elim (Bool-cases (held (uid_of (m.objects a)) a m)) [
    | inl e ↦
        rw e
          (remove-All (λ entry. entry.1 < m.next_object) (uid_of (m.objects a)) m.sandboxes known)
    | inr e ↦ rw e known
  ]
  cleanup-Known a false m known =
      same-Known m (end_cleanup a false m).1 (ground arith) (ground arith) known

  ended-Known : (a : ℕ) (m : State q) → Known m → Known (async_delete_done a m)
  unfolding async_delete_done
  ended-Known a m known = elim (Bool-cases (held (uid_of (m.objects a)) a m)) [
    | inl e ↦
        rw e
          (remove-All (λ entry. entry.1 < m.next_object) (uid_of (m.objects a)) m.sandboxes known)
    | inr e ↦ rw e known
  ]

  step-Known : (e : Event) (m : State q) → Known m → Known (step q requests_of e m)
  unfolding step set_phase park resume_boot mark_create_failed async_delete_failed dispatch_delete
      begin_cleanup set_draining
  step-Known (reserves input clean now) m known = reserve-Known input clean now m known
  step-Known (binding_fails a) m known = forget-Known a m known
  step-Known (create_commits input a now) m known = commit-Known input a now m known
  step-Known (deletes i) m known = delete-Known i m known
  step-Known (create_fails a cleaned) m known = create_failed-Known a cleaned m known
  step-Known (cleanup_ends a cleaned) m known = cleanup-Known a cleaned m known
  step-Known (delete_ends a) m known = ended-Known a m known
  step-Known (create_parks a) m known =
      same-Known m (step q requests_of (create_parks a) m) (ground arith) (ground arith) known
  step-Known (boot_resumes a) m known =
      same-Known m (step q requests_of (boot_resumes a) m) (ground arith) (ground arith) known
  step-Known (boot_fails a) m known =
      same-Known m (step q requests_of (boot_fails a) m) (ground arith) (ground arith) known
  step-Known (delete_fails a) m known =
      same-Known m (step q requests_of (delete_fails a) m) (ground arith) (ground arith) known
  step-Known (delete_dispatches a strict was_creating busy) m known =
      same-Known m (step q requests_of (delete_dispatches a strict was_creating busy) m)
        (ground arith) (ground arith) known
  step-Known (cleanup_begins a requested) m known =
      same-Known m (step q requests_of (cleanup_begins a requested) m) (ground arith) (ground arith)
        known
  step-Known (drains r) m known =
      same-Known m (step q requests_of (drains r) m) (ground arith) (ground arith) known
  step-Known (pressure state reason) m known = known

  -- Whatever creates, deletes, failures, cleanups and drains come in any order, every address in the
  -- manager's map is one that was given out.
  pub run-Known : (events : List Event) (m : State q) → Known m → Known (run q requests_of events m)
  unfolding run
  run-Known [] m known = known
  run-Known (e ∷ rest) m known = run-Known rest (step q requests_of e m) (step-Known e m known)
