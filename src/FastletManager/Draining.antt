-- ===== src/FastletManager/Draining.antt =====
-- A drain attempt ends by its own id alone, and nothing is placed until then.
use fast_sandbox.Base.{
  eq_iff, All, ◌==◌, text_equality, ℕ, ◌≡◌, ◌≢◌, ◌∙◌, inl, inr, Bool, true, false, not, Option,
  none, List, [], ◌∷◌, String, arith,
}
use fast_sandbox.Placement.Quantity.{Quantities}
use fast_sandbox.Placement.Types.{Demand}
use fast_sandbox.FastletManager.Identity.{SandboxIdentity}
use fast_sandbox.FastletManager.Records.{RuntimeConfig, Manager, forget, set_phase}
use fast_sandbox.FastletManager.Create.{State, CreateInput}
use fast_sandbox.FastletManager.Reserve.{
  no_room, place, reserve_sandbox, runtime_create_failed, commit_runtime_create, park, resume_boot,
  mark_create_failed,
}
use fast_sandbox.FastletManager.Delete.{
  delete_sandbox, dispatch_delete, async_delete_failed, async_delete_done, begin_cleanup,
  end_cleanup,
}
use fast_sandbox.FastletManager.Granted.{reserve-Outcome, is_placed}
use fast_sandbox.FastletManager.Drain.{DrainRequest, set_draining, drain_failure, is_ready_fastlet}
use fast_sandbox.FastletManager.History.{
  Event, reserves, binding_fails, create_parks, boot_resumes, boot_fails, delete_fails, delete_ends,
  create_fails, cleanup_ends, create_commits, deletes, delete_dispatches, cleanup_begins, drains,
  pressure, step, run,
}
use fast_sandbox.FastletManager.Tombstones.{delete-Deleted}

-- A request to drain under another id, or another event.
abbrev pub other_attempt : String → Event → Bool
other_attempt id (drains r) = not (r.id == id)
other_attempt id _ = true

abbrev pub Drains : {Q : Type 0} → String → Manager Q → Type 0
Drains id m = (m.draining ≡ true) × (m.drain_id ≡ id)

module _ (q : Quantities) (requests_of : RuntimeConfig → Option (Demand q.Quantity)) where
  set_draining-Drains :
      (r : DrainRequest) (id : String) (m : State q)
      → id ≢ ""
      → (r.id == id) ≡ false
      → Drains id m
      → Drains id (set_draining r m).1
  unfolding set_draining drain_failure
  set_draining-Drains r id m named other (d, e) =
      ground (
        arith,
        eq_iff m.drain_id "",
        eq_iff m.drain_id r.id,
        eq_iff r.id m.drain_id,
        eq_iff r.id id,
      )

  same-Drains :
      (id : String) (m n : State q)
      → n.draining ≡ m.draining
      → n.drain_id ≡ m.drain_id
      → Drains id m
      → Drains id n
  same-Drains id m n s e (d, i) = (s ∙ d, e ∙ i)

  reserve-Drains :
      (id : String) (input : CreateInput) (clean : Bool) (now : ℕ) (m : State q)
      → Drains id m
      → Drains id (reserve_sandbox q requests_of input clean now m).1
  unfolding place
  reserve-Drains id input clean now m h = elim (reserve-Outcome q requests_of input clean now m) [
    | inl (p, e) ↦ rw e h
    | inr (p, e, room) ↦ rw e h
  ]

  delete-Drains :
      (id : String) (i : SandboxIdentity) (m : State q)
      → Drains id m
      → Drains id (delete_sandbox i m).1
  delete-Drains id i m h = elim (delete-Deleted q requests_of i m) [
    | inl (p, e) ↦ rw e h
    | inr (p, e, d, d', s, n) ↦ same-Drains id m (delete_sandbox i m).1 d d' h
  ]

  step-Drains :
      (id : String) (e : Event) (m : State q)
      → id ≢ ""
      → other_attempt id e ≡ true
      → Drains id m
      → Drains id (step q requests_of e m)
  unfolding step set_phase forget park resume_boot mark_create_failed async_delete_failed
      async_delete_done end_cleanup runtime_create_failed commit_runtime_create dispatch_delete
      begin_cleanup
  step-Drains id (reserves input clean now) m named o h = reserve-Drains id input clean now m h
  step-Drains id (deletes i) m named o h = delete-Drains id i m h
  step-Drains id (drains r) m named o h = set_draining-Drains r id m named (ground (arith, o)) h
  step-Drains id (binding_fails a) m named o h =
      same-Drains id m (step q requests_of (binding_fails a) m) (ground arith) (ground arith) h
  step-Drains id (create_commits input a now) m named o h =
      same-Drains id m (step q requests_of (create_commits input a now) m) (ground arith)
        (ground arith) h
  step-Drains id (create_fails a true) m named o h =
      same-Drains id m (step q requests_of (create_fails a true) m) (ground arith) (ground arith) h
  step-Drains id (create_fails a false) m named o h =
      same-Drains id m (step q requests_of (create_fails a false) m) (ground arith) (ground arith) h
  step-Drains id (cleanup_ends a cleaned) m named o h =
      same-Drains id m (step q requests_of (cleanup_ends a cleaned) m) (ground arith) (ground arith)
        h
  step-Drains id (delete_ends a) m named o h =
      same-Drains id m (step q requests_of (delete_ends a) m) (ground arith) (ground arith) h
  step-Drains id (create_parks a) m named o h =
      same-Drains id m (step q requests_of (create_parks a) m) (ground arith) (ground arith) h
  step-Drains id (boot_resumes a) m named o h =
      same-Drains id m (step q requests_of (boot_resumes a) m) (ground arith) (ground arith) h
  step-Drains id (boot_fails a) m named o h =
      same-Drains id m (step q requests_of (boot_fails a) m) (ground arith) (ground arith) h
  step-Drains id (delete_fails a) m named o h =
      same-Drains id m (step q requests_of (delete_fails a) m) (ground arith) (ground arith) h
  step-Drains id (delete_dispatches a strict was_creating busy) m named o h =
      same-Drains id m (step q requests_of (delete_dispatches a strict was_creating busy) m)
        (ground arith) (ground arith) h
  step-Drains id (cleanup_begins a requested) m named o h =
      same-Drains id m (step q requests_of (cleanup_begins a requested) m) (ground arith)
        (ground arith) h
  step-Drains id (pressure state reason) m named o h = h

  run-Drains :
      (id : String) (events : List Event) (m : State q)
      → id ≢ ""
      → All (λ e. other_attempt id e ≡ true) events
      → Drains id m
      → Drains id (run q requests_of events m)
  unfolding run
  run-Drains id [] m named others h = h
  run-Drains id (e ∷ rest) m named (o, others) h =
      run-Drains id rest (step q requests_of e m) named others (step-Drains id e m named o h)

  draining-no_room :
      (config : RuntimeConfig) (clean : Bool) (m : State q)
      → m.draining ≡ true
      → no_room q requests_of config clean m ≢ none
  draining-no_room config clean m d e = ground arith

  -- While a Fastlet drains under a non-empty id, and whatever events follow in any order but drain requests
  -- under that id, it stays draining under that id, is not ready, and gives no create a place.
  pub drained-never_placed :
      (id : String) (events : List Event) (m : State q) (input : CreateInput) (clean : Bool)
      (now : ℕ)
      → id ≢ ""
      → All (λ e. other_attempt id e ≡ true) events
      → Drains id m
      → Drains id (run q requests_of events m)
        × (is_ready_fastlet (run q requests_of events m) ≡ false)
        × (is_placed (reserve_sandbox q requests_of input clean now (run q requests_of events m)).0
            ≡ false)
  unfolding is_ready_fastlet
  drained-never_placed id events m input clean now named others h =
      let n = run q requests_of events m in
      let (d, i) = run-Drains id events m named others h in
      (
        (d, i),
        ground (arith, d),
        elim (reserve-Outcome q requests_of input clean now n) [
          | inl (p, e) ↦ p
          | inr (p, e, (l, f, r)) ↦ absurd (draining-no_room input.config clean n d r)
        ],
      )
