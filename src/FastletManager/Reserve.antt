-- ===== src/FastletManager/Reserve.antt =====
-- internal/fastlet/sandbox/admission.go and boot_lifecycle.go: the regions of a create under the lock.
use fast_sandbox.Base.{
  ℕ, ◌+◌, Bool, true, false, not, ◌&&◌, ◌||◌, Option, none, some, String, lookup, insert, remove,
  ◌==◌, nat_equality, text_equality, if◌then◌else◌, pos, leb_ℤ,
}
use fast_sandbox.Placement.Quantity.{Quantities}
use fast_sandbox.Placement.Types.{Demand}
use fast_sandbox.FastletManager.Phases.{
  Phase, creating, deleting, create_failed, create_cleanup_failed, image_pending, infra_pending,
  running, terminating, action_pending,
}
use fast_sandbox.FastletManager.Identity.{
  Failure, capacity_rejected, is_draining, conflict, runtime_unavailable, network_unavailable,
  infra_unavailable, generation_fenced, failure_if, or_else, fenced,
}
use fast_sandbox.FastletManager.Records.{
  RuntimeConfig, Metadata, uid_of, write_object, held, set_phase, active, forget,
}
use fast_sandbox.FastletManager.Resources.{resource_capacity_failure}
use fast_sandbox.FastletManager.Create.{
  State, Disposition, rejected_before_side_effects, fenced_generation, failed_needs_cleanup,
  CreateInput, Reservation, refused, cleanup_existing, responded, placed, create_existing,
  actions_failure,
}

abbrev pub is_terminating : Phase → Bool
is_terminating terminating = true
is_terminating _ = false

abbrev pub is_image_pending : Phase → Bool
is_image_pending image_pending = true
is_image_pending _ = false

abbrev pub is_leaving : Phase → Bool
is_leaving terminating = true
is_leaving deleting = true
is_leaving _ = false

module _ (q : Quantities) (requests_of : RuntimeConfig → Option (Demand q.Quantity)) where
  -- The checks before the lookup.
  abbrev pub not_serving : ℕ → State q → Option Failure
  not_serving bindings m =
      or_else (failure_if (m.recovering || not m.runtime_ready) runtime_unavailable) (
        or_else (failure_if (not m.infra_ready) infra_unavailable)
          (actions_failure bindings m.action_manager))

  -- The checks after those of the generation; `clean` is `runtimeResourceAvailable`.
  abbrev pub no_room : RuntimeConfig → Bool → State q → Option Failure
  no_room config clean m = or_else (failure_if m.draining is_draining) (
      or_else (failure_if (leb_ℤ m.capacity (pos (active m))) (capacity_rejected "SLOT_FULL")) (
        or_else (resource_capacity_failure q requests_of config m)
          (failure_if (not clean) network_unavailable)))

  abbrev pub placeholder_of : CreateInput → ℕ → Metadata
  placeholder_of input now = record {
    config = input.config;
    phase = creating;
    created_at = now;
    accepted_generation = input.spec_generation;
    applied_generation = pos 0;
  }

  unfoldable pub place : CreateInput → ℕ → State q → State q
  place input now m = record m {
    sandboxes = insert input.config.identity.sandbox_uid m.next_object m.sandboxes;
    objects = write_object m.next_object (placeholder_of input now) m.objects;
    next_object = m.next_object + 1;
  }

  abbrev pub reserve_room : CreateInput → ℕ → Option Failure → State q → Reservation × State q
  reserve_room input now (some f) m = (refused f rejected_before_side_effects, m)
  reserve_room input now none m = (placed m.next_object, place input now m)

  abbrev pub reserve_unfenced : CreateInput → Bool → ℕ → Bool → State q → Reservation × State q
  reserve_unfenced input clean now true m = (refused generation_fenced fenced_generation, m)
  reserve_unfenced input clean now false m = reserve_room input now (no_room input.config clean m) m

  -- The Sandbox is not managed.
  abbrev pub reserve_new : CreateInput → Bool → ℕ → State q → Reservation × State q
  reserve_new input clean now m =
      let i = input.config.identity in
      reserve_unfenced input clean now
        (fenced i.sandbox_uid i.instance_generation i.assignment_attempt m.tombstones) m

  abbrev pub reserve_existing : ℕ → Phase → RuntimeConfig → State q → Reservation × State q
  reserve_existing a create_cleanup_failed requested m = (cleanup_existing a, m)
  reserve_existing a phase requested m =
      (responded (create_existing q m (m.objects a) requested), m)

  abbrev pub reserve_by_uid : CreateInput → Bool → ℕ → Option ℕ → State q → Reservation × State q
  reserve_by_uid input clean now none m = reserve_new input clean now m
  reserve_by_uid input clean now (some a) m = reserve_existing a (m.objects a).phase input.config m

  abbrev pub reserve_serving :
      CreateInput → Bool → ℕ → Option Failure → State q → Reservation × State q
  reserve_serving input clean now (some f) m = (refused f rejected_before_side_effects, m)
  reserve_serving input clean now none m =
      reserve_by_uid input clean now (lookup input.config.identity.sandbox_uid m.sandboxes) m

  unfoldable pub reserve_sandbox : CreateInput → Bool → ℕ → State q → Reservation × State q
  unfolding place active resource_capacity_failure create_existing fenced
  reserve_sandbox input clean now m =
      reserve_serving input clean now (not_serving input.bindings m) m

  -- `handleRuntimeCreateFailure`, where `cleaned` tells that its cleanup gave no error.
  unfoldable pub runtime_create_failed : ℕ → Bool → State q → Disposition × State q
  unfolding forget set_phase
  runtime_create_failed a true m = (rejected_before_side_effects, forget a m)
  runtime_create_failed a false m =
      if held (uid_of (m.objects a)) a m
      then (failed_needs_cleanup, set_phase a create_cleanup_failed m)
      else (rejected_before_side_effects, m)

  abbrev committed_phase : ℕ → State q → Phase
  committed_phase bindings m =
      if m.has_infra_manager || m.has_route_publisher
      then infra_pending
      else if bindings == 0
      then running
      else action_pending

  abbrev commit_object : String → Metadata → State q → State q
  commit_object uid metadata m = record m {
    sandboxes = insert uid m.next_object m.sandboxes;
    objects = write_object m.next_object metadata m.objects;
    next_object = m.next_object + 1;
  }

  -- `commitRuntimeCreate`: the runtime's metadata, created at `now`, takes the placeholder's place; an
  -- error if a delete came first.
  unfoldable pub commit_runtime_create : CreateInput → ℕ → ℕ → State q → Option Failure × State q
  commit_runtime_create input a now m =
      let uid = input.config.identity.sandbox_uid in
      let metadata : Metadata = record {
        config = input.config;
        phase = infra_pending;
        created_at = now;
        accepted_generation = input.spec_generation;
        applied_generation = if input.bindings == 0 then input.spec_generation else pos 0;
      } in
      if is_terminating (m.objects a).phase
      then (
        some conflict,
        commit_object uid (record metadata { phase = terminating })
            (record m { create_delete_pending = remove uid m.create_delete_pending }),
      )
      else (
        none,
        commit_object uid (record metadata { phase = committed_phase input.bindings m }) m,
      )

  -- `parkForImageDelivery`
  unfoldable pub park : ℕ → State q → Option Failure × State q
  unfolding held set_phase
  park a m =
      let uid = uid_of (m.objects a) in
      if not (held uid a m)
      then (some conflict, m)
      else if is_terminating (m.objects a).phase
      then (some conflict, record m { create_delete_pending = remove uid m.create_delete_pending })
      else (none, set_phase a image_pending m)

  -- The boot worker of a parked Sandbox, before its commit: whether it is still pending.
  unfoldable pub resume_boot : ℕ → State q → Bool × State q
  unfolding held set_phase
  resume_boot a m =
      if held (uid_of (m.objects a)) a m && is_image_pending (m.objects a).phase
      then (true, set_phase a creating m)
      else (false, m)

  unfoldable pub mark_create_failed : ℕ → State q → State q
  unfolding held set_phase
  mark_create_failed a m =
      if not (held (uid_of (m.objects a)) a m) || is_leaving (m.objects a).phase
      then m
      else set_phase a create_failed m
