-- ===== src/FastletManager/Delete.antt =====
-- internal/fastlet/sandbox/admission.go and manager.go: the regions of a delete under the lock.
use fast_sandbox.Base.{
  ℕ, Bool, true, false, not, ◌&&◌, ◌||◌, Option, none, some, String, lookup, insert, remove, ◌==◌,
  text_equality, if◌then◌else◌, pos,
}
use fast_sandbox.FastletManager.Phases.{
  Phase, creating, deleting, delete_failed, image_pending, terminating, create_cleanup,
  create_cleanup_failed,
}
use fast_sandbox.FastletManager.Identity.{
  SandboxIdentity, Failure, conflict, runtime_unavailable, action_unavailable, or_else, failure_if,
  validate_identity_target, validate_identity_fence, record_tombstone,
}
use fast_sandbox.FastletManager.Records.{
  Metadata, RuntimeConfig, ActionManager, Manager, uid_of, held, set_phase, forget,
}
use fast_sandbox.FastletManager.Create.{actions_v1, same_sandbox_claim}
use fast_sandbox.FastletManager.Reserve.{is_terminating}

-- What `DeleteSandboxContext` does after its region: nothing more, with the error if there is one; or the
-- retirement of the Action owner, for a Sandbox that had metadata at an address or had none, and whether
-- it was still being created.
pub data DeleteStep : Type 0 where
  delete_done : Option Failure → DeleteStep
  delete_accepted : Option ℕ → Bool → Bool → DeleteStep

abbrev pub is_some_bool : Option Bool → Bool
is_some_bool (some true) = true
is_some_bool _ = false

abbrev pub is_creating : Phase → Bool
is_creating creating = true
is_creating image_pending = true
is_creating _ = false

abbrev pub is_deleting : Phase → Bool
is_deleting deleting = true
is_deleting _ = false

abbrev pub is_legacy : String → Bool
is_legacy version = version == "" || version == actions_v1

abbrev pub other_version : Option ActionManager → Bool
other_version none = false
other_version (some a) = not (a.api_version == actions_v1)

abbrev pub has_actions : Option ActionManager → Bool
has_actions none = false
has_actions (some a) = true

abbrev pub buried : Metadata → SandboxIdentity
buried metadata = record metadata.config.identity {
  namespace = "";
  name = "";
  route_generation = pos 0;
}

module _ {Q : Type 0} where
  unfoldable pub requires_strict : Manager Q → String → Bool
  requires_strict m version = not (is_legacy version) || other_version m.action_manager

  abbrev accept : SandboxIdentity → DeleteStep → Manager Q → DeleteStep × Manager Q
  accept i step m = (step, record m { tombstones = record_tombstone i m.tombstones })

  -- The note that a create is in flight.
  abbrev pub note_pending : Bool → String → Manager Q → Manager Q
  note_pending true uid m = record m {
    create_delete_pending = insert uid true m.create_delete_pending;
  }
  note_pending false uid m = m

  -- Whether the delete is under way already, and whether the Sandbox is terminating.
  abbrev pub delete_by :
      Bool → Bool → SandboxIdentity → ℕ → Bool → Manager Q → DeleteStep × Manager Q
  delete_by true ending i a strict m = (delete_done none, m)
  delete_by false true i a strict m =
      accept i
        (delete_accepted (some a) strict
          (is_some_bool (lookup i.sandbox_uid m.create_delete_pending)))
        m
  delete_by false false i a strict m =
      let was_creating = is_creating (m.objects a).phase in
      accept i (delete_accepted (some a) strict was_creating)
        (note_pending (strict && was_creating) i.sandbox_uid (set_phase a terminating m))

  abbrev pub delete_managed : SandboxIdentity → ℕ → Bool → Manager Q → DeleteStep × Manager Q
  delete_managed i a strict m =
      let phase = (m.objects a).phase in
      delete_by (is_deleting phase || is_terminating phase && not strict) (is_terminating phase) i a
        strict m

  abbrev pub delete_checked :
      Option Failure → SandboxIdentity → ℕ → Bool → Manager Q → DeleteStep × Manager Q
  delete_checked (some f) i a strict m = (delete_done (some f), m)
  delete_checked none i a strict m = delete_managed i a strict m

  abbrev pub delete_found : SandboxIdentity → Option ℕ → Manager Q → DeleteStep × Manager Q
  delete_found i none m = accept i (delete_accepted none (requires_strict m "") false) m
  delete_found i (some a) m =
      let strict = requires_strict m (m.objects a).config.actions_api_version in
      delete_checked
        (or_else (validate_identity_fence m.fastlet_pod_uid (m.objects a).config.identity i)
          (failure_if (strict && not (has_actions m.action_manager)) action_unavailable))
        i a strict m

  abbrev pub delete_targeted : Option Failure → SandboxIdentity → Manager Q → DeleteStep × Manager Q
  delete_targeted (some f) i m = (delete_done (some f), m)
  delete_targeted none i m = delete_found i (lookup i.sandbox_uid m.sandboxes) m

  -- `DeleteSandboxContext` up to the end of its region.
  unfoldable pub delete_sandbox : SandboxIdentity → Manager Q → DeleteStep × Manager Q
  unfolding requires_strict set_phase record_tombstone validate_identity_fence
      validate_identity_target
  delete_sandbox i m =
      delete_targeted
        (or_else (validate_identity_target m.fastlet_pod_uid i)
          (failure_if (m.recovering || not m.runtime_ready) runtime_unavailable))
        i m

  -- `dispatchDeleteAfterRetirement`; the Boolean says that `asyncDelete` is started.
  -- `busy` is `terminalFailureWorkers[uid] == metadata`.
  unfoldable pub dispatch_delete : ℕ → Bool → Bool → Bool → Manager Q → Bool × Manager Q
  unfolding held set_phase
  dispatch_delete a strict was_creating busy m =
      let uid = uid_of (m.objects a) in
      if not was_creating
      then (
        not busy,
        if held uid a m
            then (let n = if strict then set_phase a deleting m else m in
                record n { create_delete_pending = remove uid n.create_delete_pending })
            else m,
      )
      else if strict && held uid a m && not (is_some_bool (lookup uid m.create_delete_pending))
      then (true, set_phase a deleting m)
      else (false, m)

  -- A failure of `asyncDelete`: the owner, the route or the runtime is still there.
  unfoldable pub async_delete_failed : ℕ → Manager Q → Manager Q
  unfolding held set_phase
  async_delete_failed a m =
      if held (uid_of (m.objects a)) a m then set_phase a delete_failed m else m

  -- `asyncDelete` after the runtime has deleted the Sandbox.
  unfoldable pub async_delete_done : ℕ → Manager Q → Manager Q
  unfolding held forget record_tombstone
  async_delete_done a m =
      if held (uid_of (m.objects a)) a m
      then forget a (record m { tombstones = record_tombstone (buried (m.objects a)) m.tombstones })
      else m

  -- `retryFailedCreateCleanup` up to its cleanup, and after it.
  abbrev pub begin_cleanup_if :
      Option Failure → ℕ → RuntimeConfig → Manager Q → Option Failure × Manager Q
  begin_cleanup_if (some f) a requested m = (some f, m)
  begin_cleanup_if none a requested m =
      if same_sandbox_claim (m.objects a).config requested
      then (none, set_phase a create_cleanup m)
      else (some conflict, m)

  unfoldable pub begin_cleanup : ℕ → RuntimeConfig → Manager Q → Option Failure × Manager Q
  unfolding held set_phase validate_identity_fence
  begin_cleanup a requested m =
      begin_cleanup_if
        (or_else (failure_if (not (held requested.identity.sandbox_uid a m)) conflict) (
          validate_identity_fence m.fastlet_pod_uid (m.objects a).config.identity
            requested.identity))
        a requested m

  unfoldable pub end_cleanup : ℕ → Bool → Manager Q → Option Failure × Manager Q
  unfolding held set_phase forget
  end_cleanup a cleaned m =
      if not (held (uid_of (m.objects a)) a m)
      then (some conflict, m)
      else if cleaned
      then (none, forget a m)
      else (some runtime_unavailable, set_phase a create_cleanup_failed m)
