-- ===== src/AgentState/Calls.antt =====
-- agent/state/leases.go: `run` in its two critical sections, and the calls on leases.
use fast_sandbox.Base.{
  ℕ, ℤ, pos, ◌+ℤ◌, length, Dict, List, Bool, true, false, Option, none, some, [], ◌∷◌, ◌++◌, String,
  lookup, insert, remove, ◌==◌, text_equality, if◌then◌else◌,
}
use fast_sandbox.AgentState.Leases.{
  ImageRefs, Op, Identity, Lease, no_lease, Args, Result, Entry, Completed, Inflight, State,
  apply_result, completed_entry, Reply, leased, completed_result, op_beq, lease_devices,
  release_devices,
}

pub data Begun : Type 0 where
  replayed : Reply → Begun
  conflict waiting journal_failed started : Begun

abbrev pub intent_line : Identity → Op → Args → Entry
intent_line id op args = record {
  request_id = id.request_id;
  op = op;
  pod_uid = id.pod_uid;
  namespace = id.namespace;
  args = some args;
  result = none;
}

abbrev pub result_line : String → Op → Result → Entry
result_line request_id op r = record {
  request_id = request_id;
  op = op;
  pod_uid = "";
  namespace = "";
  args = none;
  result = some r;
}

unfoldable pub begin_new : Identity → Op → Args → Bool → State → Option Inflight → Begun × State
begin_new id op args append_ok s (some pending) = (waiting, s)
begin_new id op args append_ok s none =
    if append_ok
    then (
      started,
      record s {
        journal = s.journal ++ intent_line id op args ∷ [];
        inflight =
            insert id.request_id (record { op = op; pod_uid = id.pod_uid; args = args }) s.inflight;
      },
    )
    else (journal_failed, s)

unfoldable pub begin_seen : Identity → Op → Args → Bool → State → Option Completed → Begun × State
unfolding begin_new
begin_seen id op args append_ok s (some c) = (
  if op_beq c.op op
      then (if c.pod_uid == id.pod_uid then replayed (completed_result c) else conflict)
      else conflict,
  s,
)
begin_seen id op args append_ok s none =
    begin_new id op args append_ok s (lookup id.request_id s.inflight)

-- `run` up to the side effect. `append_ok` says whether the intent line reached the disk.
unfoldable pub begin_run : Identity → Op → Args → Bool → State → Begun × State
unfolding begin_seen
begin_run id op args append_ok s =
    begin_seen id op args append_ok s (lookup id.request_id s.completed)

-- The second half of `run` for a side effect that returned `r`; the result line may fail to be
-- written, and then the changed tables stay.
unfoldable pub commit : String → Inflight → Result → Bool → State → State
commit request_id p r append_ok s =
    let t = apply_result p.op p.args r s in
    record t {
      completed = insert request_id (completed_entry p.op p.pod_uid r) t.completed;
      journal = if append_ok then t.journal ++ result_line request_id p.op r ∷ [] else t.journal;
      inflight = remove request_id t.inflight;
    }

-- `none` is an error of `do`.
unfoldable pub finish_run : String → Option Result → Bool → State → Option Inflight → State
unfolding commit
finish_run request_id outcome append_ok s none = s
finish_run request_id none append_ok s (some p) = record s {
  inflight = remove request_id s.inflight;
}
finish_run request_id (some r) append_ok s (some p) = commit request_id p r append_ok s

unfoldable pub end_run : String → Option Result → Bool → State → State
unfolding finish_run
end_run request_id outcome append_ok s =
    finish_run request_id outcome append_ok s (lookup request_id s.inflight)

abbrev pub or_no_lease : Option Lease → Lease
or_no_lease none = no_lease
or_no_lease (some l) = l

unfoldable pub remember_completed : Identity → Op → Lease → State → Option Completed → Begun × State
remember_completed id op l s (some c) =
    (if c.pod_uid == id.pod_uid then replayed (leased l) else conflict, s)
remember_completed id op l s none = (
  replayed (leased l),
  record s {
    completed =
        insert id.request_id
          (record { op = op; pod_uid = id.pod_uid; pin_digest = ""; lease = some l }) s.completed;
  },
)

unfoldable pub lease_existing : Identity → String → State → Begun × State
unfolding remember_completed
lease_existing id lease_id s =
    let l = or_no_lease (lookup lease_id s.leases) in
    if l.pod_uid == id.pod_uid
    then remember_completed id lease_devices l s (lookup id.request_id s.completed)
    else (conflict, s)

-- `LeaseDevices` before its side effect, by the lease that the Sandbox has.
unfoldable pub begin_lease_for : Identity → Args → Bool → State → Option String → Begun × State
unfolding lease_existing begin_run
begin_lease_for id args append_ok s (some lease_id) = lease_existing id lease_id s
begin_lease_for id args append_ok s none = begin_run id lease_devices args append_ok s

unfoldable pub begin_lease : Identity → Args → Bool → State → Begun × State
unfolding begin_lease_for
begin_lease id args append_ok s =
    begin_lease_for id args append_ok s (lookup args.sandbox_id s.by_sandbox)

abbrev pub foreign : Identity → Option Lease → Bool
foreign id none = false
foreign id (some l) = if l.pod_uid == id.pod_uid then false else true

-- `ReleaseDevices` before its side effect.
unfoldable pub begin_release : Identity → Args → Bool → State → Begun × State
unfolding begin_run
begin_release id args append_ok s =
    if foreign id (lookup args.lease_id s.leases)
    then (conflict, s)
    else begin_run id release_devices args append_ok s

-- `GetLease`
unfoldable pub get_lease : String → State → Option Lease
get_lease lease_id s = lookup lease_id s.leases

pub record HealthSnapshot : Type 0 where
  pub held_leases : List Lease
  pub lease_count : ℕ
  pub pin_count : ℤ
  pub image_count : ℕ

abbrev pub values_of {ℓ} : {A : Type ℓ} → Dict A → List A
values_of [] = []
values_of ((k, v) ∷ rest) = v ∷ values_of rest

abbrev pub total_pins : List ImageRefs → ℤ
total_pins [] = pos 0
total_pins (r ∷ rest) = r.pin_count +ℤ total_pins rest

-- `Snapshot` of the state
unfoldable pub health_snapshot : State → HealthSnapshot
health_snapshot s = record {
  held_leases = values_of s.leases;
  lease_count = length s.leases;
  pin_count = total_pins (values_of s.images);
  image_count = length s.images;
}
