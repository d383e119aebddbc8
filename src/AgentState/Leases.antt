-- ===== src/AgentState/Leases.antt =====
-- agent/state/leases.go and journal.go: the records of the lease table, and what a completed call does to it.
use fast_sandbox.Base.{
  ℕ, Bool, true, false, Option, none, some, List, [], String, Dict, lookup, insert, remove, ◌==◌,
  text_equality, if◌then◌else◌, ℤ, pos, ◌+ℤ◌, ◌-ℤ◌, ltb_ℤ,
}

pub data Op : Type 0 where
  pin_image unpin_image lease_devices release_devices : Op
  unknown : String → Op

pub record Identity : Type 0 where
  pub request_id : String
  pub namespace : String
  pub pod_uid : String

pub record Lease : Type 0 where
  pub lease_id : String
  pub sandbox_id : String
  pub image : String
  pub pod_uid : String
  pub namespace : String
  pub rootfs_dev : String
  pub mem_dev : String
  pub created_at : ℕ

abbrev pub no_lease : Lease
no_lease = record {
  lease_id = "";
  sandbox_id = "";
  image = "";
  pod_uid = "";
  namespace = "";
  rootfs_dev = "";
  mem_dev = "";
  created_at = 0;
}

-- The argument documents, as one document with the fields of all of them.
pub record Args : Type 0 where
  pub image : String
  pub sandbox_id : String
  pub mem_size_mib : ℕ
  pub rootfs_writable : Bool
  pub lease_id : String

abbrev pub no_args : Args
no_args = record {
  image = "";
  sandbox_id = "";
  mem_size_mib = 0;
  rootfs_writable = false;
  lease_id = "";
}

-- What `do` returns: a digest for a pin, a lease for a lease, nothing that is read for the others.
pub record Result : Type 0 where
  pub manifest_digest : String
  pub lease : Lease

pub record Entry : Type 0 where
  pub request_id : String
  pub op : Op
  pub pod_uid : String
  pub namespace : String
  pub args : Option Args
  pub result : Option Result

pub record ImageRefs : Type 0 where
  pub pin_count : ℤ
  pub lease_count : ℤ

pub record Completed : Type 0 where
  pub op : Op
  pub pod_uid : String
  pub pin_digest : String
  pub lease : Option Lease

pub record Inflight : Type 0 where
  pub op : Op
  pub pod_uid : String
  pub args : Args

pub record State : Type 0 where
  pub leases : Dict Lease
  pub by_sandbox : Dict String
  pub images : Dict ImageRefs
  pub completed : Dict Completed
  pub inflight : Dict Inflight
  -- the lines on disk, oldest first
  pub journal : List Entry

unfoldable pub empty_state : State
empty_state = record {
  leases = [];
  by_sandbox = [];
  images = [];
  completed = [];
  inflight = [];
  journal = [];
}

abbrev pub refs_or_new : Option ImageRefs → ImageRefs
refs_or_new none = record { pin_count = pos 0; lease_count = pos 0 }
refs_or_new (some r) = r

abbrev pub clamp : ℤ → ℤ
clamp c = if ltb_ℤ c (pos 0) then pos 0 else c

unfoldable pub add_pin : String → Dict ImageRefs → Dict ImageRefs
add_pin image images =
    let refs = refs_or_new (lookup image images) in
    insert image (record refs { pin_count = refs.pin_count +ℤ pos 1 }) images

unfoldable pub drop_pin : String → Dict ImageRefs → Dict ImageRefs
drop_pin image images = elim (lookup image images) [
  | none ↦ images
  | some refs ↦ insert image (record refs { pin_count = clamp (refs.pin_count -ℤ pos 1) }) images
]

unfoldable pub add_lease : String → Dict ImageRefs → Dict ImageRefs
add_lease image images =
    let refs = refs_or_new (lookup image images) in
    insert image (record refs { lease_count = refs.lease_count +ℤ pos 1 }) images

unfoldable pub drop_lease : (ℤ → ℤ) → String → Dict ImageRefs → Dict ImageRefs
drop_lease bound image images = elim (lookup image images) [
  | none ↦ images
  | some refs ↦
      insert image (record refs { lease_count = bound (refs.lease_count -ℤ pos 1) }) images
]

unfoldable pub record_lease : Lease → State → State
record_lease l s = record s {
  leases = insert l.lease_id l s.leases;
  by_sandbox = insert l.sandbox_id l.lease_id s.by_sandbox;
  images = add_lease l.image s.images;
}

-- `bound` is the clamp of the live path; recovery has none.
unfoldable pub forget_lease : (ℤ → ℤ) → String → State → State
forget_lease bound lease_id s = elim (lookup lease_id s.leases) [
  | none ↦ s
  | some l ↦ record s {
    leases = remove lease_id s.leases;
    by_sandbox = remove l.sandbox_id s.by_sandbox;
    images = drop_lease bound l.image s.images;
  }
]

-- The `apply` closures of the four calls.
unfoldable pub apply_result : Op → Args → Result → State → State
apply_result pin_image args r s = record s { images = add_pin args.image s.images }
apply_result unpin_image args r s = record s { images = drop_pin args.image s.images }
apply_result lease_devices args r s = record_lease r.lease s
apply_result release_devices args r s = forget_lease clamp args.lease_id s
apply_result (unknown _) args r s = s

-- `completed` with `setResult`.
abbrev pub completed_entry : Op → String → Result → Completed
completed_entry pin_image pod r = record {
  op = pin_image;
  pod_uid = pod;
  pin_digest = r.manifest_digest;
  lease = none;
}
completed_entry unpin_image pod r = record {
  op = unpin_image;
  pod_uid = pod;
  pin_digest = "";
  lease = none;
}
completed_entry lease_devices pod r = record {
  op = lease_devices;
  pod_uid = pod;
  pin_digest = "";
  lease = some r.lease;
}
completed_entry release_devices pod r = record {
  op = release_devices;
  pod_uid = pod;
  pin_digest = "";
  lease = none;
}
completed_entry (unknown u) pod r = record {
  op = unknown u;
  pod_uid = pod;
  pin_digest = "";
  lease = none;
}

pub data Reply : Type 0 where
  digest : String → Reply
  leased : Lease → Reply
  nothing : Reply

abbrev pub reply_for : Op → Completed → Reply
reply_for pin_image c = digest c.pin_digest
reply_for lease_devices c = elim c.lease [ none ↦ nothing | some l ↦ leased l ]
reply_for _ c = nothing

-- `completed.result`
abbrev pub completed_result : Completed → Reply
completed_result c = reply_for c.op c

abbrev pub op_beq : Op → Op → Bool
op_beq pin_image pin_image = true
op_beq unpin_image unpin_image = true
op_beq lease_devices lease_devices = true
op_beq release_devices release_devices = true
op_beq (unknown a) (unknown b) = a == b
op_beq _ _ = false
