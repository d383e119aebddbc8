-- ===== src/AgentState/Ownership.antt =====
-- Leases belong to the pod that took them, and a result line that is lost is not noticed.
use fast_sandbox.Base.{
  ◌≡◌, ◌≢◌, some, String, lookup, ==_false, Bool, false, text_equality, lookup-insert_self, ==_refl,
}
use fast_sandbox.AgentState.Leases.{
  Identity, State, Args, Result, Inflight, Lease, pin_image, digest,
}
use fast_sandbox.AgentState.Calls.{
  conflict, replayed, begin_lease, begin_lease_for, lease_existing, begin_release, end_run,
  finish_run, commit, begin_run, begin_seen,
}
use fast_sandbox.AgentState.Effects.{apply_result-Keeps}

-- While a pod holds the lease of a Sandbox, every other pod that leases the Sandbox or releases the
-- lease gets a conflict, and nothing changes.
pub foreign-conflict :
    (id : Identity) (args : Args) (ok : Bool) (s : State) (lease_id : String) (l : Lease)
    → lookup args.sandbox_id s.by_sandbox ≡ some lease_id
    → lookup lease_id s.leases ≡ some l
    → args.lease_id ≡ lease_id
    → l.pod_uid ≢ id.pod_uid
    → (begin_lease id args ok s ≡ (conflict, s)) × (begin_release id args ok s ≡ (conflict, s))
unfolding begin_lease begin_release
foreign-conflict id args ok s lease_id l at_sandbox at_lease same other = (
  rw (at_sandbox, begin_lease_for)
      (rw (at_lease, lease_existing) (rw (==_false l.pod_uid id.pod_uid other))),
  rw same (rw at_lease (rw (==_false l.pod_uid id.pod_uid other))),
)

lost_result :
    (id : Identity) (args : Args) (r : Result) (s : State) (p : Inflight)
    → p.op ≡ pin_image
    → p.pod_uid ≡ id.pod_uid
    → let t = commit id.request_id p r false s in
      (t.journal ≡ s.journal)
      × ((ok : Bool) → begin_run id pin_image args ok t ≡ (replayed (digest r.manifest_digest), t))
unfolding commit begin_run
lost_result id args r s p same_op same_pod = (
  (apply_result-Keeps p.op p.args r s).2,
  λ ok. rw (lookup-insert_self, begin_seen) (rw (same_op, same_pod, ==_refl id.pod_uid)),
)

-- When the result line of a pin does not reach the disk, its caller gets an error. The retry with
-- the same request id is then answered with the digest as a success, though nothing was written:
-- the journal still ends where it did before, so recovery knows nothing of the pin.
pub retry-unjournaled :
    (id : Identity) (args : Args) (r : Result) (s : State) (p : Inflight)
    → lookup id.request_id s.inflight ≡ some p
    → p.op ≡ pin_image
    → p.pod_uid ≡ id.pod_uid
    → let t = end_run id.request_id (some r) false s in
      (t.journal ≡ s.journal)
      × ((ok : Bool) → begin_run id pin_image args ok t ≡ (replayed (digest r.manifest_digest), t))
unfolding end_run
retry-unjournaled id args r s p at_id same_op same_pod =
    rw (at_id, finish_run) (lost_result id args r s p same_op same_pod)
