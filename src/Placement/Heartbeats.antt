-- ===== src/Placement/Heartbeats.antt =====
-- placement/registry.go: the order in which heartbeats are taken.
use fast_sandbox.Base.{
  ℕ, ◌≤◌, ◌≡◌, refl, Bool, true, false, not, ◌||◌, Option, none, some, List, String, Bool-cases,
  lookup, lookup-insert, lookup-insert_self, arith, sym, ap, ◌==◌, text_equality, nat_equality,
  eq_iff, ==_refl, ◌∙◌, inl, inr,
}
use fast_sandbox.Placement.Quantity.{Quantities}
use fast_sandbox.Placement.Types.{
  Demand, FastletInfo, Registry, HeartbeatResponse, AdmissionStatus, ResourceStatus,
}
use fast_sandbox.Placement.ApplyHeartbeat.{stale_heartbeat}
use fast_sandbox.Placement.Heartbeat.{
  apply_resources, with_facts, with_profile, stamped, accept_heartbeat, lift_rejection,
  apply_heartbeat_admission, apply_admission_resources, use_ledger, ledger_of,
  parse_resource_vector, apply_cache,
}
use fast_sandbox.Placement.ApplyHeartbeat.{
  wrong_pod, stale_sequence, heartbeat_slot, heartbeat_found, apply_heartbeat,
}
use fast_sandbox.Placement.Fencing.{cache-kept}
use fast_sandbox.Placement.Reserve.{put_fastlet}

own_pod :
    (unset own told : Bool)
    → (unset || not own || told) ≡ false
    → (unset || not own || false) ≡ false
own_pod unset own told e = ground arith

module _ (q : Quantities) where
  open q use {Quantity}

  abbrev Info : Type 0
  Info = FastletInfo Quantity

  resources-pod :
      (a : AdmissionStatus) (now : ℕ) (i : Info) (c o : Option ResourceStatus)
      → (apply_resources q a now i c o).pod_uid ≡ i.pod_uid
  unfolding apply_resources
  resources-pod a now i none none = refl
  resources-pod a now i (some c) none = refl
  resources-pod a now i none (some r) = ground arith
  resources-pod a now i (some c) (some r) = ground arith

  use_ledger-pod :
      (i : Info) (a b : Option (Demand Quantity)) → (use_ledger q i a b).pod_uid ≡ i.pod_uid
  unfolding use_ledger
  use_ledger-pod i none b = refl
  use_ledger-pod i (some a) none = refl
  use_ledger-pod i (some a) (some b) = ground arith

  ledger_of-pod : (i : Info) (o : Option ResourceStatus) → (ledger_of q i o).pod_uid ≡ i.pod_uid
  unfolding parse_resource_vector
  ledger_of-pod i none = refl
  ledger_of-pod i (some r) = use_ledger-pod i _ _

  lift-kept :
      (i : Info)
      → ((lift_rejection q i).pod_uid ≡ i.pod_uid)
        × ((lift_rejection q i).cache_epoch ≡ i.cache_epoch)
        × ((lift_rejection q i).heartbeat_sequence ≡ i.heartbeat_sequence)
  lift-kept i = ground arith

  -- What an entry says of the heartbeats it has taken.
  abbrev pub Told : HeartbeatResponse → String → Info → Type 0
  Told h uid i =
      (i.pod_uid ≡ uid) × (i.cache_epoch ≡ h.cache.epoch) × (i.heartbeat_sequence ≡ h.sequence)

  accept_heartbeat-Told :
      (normalize : List String → List String) (h : HeartbeatResponse) (now : ℕ) (i : Info)
      → Told h i.pod_uid (accept_heartbeat q normalize h now i)
  unfolding accept_heartbeat apply_heartbeat_admission apply_admission_resources
  accept_heartbeat-Told normalize h now i =
      let ready = with_facts q h i in
      let admitted = apply_heartbeat_admission q h.admission now ready in
      let known = with_profile q h (apply_admission_resources q admitted) in
      let cached = apply_cache q normalize h.cache known in
      let (_, _, epoch, uid) = cache-kept q normalize h.cache known in
      let (uid', epoch', sequence) = lift-kept (stamped q h now cached) in
      (
        uid'
            ∙ uid
            ∙ ledger_of-pod admitted admitted.admission.resources
            ∙ resources-pod h.admission now ready i.admission.resources h.admission.resources,
        epoch' ∙ epoch,
        sequence,
      )

  accepted-fresh :
      (normalize : List String → List String) (expected : String) (h : HeartbeatResponse) (now : ℕ)
      (i : Info)
      → (heartbeat_slot q normalize expected h now i).1 ≡ none
      → (wrong_pod q expected h i ≡ false)
        × (stale_sequence q h i ≡ false)
        × ((heartbeat_slot q normalize expected h now i).0 ≡ accept_heartbeat q normalize h now i)
  unfolding heartbeat_slot
  accepted-fresh normalize expected h now i ok = ground arith

  repeated-stale :
      (normalize : List String → List String) (expected : String) (h h' : HeartbeatResponse)
      (now : ℕ) (j : Info)
      → wrong_pod q expected h' j ≡ false
      → stale_sequence q h' j ≡ true
      → heartbeat_slot q normalize expected h' now j ≡ (j, some stale_heartbeat)
  unfolding heartbeat_slot
  repeated-stale normalize expected h h' now j pod stale = simp (pod, stale)

  same_pod :
      (expected : String) (h h' : HeartbeatResponse) (i j : Info)
      → wrong_pod q expected h i ≡ false
      → j.pod_uid ≡ i.pod_uid
      → h'.fastlet_pod_uid ≡ expected
      → wrong_pod q expected h' j ≡ false
  same_pod expected h h' i j pod e e' =
      rw (e, e', ==_refl expected) (own_pod (i.pod_uid == "") (i.pod_uid == expected) _ pod)

  not_newer :
      (h h' : HeartbeatResponse) (j : Info)
      → j.cache_epoch ≡ h.cache.epoch
      → j.heartbeat_sequence ≡ h.sequence
      → h'.cache.epoch ≡ h.cache.epoch
      → h'.sequence ≤ h.sequence
      → stale_sequence q h' j ≡ true
  not_newer h h' j e s e' le = rw (e, e', s, ==_refl h.cache.epoch) (ground arith)

  lookup-put_same :
      (id k : String) (j : Info) (r : Registry Quantity)
      → lookup id r.fastlets ≡ some j
      → lookup k (put_fastlet q id j r).fastlets ≡ lookup k r.fastlets
  lookup-put_same id k j r e = elim (Bool-cases (id == k)) [
    | inl same ↦
        simp (lookup-insert, same) (sym e ∙ ap (λ x. lookup x r.fastlets) ((eq_iff id k).0 same))
    | inr other ↦ simp (lookup-insert, other)
  ]

  redelivered :
      (normalize : List String → List String) (id expected : String) (h : HeartbeatResponse)
      (now : ℕ) (j : Info) (r : Registry Quantity)
      → lookup id r.fastlets ≡ some j
      → heartbeat_slot q normalize expected h now j ≡ (j, some stale_heartbeat)
      → apply_heartbeat q normalize id expected (some h) now r
        ≡ (put_fastlet q id j r, some stale_heartbeat)
  unfolding apply_heartbeat heartbeat_found
  redelivered normalize id expected h now j r e slot = simp (e, slot)

  delivered :
      (normalize : List String → List String) (id expected : String) (h : HeartbeatResponse)
      (now : ℕ) (i : Info) (r : Registry Quantity)
      → lookup id r.fastlets ≡ some i
      → apply_heartbeat q normalize id expected (some h) now r ≡ (
        put_fastlet q id (heartbeat_slot q normalize expected h now i).0 r,
        (heartbeat_slot q normalize expected h now i).1,
      )
  unfolding apply_heartbeat heartbeat_found
  delivered normalize id expected h now i r e = simp (e)

  accepted-entry :
      (normalize : List String → List String) (id expected : String) (h : HeartbeatResponse)
      (now : ℕ) (i : Info) (r : Registry Quantity)
      → lookup id r.fastlets ≡ some i
      → (apply_heartbeat q normalize id expected (some h) now r).1 ≡ none
      → (wrong_pod q expected h i ≡ false)
        × (lookup id (apply_heartbeat q normalize id expected (some h) now r).0.fastlets
            ≡ some (accept_heartbeat q normalize h now i))
  accepted-entry normalize id expected h now i r e ok =
      let sent = delivered normalize id expected h now i r e in
      let (pod, fresh, taken) =
        accepted-fresh normalize expected h now i (sym (ap (λ x. x.1) sent) ∙ ok) in
      (
        pod,
        ap (λ x. lookup id x.0.fastlets) sent ∙ lookup-insert_self id _ r.fastlets ∙ ap some taken,
      )

  -- After the registry has taken a heartbeat from the Pod that the caller expects, every heartbeat from
  -- that Pod with the same cache epoch and no larger sequence is refused as stale, and no entry changes.
  pub apply_heartbeat-apply_heartbeat :
      (normalize : List String → List String) (id expected : String) (h h' : HeartbeatResponse)
      (now now' : ℕ) (i : Info) (r : Registry Quantity)
      → lookup id r.fastlets ≡ some i
      → (apply_heartbeat q normalize id expected (some h) now r).1 ≡ none
      → h'.fastlet_pod_uid ≡ expected
      → h'.cache.epoch ≡ h.cache.epoch
      → h'.sequence ≤ h.sequence
      → (let taken = (apply_heartbeat q normalize id expected (some h) now r).0 in
          ((apply_heartbeat q normalize id expected (some h') now' taken).1 ≡ some stale_heartbeat)
          × ((k : String)
              → lookup k (apply_heartbeat q normalize id expected (some h') now' taken).0.fastlets
                ≡ lookup k taken.fastlets))
  apply_heartbeat-apply_heartbeat normalize id expected h h' now now' i r e ok pod epoch le =
      let j = accept_heartbeat q normalize h now i in
      let taken = (apply_heartbeat q normalize id expected (some h) now r).0 in
      let (right_pod, at_id) = accepted-entry normalize id expected h now i r e ok in
      let (uid, cache_epoch, sequence) = accept_heartbeat-Told normalize h now i in
      let again = redelivered normalize id expected h' now' j taken at_id (
        repeated-stale normalize expected h h' now' j (same_pod expected h h' i j right_pod uid pod)
          (not_newer h h' j cache_epoch sequence epoch le)) in
      (
        ap (λ x. x.1) again,
        λ k. ap (λ x. lookup k x.0.fastlets) again ∙ lookup-put_same id k j taken at_id,
      )
