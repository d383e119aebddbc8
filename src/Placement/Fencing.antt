-- ===== src/Placement/Fencing.antt =====
-- placement/registry.go: what an informer event keeps of a Fastlet, and what the parts of a heartbeat leave alone.
use fast_sandbox.Base.{
  ◌≡◌, ◌≢◌, refl, Option, none, some, List, String, lookup, lookup-insert_self, arith,
  text_equality, nat_equality, ==_false, ==_refl,
}
use fast_sandbox.Placement.Quantity.{Quantities}
use fast_sandbox.Placement.Types.{Demand, FastletInfo, Registry, ResourceStatus, CacheSnapshot}
use fast_sandbox.Placement.Reserve.{upserted, upsert_pod, preserve_heartbeat}
use fast_sandbox.Placement.Heartbeat.{use_ledger, parse_resource_vector, apply_cache, ledger_of}

module _ (q : Quantities) where
  open q use {Quantity}

  -- An informer event for a Pod replaces the entry of its ID. Under the same Pod UID it keeps what
  -- heartbeats and requests in flight have told; under another UID nothing of the old entry is left.
  pub upsert_pod-lookup :
      (info old : FastletInfo Quantity) (r : Registry Quantity)
      → info.id ≢ ""
      → lookup info.id r.fastlets ≡ some old
      → old.pod_uid ≢ ""
      → ((old.pod_uid ≡ info.pod_uid)
          → lookup info.id (upsert_pod q info r).fastlets ≡ some (preserve_heartbeat q info old))
        × ((old.pod_uid ≢ info.pod_uid) → lookup info.id (upsert_pod q info r).fastlets ≡ some info)
  unfolding upsert_pod
  upsert_pod-lookup info old r named e known = (
    λ same. rw (==_false info.id "" named) (
        rw (e, upserted)
          (rw (==_false old.pod_uid "" known, same, ==_refl info.pod_uid)
            (lookup-insert_self info.id _ _))),
    λ other. rw (==_false info.id "" named) (
        rw (e, upserted)
          (rw (==_false old.pod_uid "" known, ==_false old.pod_uid info.pod_uid other)
            (lookup-insert_self info.id info _))),
  )

  ledger-kept :
      (i : FastletInfo Quantity) (a b : Option (Demand Quantity))
      → ((use_ledger q i a b).admission ≡ i.admission)
        × ((use_ledger q i a b).resource_fence ≡ i.resource_fence)
  unfolding use_ledger
  ledger-kept i none b = (refl, refl)
  ledger-kept i (some a) none = (refl, refl)
  ledger-kept i (some a) (some b) = ground arith

  pub ledger_of-kept :
      (i : FastletInfo Quantity) (o : Option ResourceStatus)
      → ((ledger_of q i o).admission ≡ i.admission)
        × ((ledger_of q i o).resource_fence ≡ i.resource_fence)
  unfolding parse_resource_vector
  ledger_of-kept i none = (refl, refl)
  ledger_of-kept i (some r) = ledger-kept i _ _

  pub cache-kept :
      (normalize : List String → List String) (c : CacheSnapshot) (i : FastletInfo Quantity)
      → ((apply_cache q normalize c i).admission ≡ i.admission)
        × ((apply_cache q normalize c i).resource_fence ≡ i.resource_fence)
        × ((apply_cache q normalize c i).cache_epoch ≡ c.epoch)
        × ((apply_cache q normalize c i).pod_uid ≡ i.pod_uid)
  unfolding apply_cache
  cache-kept normalize c i = ground arith
