-- ===== src/Placement/Reserve.antt =====
-- placement/registry.go: `ReserveLocal`, `ReleaseLocal`, `UpsertPod`, `RemoveIfPodUID` and the reads.
use Prim.Native.String.{◌++◌}
use fast_sandbox.Base.{
  Bool, true, false, not, ◌&&◌, ◌||◌, Option, none, some, List, [], ◌∷◌, String, Dict, lookup,
  insert, remove, ◌==◌, text_equality, if◌then◌else◌, ℤ, pos, negsuc, ◌≤ℤ◌, ◌<ℤ◌, ◌+ℤ◌, ◌-ℤ◌, ltb_ℤ,
  leb_ℤ,
}
use fast_sandbox.Placement.Quantity.{Quantities}
use fast_sandbox.Placement.Types.{Demand, FastletInfo, Registry, scheduling_used, slot_capacity}

-- `NewFastletID`
unfoldable pub fastlet_id : String → String → String
fastlet_id namespace name =
    if namespace == "" || namespace == "default" then name else namespace ++ "/" ++ name

-- What an int64 can hold.
abbrev pub InInt64 : ℤ → Type 0
InInt64 n = (negsuc 9223372036854775807 ≤ℤ n) × (n <ℤ pos 9223372036854775808)

-- The sum of two int64, which wraps around at 2^63.
abbrev pub wrap_int64 : ℤ → ℤ
wrap_int64 n =
    if leb_ℤ (pos 9223372036854775808) n
    then n -ℤ pos 18446744073709551616
    else if ltb_ℤ n (negsuc 9223372036854775807)
    then n +ℤ pos 18446744073709551616
    else n

unfoldable pub add_int64 : ℤ → ℤ → ℤ
add_int64 a b = wrap_int64 (a +ℤ b)

module _ (q : Quantities) where
  open q use {Quantity, add, sub, is_positive, milli_value, value}

  abbrev pub demands_resources : Demand Quantity → Bool
  demands_resources d = is_positive d.cpu && is_positive d.memory

  unfoldable pub promised_cpu : FastletInfo Quantity → ℤ
  unfolding add_int64
  promised_cpu i =
      add_int64 (milli_value i.resource_committed.cpu) (milli_value i.in_flight_resources.cpu)

  unfoldable pub promised_memory : FastletInfo Quantity → ℤ
  unfolding add_int64
  promised_memory i =
      add_int64 (value i.resource_committed.memory) (value i.in_flight_resources.memory)

  unfoldable pub exceeds : FastletInfo Quantity → Demand Quantity → Bool
  unfolding promised_cpu promised_memory add_int64
  exceeds i d =
      ltb_ℤ (milli_value i.resource_capacity.cpu) (add_int64 (promised_cpu i) (milli_value d.cpu))
      || ltb_ℤ (value i.resource_capacity.memory) (add_int64 (promised_memory i) (value d.memory))

  unfoldable pub reserve_slot : Demand Quantity → FastletInfo Quantity → FastletInfo Quantity × Bool
  unfolding exceeds
  reserve_slot d i =
      if leb_ℤ (slot_capacity i) (scheduling_used i)
      then (i, false)
      else if demands_resources d
      then (if exceeds i d then (i, false) else (
        record i {
          in_flight_resources = record {
            cpu = add i.in_flight_resources.cpu d.cpu;
            memory = add i.in_flight_resources.memory d.memory;
          };
          in_flight_slots = i.in_flight_slots +ℤ pos 1;
        },
        true,
      ))
      else (record i { in_flight_slots = i.in_flight_slots +ℤ pos 1 }, true)

  abbrev pub fewer_slots : ℤ → ℤ
  fewer_slots n = if ltb_ℤ (pos 0) n then n -ℤ pos 1 else n

  unfoldable pub release_slot : Demand Quantity → FastletInfo Quantity → FastletInfo Quantity
  release_slot d i =
      if demands_resources d
      then record i {
        in_flight_slots = fewer_slots i.in_flight_slots;
        in_flight_resources = record {
          cpu = sub i.in_flight_resources.cpu d.cpu;
          memory = sub i.in_flight_resources.memory d.memory;
        };
      }
      else record i { in_flight_slots = fewer_slots i.in_flight_slots }

  abbrev pub put_fastlet : String → FastletInfo Quantity → Registry Quantity → Registry Quantity
  put_fastlet id i r = record r { fastlets = insert id i r.fastlets }

  unfoldable pub reserve_found :
      String
      → Demand Quantity
      → Registry Quantity
      → Option (FastletInfo Quantity)
      → Registry Quantity × Bool
  unfolding reserve_slot
  reserve_found id d r none = (r, false)
  reserve_found id d r (some i) =
      let (j, granted) = reserve_slot d i in (put_fastlet id j r, granted)

  unfoldable pub reserve_local :
      String → Demand Quantity → Registry Quantity → Registry Quantity × Bool
  unfolding reserve_found
  reserve_local id d r = reserve_found id d r (lookup id r.fastlets)

  unfoldable pub release_found :
      String
      → Demand Quantity
      → Registry Quantity
      → Option (FastletInfo Quantity)
      → Registry Quantity
  unfolding release_slot
  release_found id d r none = r
  release_found id d r (some i) = put_fastlet id (release_slot d i) r

  unfoldable pub release_local : String → Demand Quantity → Registry Quantity → Registry Quantity
  unfolding release_found
  release_local id d r = release_found id d r (lookup id r.fastlets)

  -- `preserveHeartbeat`
  unfoldable pub preserve_heartbeat :
      FastletInfo Quantity → FastletInfo Quantity → FastletInfo Quantity
  preserve_heartbeat target previous = record target {
    runtime_ready = previous.runtime_ready;
    infra_ready = previous.infra_ready;
    draining = target.drain_requested || previous.draining;
    admission = previous.admission;
    resource_received_at = previous.resource_received_at;
    resource_committed = previous.resource_committed;
    in_flight_resources = previous.in_flight_resources;
    in_flight_slots = previous.in_flight_slots;
    resource_fence = previous.resource_fence;
    images = previous.images;
    prepared_artifacts = previous.prepared_artifacts;
    registry_revision = previous.registry_revision;
    warm_images = previous.warm_images;
    cache_epoch = previous.cache_epoch;
    cache_revision = previous.cache_revision;
    cache_complete = previous.cache_complete;
    sandbox_statuses = previous.sandbox_statuses;
    heartbeat_sequence = previous.heartbeat_sequence;
    last_heartbeat = previous.last_heartbeat;
    rejected_until = previous.rejected_until;
  }

  -- A slot that is new has the zero info, whose `PodUID` is empty.
  unfoldable pub upserted :
      FastletInfo Quantity → Option (FastletInfo Quantity) → FastletInfo Quantity
  unfolding preserve_heartbeat
  upserted info none = info
  upserted info (some old) =
      if not (old.pod_uid == "") && old.pod_uid == info.pod_uid
      then preserve_heartbeat info old
      else info

  unfoldable pub upsert_pod : FastletInfo Quantity → Registry Quantity → Registry Quantity
  unfolding upserted
  upsert_pod info r =
      if info.id == "" then r else put_fastlet info.id (upserted info (lookup info.id r.fastlets)) r

  abbrev pub pod_is : String → Option (FastletInfo Quantity) → Bool
  pod_is uid none = false
  pod_is uid (some i) = i.pod_uid == uid

  unfoldable pub remove_if_pod_uid : String → String → Registry Quantity → Registry Quantity
  remove_if_pod_uid id uid r =
      if pod_is uid (lookup id r.fastlets) then record r { fastlets = remove id r.fastlets } else r

  unfoldable pub get_fastlet_by_id : String → Registry Quantity → Option (FastletInfo Quantity)
  get_fastlet_by_id id r = lookup id r.fastlets

  abbrev pub infos : Dict (FastletInfo Quantity) → List (FastletInfo Quantity)
  infos [] = []
  infos ((k, i) ∷ m) = i ∷ infos m

  unfoldable pub get_all_fastlets : Registry Quantity → List (FastletInfo Quantity)
  get_all_fastlets r = infos r.fastlets
