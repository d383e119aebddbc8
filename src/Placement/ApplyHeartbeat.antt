-- ===== src/Placement/ApplyHeartbeat.antt =====
-- placement/registry.go: `ApplyHeartbeat`, which heartbeats are taken and which are refused.
use fast_sandbox.Base.{
  ℕ, Bool, false, not, ◌&&◌, ◌||◌, Option, none, some, List, String, lookup, ◌==◌, text_equality,
  nat_equality, if◌then◌else◌, leb,
}
use fast_sandbox.Placement.Quantity.{Quantities}
use fast_sandbox.Placement.Types.{FastletInfo, Registry, HeartbeatResponse}
use fast_sandbox.Placement.Reserve.{put_fastlet}
use fast_sandbox.Placement.Heartbeat.{accept_heartbeat}

pub data RegistryError : Type 0 where
  heartbeat_is_nil fastlet_not_found stale_pod_identity stale_heartbeat profile_mismatch :
      RegistryError

module _ (q : Quantities) where
  open q use {Quantity}

  abbrev Info : Type 0
  Info = FastletInfo Quantity

  abbrev pub mismatch : String → String → Bool
  mismatch known told = not (known == "") && not (told == known)

  abbrev pub wrong_profile : HeartbeatResponse → Info → Bool
  wrong_profile h i =
      mismatch i.runtime_profile_hash h.runtime_profile_hash
      || mismatch i.resource_profile_hash h.resource_profile_hash
      || mismatch i.infra_revision h.infra_revision

  abbrev pub wrong_pod : String → HeartbeatResponse → Info → Bool
  wrong_pod expected h i =
      i.pod_uid == "" || not (i.pod_uid == expected) || not (h.fastlet_pod_uid == expected)

  abbrev pub stale_sequence : HeartbeatResponse → Info → Bool
  stale_sequence h i = h.cache.epoch == i.cache_epoch && leb h.sequence i.heartbeat_sequence

  unfoldable pub heartbeat_slot :
      (List String → List String)
      → String
      → HeartbeatResponse
      → ℕ
      → Info
      → Info × Option RegistryError
  unfolding accept_heartbeat
  heartbeat_slot normalize expected h now i =
      if wrong_pod expected h i
      then (i, some stale_pod_identity)
      else if stale_sequence h i
      then (i, some stale_heartbeat)
      else if wrong_profile h i
      then (record i { runtime_ready = false; last_heartbeat = now }, some profile_mismatch)
      else (accept_heartbeat q normalize h now i, none)

  abbrev Reg : Type 0
  Reg = Registry Quantity

  unfoldable pub heartbeat_found :
      (List String → List String)
      → String
      → String
      → HeartbeatResponse
      → ℕ
      → Reg
      → Option Info
      → Reg × Option RegistryError
  unfolding heartbeat_slot
  heartbeat_found normalize id expected h now r none = (r, some fastlet_not_found)
  heartbeat_found normalize id expected h now r (some i) =
      let (j, e) = heartbeat_slot normalize expected h now i in (put_fastlet q id j r, e)

  -- `none` is the nil response.
  unfoldable pub apply_heartbeat :
      (List String → List String)
      → String
      → String
      → Option HeartbeatResponse
      → ℕ
      → Reg
      → Reg × Option RegistryError
  unfolding heartbeat_found
  apply_heartbeat normalize id expected none now r = (r, some heartbeat_is_nil)
  apply_heartbeat normalize id expected (some h) now r =
      heartbeat_found normalize id expected h now r (lookup id r.fastlets)
