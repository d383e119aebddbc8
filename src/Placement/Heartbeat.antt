-- ===== src/Placement/Heartbeat.antt =====
-- placement/registry.go: what a heartbeat that is taken does to an entry.
use fast_sandbox.Base.{
  ℕ, Bool, true, false, not, ◌&&◌, ◌||◌, Option, none, some, List, [], ◌∷◌, String, Dict, insert,
  ◌==◌, text_equality, nat_equality, if◌then◌else◌, ltb, leb,
}
use fast_sandbox.Placement.Quantity.{Quantities}
use fast_sandbox.Placement.Types.{
  Demand, FastletInfo, AdmissionStatus, admission_state_beq, open_state, ResourceStatus,
  ResourceVector, Fence, HeartbeatResponse, SandboxStatus, CacheSnapshot,
}

abbrev pub status_map : List SandboxStatus → Dict SandboxStatus → Dict SandboxStatus
status_map [] m = m
status_map (s ∷ ss) m = status_map ss (insert s.sandbox_id s m)

abbrev pub or_else : String → String → String
or_else a b = if a == "" then b else a

-- Whether a snapshot is at the fence or before it, under the fence's epoch.
abbrev pub at_fence : Fence → ResourceStatus → Bool
at_fence f r = r.epoch == f.epoch && leb r.revision f.revision

abbrev pub repeats : Option ResourceStatus → ResourceStatus → Bool
repeats none r = false
repeats (some c) r =
    r.epoch == c.epoch
    && r.revision == c.revision
    && admission_state_beq c.state r.state
    && c.reason == r.reason

abbrev pub advances : Option ResourceStatus → ResourceStatus → Bool
advances none r = true
advances (some c) r = not (r.epoch == c.epoch) || leb c.revision r.revision

-- `accept` of `applyHeartbeatAdmission`
unfoldable pub accepts_heartbeat : Fence → Option ResourceStatus → ResourceStatus → Bool
accepts_heartbeat f current r = if at_fence f r then repeats current r else advances current r

abbrev pub same_snapshot : Option ResourceStatus → ResourceStatus → Bool
same_snapshot none r = false
same_snapshot (some a) r = a.epoch == r.epoch && a.revision == r.revision

abbrev pub cleared : Fence → Option ResourceStatus → Bool
cleared f none = true
cleared f (some r) =
    admission_state_beq r.state open_state
    && (f.epoch == "" || not (r.epoch == f.epoch) || ltb f.revision r.revision)

module _ (q : Quantities) where
  open q use {Quantity, is_positive, is_negative, cmp_le, parse_quantity}

  abbrev pub Info : Type 0
  Info = FastletInfo Quantity

  abbrev pub received : ℕ → ResourceStatus → Info → Info
  received now r i =
      if same_snapshot i.admission.resources r then record i { resource_received_at = now } else i

  unfoldable pub apply_resources :
      AdmissionStatus → ℕ → Info → Option ResourceStatus → Option ResourceStatus → Info
  apply_resources incoming now i none none = record i { admission = incoming }
  apply_resources incoming now i (some c) none = i
  apply_resources incoming now i current (some r) = received now r (
      if accepts_heartbeat i.resource_fence current r then record i { admission = incoming } else i)

  unfoldable pub apply_heartbeat_admission : AdmissionStatus → ℕ → Info → Info
  unfolding apply_resources
  apply_heartbeat_admission incoming now i =
      apply_resources incoming now i i.admission.resources incoming.resources

  abbrev pub non_negative : Option Quantity → Option Quantity
  non_negative none = none
  non_negative (some x) = if is_negative x then none else some x

  abbrev pub both : Option Quantity → Option Quantity → Option (Demand Quantity)
  both (some c) (some m) = some (record { cpu = c; memory = m })
  both _ _ = none

  unfoldable pub parse_resource_vector : ResourceVector → Option (Demand Quantity)
  parse_resource_vector v =
      both (non_negative (parse_quantity v.cpu)) (non_negative (parse_quantity v.memory))

  abbrev pub differs : Quantity → Quantity → Bool
  differs a b = not (cmp_le a b && cmp_le b a)

  abbrev pub disagrees : Demand Quantity → Info → Bool
  disagrees capacity i =
      is_positive i.resource_capacity.cpu
      && (differs capacity.cpu i.resource_capacity.cpu
          || differs capacity.memory i.resource_capacity.memory)

  abbrev pub not_received : Info → Info
  not_received i = record i { resource_received_at = 0 }

  unfoldable pub use_ledger : Info → Option (Demand Quantity) → Option (Demand Quantity) → Info
  use_ledger i (some capacity) (some committed) =
      if disagrees capacity i
      then not_received i
      else record i { resource_capacity = capacity; resource_committed = committed }
  use_ledger i _ _ = not_received i

  abbrev pub ledger_of : Info → Option ResourceStatus → Info
  ledger_of i none = i
  ledger_of i (some r) =
      use_ledger i (parse_resource_vector r.capacity) (parse_resource_vector r.committed)

  unfoldable pub apply_admission_resources : Info → Info
  unfolding use_ledger parse_resource_vector
  apply_admission_resources i = ledger_of i i.admission.resources

  -- `resourceRejectionCleared`
  unfoldable pub resource_rejection_cleared : Info → Bool
  resource_rejection_cleared i = cleared i.resource_fence i.admission.resources

  -- The cache part; `normalize` is `NormalizeInventory`.
  unfoldable pub apply_cache : (List String → List String) → CacheSnapshot → Info → Info
  apply_cache normalize c i =
      if c.full
      then record i {
        cache_complete = c.complete;
        images = if c.complete then normalize c.images else [];
        cache_epoch = c.epoch;
        cache_revision = c.revision;
      }
      else if not (c.epoch == i.cache_epoch) || not (c.revision == i.cache_revision)
      then record i {
        cache_complete = false;
        images = [];
        cache_epoch = c.epoch;
        cache_revision = c.revision;
      }
      else record i { cache_epoch = c.epoch; cache_revision = c.revision }

  abbrev pub lift_rejection : Info → Info
  lift_rejection i = if resource_rejection_cleared i then record i { rejected_until = 0 } else i

  abbrev pub with_facts : HeartbeatResponse → Info → Info
  with_facts h i = record i {
    runtime_ready = h.runtime_ready;
    infra_ready = h.infra_ready;
    draining = i.drain_requested || h.draining;
    prepared_artifacts = h.prepared_artifacts;
    registry_revision = h.registry_revision;
    warm_images = h.warm_images;
  }

  abbrev pub with_profile : HeartbeatResponse → Info → Info
  with_profile h i = record i {
    runtime_profile_hash = or_else i.runtime_profile_hash h.runtime_profile_hash;
    resource_profile_hash = or_else i.resource_profile_hash h.resource_profile_hash;
    infra_revision = or_else i.infra_revision h.infra_revision;
    sandbox_statuses = status_map h.sandbox_statuses [];
  }

  abbrev pub stamped : HeartbeatResponse → ℕ → Info → Info
  stamped h now i = record i { heartbeat_sequence = h.sequence; last_heartbeat = now }

  unfoldable pub accept_heartbeat :
      (List String → List String) → HeartbeatResponse → ℕ → Info → Info
  unfolding apply_heartbeat_admission apply_admission_resources apply_cache
  accept_heartbeat normalize h now i =
      let admitted =
        apply_admission_resources (apply_heartbeat_admission h.admission now (with_facts h i)) in
      let cached = apply_cache normalize h.cache (with_profile h admitted) in
      lift_rejection (stamped h now cached)
