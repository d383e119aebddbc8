-- ===== src/Pressure.antt =====
-- internal/fastlet/resourceadmission/observer.go and `SetResourceAdmissionState` of
-- internal/fastlet/sandbox/manager.go: the decision of a Fastlet to stop or to resume admission by the
-- pressure on its memory.
--
-- What the reader returns is an argument of `observe`, `none` for its error. The setter is a parameter
-- that carries a store of its own and tells whether it took the state. A count of samples is a natural
-- number: it counts the observations of one process, one for each tick of its interval.
pub mod Counters
pub mod Windows
pub mod Mirror
use fast_sandbox.Base.{
  ℕ, ◌+◌, Bool, true, false, not, ◌&&◌, ◌||◌, Option, none, some, List, [], ◌∷◌, String, ltb, ◌==◌,
  nat_equality, text_equality, if◌then◌else◌, ℤ, pos, leb_ℤ,
}
use fast_sandbox.Placement.Types.{
  AdmissionState, open_state, blocked, unknown_state, other_state, admission_state_beq,
}

-- Go's `float64`, as far as the observer uses it.
pub record Ratios : Type 1 where
  pub Ratio : Type 0
  pub zero_ratio : Ratio
  pub one_ratio : Ratio
  pub quotient : ℕ → ℕ → Ratio
  pub lt_ratio : Ratio → Ratio → Bool
  pub le_ratio : Ratio → Ratio → Bool
  pub eq_ratio : Ratio → Ratio → Bool

abbrev pub telemetry_missing : String
telemetry_missing = "TELEMETRY_MISSING"

abbrev pub oom_event : String
oom_event = "FASTLET_OOM_EVENT"

abbrev pub host_pressure : String
host_pressure = "HOST_MEMORY_PRESSURE"

abbrev pub memory_psi : String
memory_psi = "FASTLET_MEMORY_PSI"

abbrev pub high_watermark_reason : String
high_watermark_reason = "FASTLET_MEMORY_HIGH_WATERMARK"

pub record Observer : Type 0 where
  pub state : AdmissionState
  pub reason : String
  pub high_count : ℕ
  pub recovery_count : ℕ
  pub last_oom_kills : ℕ
  pub initialized : Bool

abbrev pub fresh_observer : Observer
fresh_observer = record {
  state = unknown_state;
  reason = telemetry_missing;
  high_count = 0;
  recovery_count = 0;
  last_oom_kills = 0;
  initialized = false;
}

-- The manager's side of the setter.
pub record PressureGate : Type 0 where
  pub resource_state : AdmissionState
  pub resource_reason : String

unfoldable pub set_resource_admission_state :
    AdmissionState → String → PressureGate → PressureGate × Bool
set_resource_admission_state (other_state s) reason g = (g, false)
set_resource_admission_state open_state reason g =
    (record { resource_state = open_state; resource_reason = "" }, true)
set_resource_admission_state blocked reason g =
    (record { resource_state = blocked; resource_reason = reason }, true)
set_resource_admission_state unknown_state reason g =
    (record { resource_state = unknown_state; resource_reason = reason }, true)

module _ {Store : Type 0} (set : AdmissionState → String → Store → Store × Bool) where
  abbrev pub set_taken : AdmissionState → String → Observer → Store × Bool → Observer × Store
  set_taken state reason o (store, true) = (record o { state = state; reason = reason }, store)
  set_taken state reason o (store, false) = (o, store)

  unfoldable pub transition : AdmissionState → String → Observer × Store → Observer × Store
  transition state reason (o, store) =
      if admission_state_beq o.state state && o.reason == reason
      then (o, store)
      else set_taken state reason o (set state reason store)

module _ (r : Ratios) where
  open r use {Ratio, zero_ratio, one_ratio, quotient, lt_ratio, le_ratio, eq_ratio}

  pub record Sample : Type 0 where
    pub memory_current_bytes : ℕ
    pub memory_limit_bytes : ℕ
    pub oom_kills : ℕ
    pub memory_psi_avg10 : Ratio
    pub host_available_ratio : Ratio
    pub host_memory_observed : Bool

  pub record Config : Type 0 where
    pub interval : ℤ
    pub high_watermark : Ratio
    pub low_watermark : Ratio
    pub high_samples : ℤ
    pub recovery_samples : ℤ
    pub psi_avg10_threshold : Ratio
    pub node_low_watermark : Ratio
    pub node_recovery_watermark : Ratio

  -- `Validate` without an error.
  unfoldable pub valid_config : Config → Bool
  valid_config c =
      not (
        leb_ℤ c.interval (pos 0)
        || le_ratio c.high_watermark zero_ratio
        || lt_ratio one_ratio c.high_watermark
        || lt_ratio c.low_watermark zero_ratio
        || le_ratio c.high_watermark c.low_watermark)
      && not (
          leb_ℤ c.high_samples (pos 0)
          || leb_ℤ c.recovery_samples (pos 0)
          || lt_ratio c.psi_avg10_threshold zero_ratio)
      && not (
          lt_ratio c.node_low_watermark zero_ratio
          || lt_ratio c.node_recovery_watermark c.node_low_watermark
          || lt_ratio one_ratio c.node_recovery_watermark)

  unfoldable pub new_observer : Config → Option Observer
  unfolding valid_config
  new_observer c = if valid_config c then some fresh_observer else none

  abbrev pub unusable : Config → Sample → Bool
  unusable c s =
      s.memory_limit_bytes == 0
      || (lt_ratio zero_ratio c.node_low_watermark || lt_ratio zero_ratio c.node_recovery_watermark)
        && not s.host_memory_observed

  abbrev pub oom_increased : Sample → Observer → Bool
  oom_increased s o = o.initialized && ltb o.last_oom_kills s.oom_kills

  abbrev pub host_is_low : Config → Sample → Bool
  host_is_low c s =
      lt_ratio zero_ratio c.node_low_watermark
      && le_ratio s.host_available_ratio c.node_low_watermark

  abbrev pub psi_is_high : Config → Sample → Bool
  psi_is_high c s =
      lt_ratio zero_ratio c.psi_avg10_threshold && le_ratio c.psi_avg10_threshold s.memory_psi_avg10

  abbrev pub usage_ratio : Sample → Ratio
  usage_ratio s = quotient s.memory_current_bytes s.memory_limit_bytes

  abbrev pub usage_is_high : Config → Sample → Bool
  usage_is_high c s = le_ratio c.high_watermark (usage_ratio s)

  abbrev pub recovered : Config → Sample → Bool
  recovered c s =
      le_ratio (usage_ratio s) c.low_watermark
      && (eq_ratio c.node_recovery_watermark zero_ratio
          || le_ratio c.node_recovery_watermark s.host_available_ratio)

  module _ {Store : Type 0} (set : AdmissionState → String → Store → Store × Bool)
      (c : Config) where
    abbrev pub block_now : String → Observer × Store → Observer × Store
    block_now reason (o, store) =
        transition set blocked reason (record o { high_count = 0; recovery_count = 0 }, store)

    -- The source's `transition` comes first there and reads neither count.
    abbrev pub telemetry_lost : Observer × Store → Observer × Store
    telemetry_lost x =
        let (o, store) = transition set unknown_state telemetry_missing x in
        (record o { high_count = 0; recovery_count = 0 }, store)

    abbrev pub high_sample : Observer × Store → Observer × Store
    high_sample (o, store) =
        let counted : Observer = record o { high_count = o.high_count + 1; recovery_count = 0 } in
        if leb_ℤ c.high_samples (pos (o.high_count + 1))
        then transition set blocked high_watermark_reason (counted, store)
        else (counted, store)

    -- `first` is `firstValidSample`.
    abbrev pub low_sample : Bool → Observer × Store → Observer × Store
    low_sample first (o, store) =
        let counted : Observer = record o {
          high_count = 0;
          recovery_count = o.recovery_count + 1;
        } in
        if first || leb_ℤ c.recovery_samples (pos (o.recovery_count + 1))
        then transition set open_state "" (counted, store)
        else (counted, store)

    abbrev pub middle_sample : Observer × Store → Observer × Store
    middle_sample (o, store) = (record o { high_count = 0; recovery_count = 0 }, store)

    -- The switch, on its five conditions in their order.
    abbrev pub judge : Bool → Bool → Bool → Bool → Bool → Bool → Observer × Store → Observer × Store
    judge oom host psi high calm first x =
        if oom
        then block_now oom_event x
        else if host
        then block_now host_pressure x
        else if psi
        then block_now memory_psi x
        else if high
        then high_sample x
        else if calm
        then low_sample first x
        else middle_sample x

    unfoldable pub observe : Option Sample → Observer × Store → Observer × Store
    unfolding transition
    observe none x = telemetry_lost x
    observe (some s) (o, store) =
        if unusable c s
        then telemetry_lost (o, store)
        else judge (oom_increased s o) (host_is_low c s) (psi_is_high c s) (usage_is_high c s)
            (recovered c s) (not o.initialized)
            (record o { initialized = true; last_oom_kills = s.oom_kills }, store)

    -- What the ticks of `Run` leave, the latest sample first.
    unfoldable pub observe_all : List (Option Sample) → Observer × Store → Observer × Store
    unfolding observe
    observe_all [] x = x
    observe_all (s ∷ older) x = observe s (observe_all older x)

    -- `Run`, from its first setting, which ignores the error.
    unfoldable pub run_observer : List (Option Sample) → Observer × Store → Observer × Store
    unfolding observe_all
    run_observer samples (o, store) =
        observe_all samples (o, (set unknown_state telemetry_missing store).0)
