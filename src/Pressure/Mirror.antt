-- ===== src/Pressure/Mirror.antt =====
-- The observer over the manager's own setter: what each observation decides, and that the manager has
-- what the observer decided.
use fast_sandbox.Base.{
  ℕ, ◌+◌, ◌≡◌, refl, ap, inl, inr, ◌&&◌, Bool, true, false, not, ◌||◌, Option, none, some, String,
  Bool-cases, arith, ◌==◌, text_equality, eq_iff, pos, leb_ℤ,
}
use fast_sandbox.Placement.Types.{
  AdmissionState, open_state, blocked, unknown_state, other_state, admission_state_beq,
}
use fast_sandbox.Pressure.{
  Ratios, Observer, PressureGate, set_resource_admission_state, transition, block_now, judge,
  telemetry_missing, oom_event, host_pressure, memory_psi, high_watermark_reason, Sample, Config,
  observe, unusable, oom_increased, host_is_low, psi_is_high, usage_is_high, recovered,
}
use fast_sandbox.Pressure.Counters.{kind_of, kind_by, Kind, lost, pressed, high, calm, middle}

abbrev pub Agree : Observer → PressureGate → Type 0
Agree o g = (g.resource_state ≡ o.state) × (g.resource_reason ≡ o.reason)

abbrev pub gate_set : AdmissionState → String → PressureGate → PressureGate × Bool
gate_set = set_resource_admission_state

abbrev Takes : AdmissionState → String → Type 0
Takes state reason =
    (g : PressureGate)
    → gate_set state reason g ≡ (record { resource_state = state; resource_reason = reason }, true)

abbrev pub Reached : AdmissionState → String → Observer × PressureGate → Type 0
Reached state reason x = Agree x.0 x.1 × (x.0.state ≡ state) × (x.0.reason ≡ reason)

pub Takes-blocked : (reason : String) → Takes blocked reason
unfolding set_resource_admission_state
Takes-blocked reason g = refl

pub Takes-unknown : (reason : String) → Takes unknown_state reason
unfolding set_resource_admission_state
Takes-unknown reason g = refl

pub Takes-open : Takes open_state ""
unfolding set_resource_admission_state
Takes-open g = refl

same_state : (a b : AdmissionState) → admission_state_beq a b ≡ true → a ≡ b
same_state (other_state x) (other_state y) e = ap other_state ((eq_iff x y).0 e)
same_state open_state b e = ground arith
same_state blocked b e = ground arith
same_state unknown_state b e = ground arith
same_state (other_state x) b e = ground arith

both : (p q : Bool) → (p && q) ≡ true → (p ≡ true) × (q ≡ true)
both p q e = ground arith

pub transition-Reached :
    (state : AdmissionState) (reason : String)
    → Takes state reason
    → (o : Observer) (g : PressureGate) → Agree o g
    → Reached state reason (transition gate_set state reason (o, g))
unfolding transition
transition-Reached state reason takes o g agree =
    elim (Bool-cases (admission_state_beq o.state state && o.reason == reason)) [
      | inl e ↦
          let (h, k) = both (admission_state_beq o.state state) (o.reason == reason) e in
          rw e (agree, same_state o.state state h, (eq_iff o.reason reason).0 k)
      | inr e ↦ rw (e, takes g) ((refl, refl), refl, refl)
    ]

-- The state is set, or is left as it was.
abbrev pub When : Bool → AdmissionState → String → Observer → Observer × PressureGate → Type 0
When true state reason o x = Reached state reason x
When false state reason o x = Agree x.0 x.1 × (x.0.state ≡ o.state)

module _ (r : Ratios) (c : Config r) where
  -- What an observation of each kind makes of the state.
  abbrev pub Decided : Kind → Observer → Observer × PressureGate → Type 0
  Decided lost o x = Reached unknown_state telemetry_missing x
  Decided pressed o x = Agree x.0 x.1 × (x.0.state ≡ blocked)
  Decided high o x =
      When (leb_ℤ c.high_samples (pos (o.high_count + 1))) blocked high_watermark_reason o x
  Decided calm o x =
      When (not o.initialized || leb_ℤ c.recovery_samples (pos (o.recovery_count + 1))) open_state
        "" o x
  Decided middle o x = Agree x.0 x.1 × (x.0.state ≡ o.state)

  abbrev blocked-Reached :
      (reason : String) (o : Observer) (g : PressureGate)
      → Agree o g
      → Reached blocked reason (transition gate_set blocked reason (o, g))
  blocked-Reached reason = transition-Reached blocked reason (Takes-blocked reason)

  now-blocked :
      (reason : String) (o : Observer) (kills : ℕ) (g : PressureGate)
      → Agree o g
      → Decided pressed o (
          block_now r gate_set c reason
            (record o { initialized = true; last_oom_kills = kills }, g))
  now-blocked reason o kills g a =
      let at : Observer = record o {
        initialized = true;
        last_oom_kills = kills;
        high_count = 0;
        recovery_count = 0;
      } in
      let (h, e, f) = blocked-Reached reason at g a in (h, e)

  judge-Decided :
      (oom host psi hot cool : Bool) (o : Observer) (kills : ℕ) (g : PressureGate)
      → Agree o g
      → Decided (kind_by oom host psi hot cool) o (
          judge r gate_set c oom host psi hot cool
            (not o.initialized)
            (record o { initialized = true; last_oom_kills = kills }, g))
  judge-Decided true host psi hot cool o kills g a = now-blocked oom_event o kills g a
  judge-Decided false true psi hot cool o kills g a = now-blocked host_pressure o kills g a
  judge-Decided false false true hot cool o kills g a = now-blocked memory_psi o kills g a
  judge-Decided false false false true cool o kills g a =
      elim (Bool-cases (leb_ℤ c.high_samples (pos (o.high_count + 1)))) [
        | inl e ↦ rw e (blocked-Reached high_watermark_reason _ g a)
        | inr e ↦ rw e (a, refl)
      ]
  judge-Decided false false false false true o kills g a =
      elim (Bool-cases
        (not o.initialized || leb_ℤ c.recovery_samples (pos (o.recovery_count + 1)))) [
          | inl e ↦ rw e (transition-Reached open_state "" Takes-open _ g a)
          | inr e ↦ rw e (a, refl)
        ]
  judge-Decided false false false false false o kills g a = (a, refl)

  -- One observation of a manager that has the observer's state leaves them with the same state, the one
  -- that its kind decides: unknown for lost telemetry, blocked at once for an OOM kill, host pressure or
  -- PSI, blocked by the last of enough high samples, open by the first valid calm sample or the last of
  -- enough calm ones, and in each other case the state there was.
  pub observe-Decided :
      (s : Option (Sample r)) (o : Observer) (g : PressureGate)
      → Agree o g
      → Decided (kind_of r c o s) o (observe r gate_set c s (o, g))
  unfolding observe
  observe-Decided none o g a =
      transition-Reached unknown_state telemetry_missing (Takes-unknown telemetry_missing) o g a
  observe-Decided (some s) o g a = elim (Bool-cases (unusable r c s)) [
    | inl e ↦
        rw e (
          transition-Reached unknown_state telemetry_missing (Takes-unknown telemetry_missing) o g
            a)
    | inr e ↦ rw e (
        judge-Decided (oom_increased r s o) (host_is_low r c s) (psi_is_high r c s)
          (usage_is_high r c s) (recovered r c s) o s.oom_kills g a)
  ]
