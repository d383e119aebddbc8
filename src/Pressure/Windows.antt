-- ===== src/Pressure/Windows.antt =====
-- What the manager has after a history of observations: when admission opens, and when it closes.
use std.Path.{subst}
use fast_sandbox.Base.{
  ◌+◌, String, ◌≡◌, ◌≢◌, ◌∙◌, refl, sym, ap, ◌⊎◌, inl, inr, Bool, true, false, not, ◌||◌, Option,
  List, [], ◌∷◌, pos, leb_ℤ, arith,
}
use fast_sandbox.Placement.Types.{AdmissionState, open_state, blocked, unknown_state}
use fast_sandbox.Pressure.{
  Ratios, Observer, fresh_observer, PressureGate, set_resource_admission_state, telemetry_missing,
  high_watermark_reason, Sample, Config, observe_all, run_observer,
}
use fast_sandbox.Pressure.Counters.{
  kind_of, kinds, run_length, is_high, is_calm, Kind, lost, pressed, high, calm, middle,
  observe_all-counts,
}
use fast_sandbox.Pressure.Mirror.{Agree, Reached, When, gate_set, Decided, observe-Decided}

or_true : (p q : Bool) → q ≡ true → (p || q) ≡ true
or_true p q e = ground arith

or_cases : (p q : Bool) → (not p || q) ≡ true → (p ≡ false) ⊎ (q ≡ true)
or_cases p q e = ground arith

unknown≢open : unknown_state ≢ open_state
unknown≢open e = cc e

blocked≢open : blocked ≢ open_state
blocked≢open e = cc e

module _ (r : Ratios) (c : Config r) where
  abbrev History : Type 0
  History = List (Option (Sample r))

  -- The manager as `Run` first sets it.
  abbrev pub set_first : PressureGate → PressureGate
  set_first g = (gate_set unknown_state telemetry_missing g).0

  abbrev pub watched : History → PressureGate → Observer × PressureGate
  watched samples g = run_observer r gate_set c samples (fresh_observer, g)

  abbrev pub history_kinds : History → PressureGate → List Kind
  history_kinds samples g = kinds r c gate_set samples (fresh_observer, set_first g)

  When-Agree :
      (b : Bool) (state : AdmissionState) (reason : String) (o : Observer)
      (x : Observer × PressureGate)
      → When b state reason o x
      → Agree x.0 x.1
  When-Agree true state reason o x w = w.0
  When-Agree false state reason o x w = w.0

  When-true :
      (b : Bool) (state : AdmissionState) (reason : String) (o : Observer)
      (x : Observer × PressureGate)
      → b ≡ true
      → When b state reason o x
      → Reached state reason x
  When-true true state reason o x e w = w
  When-true false state reason o x e w = absurd (cc e)

  When-changed :
      (b : Bool) (state : AdmissionState) (reason : String) (o : Observer)
      (x : Observer × PressureGate)
      → When b state reason o x
      → (x.0.state ≡ o.state) ⊎ ((b ≡ true) × (x.0.state ≡ state))
  When-changed true state reason o x w = let (a, e, f) = w in inr (refl, e)
  When-changed false state reason o x w = let (a, e) = w in inl e

  -- A step's agreement, whatever it decided.
  Decided-Agree :
      (k : Kind) (o : Observer) (x : Observer × PressureGate) → Decided r c k o x → Agree x.0 x.1
  Decided-Agree lost o x d = d.0
  Decided-Agree pressed o x d = d.0
  Decided-Agree high o x d = When-Agree _ blocked high_watermark_reason o x d
  Decided-Agree calm o x d = When-Agree _ open_state "" o x d
  Decided-Agree middle o x d = d.0

  -- The manager's admission state and reason are the observer's after any observations.
  pub run_observer-Agree :
      (samples : History) (g : PressureGate) → Agree (watched samples g).0 (watched samples g).1
  unfolding run_observer observe_all set_resource_admission_state
  run_observer-Agree [] g = (refl, refl)
  run_observer-Agree (s ∷ older) g =
      let x = watched older g in
      Decided-Agree (kind_of r c x.0 s) x.0 (watched (s ∷ older) g)
        (observe-Decided r c s x.0 x.1 (run_observer-Agree older g))

  next-Decided :
      (s : Option (Sample r)) (older : History) (g : PressureGate)
      → Decided r c (kind_of r c (watched older g).0 s) (watched older g).0 (watched (s ∷ older) g)
  unfolding run_observer observe_all
  next-Decided s older g =
      observe-Decided r c s (watched older g).0 (watched older g).1 (run_observer-Agree older g)

  Decided-as :
      (k : Kind) (s : Option (Sample r)) (older : History) (g : PressureGate)
      → kind_of r c (watched older g).0 s ≡ k
      → Decided r c k (watched older g).0 (watched (s ∷ older) g)
  Decided-as k s older g e =
      subst (λ x. Decided r c x (watched older g).0 (watched (s ∷ older) g)) e
        (next-Decided s older g)

  calm_run :
      (s : Option (Sample r)) (older : History) (g : PressureGate)
      → kind_of r c (watched older g).0 s ≡ calm
      → run_length is_calm (history_kinds (s ∷ older) g) ≡ (watched older g).0.recovery_count + 1
  unfolding run_observer
  calm_run s older g k =
      rw k (ap (λ n. n + 1) (sym (observe_all-counts r c gate_set older (set_first g)).1))

  high_run :
      (s : Option (Sample r)) (older : History) (g : PressureGate)
      → kind_of r c (watched older g).0 s ≡ high
      → run_length is_high (history_kinds (s ∷ older) g) ≡ (watched older g).0.high_count + 1
  unfolding run_observer
  high_run s older g k =
      rw k (ap (λ n. n + 1) (sym (observe_all-counts r c gate_set older (set_first g)).0))

  Reached-gate :
      (state : AdmissionState) (reason : String) (x : Observer × PressureGate)
      → Reached state reason x
      → x.1 ≡ record { resource_state = state; resource_reason = reason }
  Reached-gate state reason x reached = ground arith

  -- The manager is open after a history that ends with a calm sample and with a run of at least
  -- `recovery_samples` calm samples.
  pub calm_window-open :
      (s : Option (Sample r)) (older : History) (g : PressureGate)
      → kind_of r c (watched older g).0 s ≡ calm
      → leb_ℤ c.recovery_samples (pos (run_length is_calm (history_kinds (s ∷ older) g))) ≡ true
      → (watched (s ∷ older) g).1 ≡ record { resource_state = open_state; resource_reason = "" }
  calm_window-open s older g k enough =
      let o = (watched older g).0 in
      let d = Decided-as calm s older g k in
      let e : leb_ℤ c.recovery_samples (pos (o.recovery_count + 1)) ≡ true =
        rw (sym (calm_run s older g k)) enough in
      Reached-gate open_state "" (watched (s ∷ older) g)
        (When-true _ open_state "" o (watched (s ∷ older) g) (or_true (not o.initialized) _ e) d)

  -- The manager is blocked, with the high watermark as the reason, after a history that ends with a high
  -- sample and with a run of at least `high_samples` high samples.
  pub high_window-blocked :
      (s : Option (Sample r)) (older : History) (g : PressureGate)
      → kind_of r c (watched older g).0 s ≡ high
      → leb_ℤ c.high_samples (pos (run_length is_high (history_kinds (s ∷ older) g))) ≡ true
      → (watched (s ∷ older) g).1
        ≡ record { resource_state = blocked; resource_reason = high_watermark_reason }
  high_window-blocked s older g k enough =
      let o = (watched older g).0 in
      let d = Decided-as high s older g k in
      let e : leb_ℤ c.high_samples (pos (o.high_count + 1)) ≡ true =
        rw (sym (high_run s older g k)) enough in
      Reached-gate blocked high_watermark_reason (watched (s ∷ older) g)
        (When-true _ blocked high_watermark_reason o (watched (s ∷ older) g) e d)

  Decided-opened :
      (k : Kind) (o : Observer) (x : Observer × PressureGate)
      → Decided r c k o x
      → o.state ≢ open_state
      → x.0.state ≡ open_state
      → (k ≡ calm)
        × ((not o.initialized || leb_ℤ c.recovery_samples (pos (o.recovery_count + 1))) ≡ true)
  Decided-opened lost o x d closed opened =
      let (a, e, f) = d in absurd (unknown≢open (sym e ∙ opened))
  Decided-opened pressed o x d closed opened =
      let (a, e) = d in absurd (blocked≢open (sym e ∙ opened))
  Decided-opened high o x d closed opened =
      elim (When-changed _ blocked high_watermark_reason o x d) [
        | inl e ↦ absurd (closed (sym e ∙ opened))
        | inr (b, e) ↦ absurd (blocked≢open (sym e ∙ opened))
      ]
  Decided-opened calm o x d closed opened = elim (When-changed _ open_state "" o x d) [
    | inl e ↦ absurd (closed (sym e ∙ opened))
    | inr (b, e) ↦ (refl, b)
  ]
  Decided-opened middle o x d closed opened = let (a, e) = d in absurd (closed (sym e ∙ opened))

  -- An observation that makes the manager open when it was not is a calm sample, and is the first valid
  -- one or ends a run of at least `recovery_samples` calm samples.
  pub opened-calm_window :
      (s : Option (Sample r)) (older : History) (g : PressureGate)
      → (watched older g).1.resource_state ≢ open_state
      → (watched (s ∷ older) g).1.resource_state ≡ open_state
      → (kind_of r c (watched older g).0 s ≡ calm)
        × (((watched older g).0.initialized ≡ false)
            ⊎ (leb_ℤ c.recovery_samples (pos (run_length is_calm (history_kinds (s ∷ older) g)))
                ≡ true))
  opened-calm_window s older g closed opened =
      let before = (run_observer-Agree older g).0 in
      let after = (run_observer-Agree (s ∷ older) g).0 in
      let (k, b) =
        Decided-opened _ (watched older g).0 (watched (s ∷ older) g) (next-Decided s older g)
          (λ e. closed (before ∙ e)) (sym after ∙ opened) in
      (
        k,
        elim (or_cases (watched older g).0.initialized _ b) [
          | inl e ↦ inl e
          | inr e ↦ inr (rw (calm_run s older g k) e)
        ],
      )

  -- Lost telemetry, an OOM kill, host pressure and PSI close admission at once.
  pub pressed-closed :
      (s : Option (Sample r)) (older : History) (g : PressureGate)
      → (kind_of r c (watched older g).0 s ≡ lost) ⊎ (kind_of r c (watched older g).0 s ≡ pressed)
      → (watched (s ∷ older) g).1.resource_state ≢ open_state
  pressed-closed s older g (inl k) opened =
      let (a, e, f) = Decided-as lost s older g k in
      absurd (unknown≢open (sym e ∙ sym a.0 ∙ opened))
  pressed-closed s older g (inr k) opened =
      let (a, e) = Decided-as pressed s older g k in
      absurd (blocked≢open (sym e ∙ sym a.0 ∙ opened))
