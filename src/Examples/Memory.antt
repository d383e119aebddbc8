-- ===== src/Examples/Memory.antt =====
-- The memory observer on samples in thousandths.
use fast_sandbox.Base.{
  ℕ, ◌*◌, ◌/◌, ◌≡◌, ◌≢◌, refl, ◌⊎◌, true, false, Option, some, List, [], ◌∷◌, ltb, leb, ◌==◌,
  nat_equality, pos,
}
use fast_sandbox.Placement.Types.{open_state, blocked, unknown_state}
use fast_sandbox.Pressure.{
  Ratios, fresh_observer, PressureGate, set_resource_admission_state, transition, Sample, Config,
  observe, observe_all, run_observer, telemetry_missing,
}
use fast_sandbox.Pressure.Counters.{kind_of, calm, kinds, run_length, is_calm}
use fast_sandbox.Pressure.Mirror.{gate_set}
use fast_sandbox.Pressure.Windows.{watched, calm_window-open, opened-calm_window}

abbrev thousandths : Ratios
thousandths = record {
  Ratio = ℕ;
  zero_ratio = 0;
  one_ratio = 1000;
  quotient = λ a b. a * 1000 / b;
  lt_ratio = ltb;
  le_ratio = leb;
  eq_ratio = λ a b. a == b;
}

abbrev limits : Config thousandths
limits = record {
  interval = pos 2000;
  high_watermark = 900;
  low_watermark = 800;
  high_samples = pos 2;
  recovery_samples = pos 2;
  psi_avg10_threshold = 10;
  node_low_watermark = 50;
  node_recovery_watermark = 100;
}

abbrev sample : ℕ → ℕ → Option (Sample thousandths)
sample used kills = some (record {
  memory_current_bytes = used;
  memory_limit_bytes = 1000;
  oom_kills = kills;
  memory_psi_avg10 = 0;
  host_available_ratio = 500;
  host_memory_observed = true;
})

abbrev shut : PressureGate
shut = record { resource_state = blocked; resource_reason = "" }

-- An OOM kill, then two calm samples, the latest first.
abbrev after_kill : List (Option (Sample thousandths))
after_kill = sample 100 1 ∷ sample 100 1 ∷ sample 850 0 ∷ []

calm_window-open_example :
    (watched thousandths limits (sample 100 1 ∷ after_kill) shut).1
    ≡ record { resource_state = open_state; resource_reason = "" }
unfolding observe observe_all run_observer transition set_resource_admission_state
calm_window-open_example =
    calm_window-open thousandths limits (sample 100 1) after_kill shut refl refl

blocked≢open : blocked ≢ open_state
blocked≢open e = cc e

opened-calm_window_example :
    (kind_of thousandths limits (watched thousandths limits after_kill shut).0 (sample 100 1)
      ≡ calm)
    × (((watched thousandths limits after_kill shut).0.initialized ≡ false)
        ⊎ (leb 2 (
              run_length is_calm (
                kinds thousandths limits gate_set
                  (sample 100 1 ∷ after_kill)
                  (fresh_observer, (gate_set unknown_state telemetry_missing shut).0)))
            ≡ true))
unfolding observe observe_all run_observer transition set_resource_admission_state
opened-calm_window_example =
    opened-calm_window thousandths limits (sample 100 1) after_kill shut blocked≢open refl
