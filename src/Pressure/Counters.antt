-- ===== src/Pressure/Counters.antt =====
-- The observer's counts are the lengths of the runs of high and of calm samples that end its history.
use fast_sandbox.Base.{
  ℕ, ◌+◌, ◌≡◌, ◌∙◌, refl, sym, inl, inr, Bool, true, false, not, ◌||◌, Option, none, some, List, [],
  ◌∷◌, String, Bool-cases, arith, text_equality, nat_equality, if◌then◌else◌, pos, leb_ℤ,
}
use fast_sandbox.Placement.Types.{AdmissionState, open_state, blocked}
use fast_sandbox.Pressure.{
  Ratios, Observer, fresh_observer, transition, judge, oom_event, host_pressure, memory_psi,
  high_watermark_reason, Sample, Config, observe, observe_all, unusable, oom_increased, host_is_low,
  psi_is_high, usage_is_high, recovered,
}

pub data Kind : Type 0 where
  lost pressed high calm middle : Kind

-- What one observation is.
abbrev pub is_high : Kind → Bool
is_high high = true
is_high _ = false

abbrev pub is_calm : Kind → Bool
is_calm calm = true
is_calm _ = false

-- The length of the run at the front.
abbrev pub run_length : (Kind → Bool) → List Kind → ℕ
run_length p [] = 0
run_length p (k ∷ ks) = let rest = run_length p ks in if p k then rest + 1 else 0

module _ {Store : Type 0} (set : AdmissionState → String → Store → Store × Bool) where
  -- A transition keeps the counts, and sets the state or leaves it.
  pub transition-counts :
      (state : AdmissionState) (reason : String) (o : Observer) (store : Store)
      → ((transition set state reason (o, store)).0.high_count ≡ o.high_count)
        × ((transition set state reason (o, store)).0.recovery_count ≡ o.recovery_count)
        × ((transition set state reason (o, store)).0.last_oom_kills ≡ o.last_oom_kills)
        × ((transition set state reason (o, store)).0.initialized ≡ o.initialized)
  unfolding transition
  transition-counts state reason o store = ground arith

abbrev pub kind_by : Bool → Bool → Bool → Bool → Bool → Kind
kind_by oom host psi hot cool =
    if oom
    then pressed
    else if host
    then pressed
    else if psi
    then pressed
    else if hot
    then high
    else if cool
    then calm
    else middle

module _ (r : Ratios) (c : Config r) where
  abbrev pub kind_of : Observer → Option (Sample r) → Kind
  kind_of o none = lost
  kind_of o (some s) =
      if unusable r c s
      then lost
      else kind_by (oom_increased r s o) (host_is_low r c s) (psi_is_high r c s)
          (usage_is_high r c s) (recovered r c s)

  module _ {Store : Type 0} (set : AdmissionState → String → Store → Store × Bool) where
    abbrev pub kinds : List (Option (Sample r)) → Observer × Store → List Kind
    kinds [] x = []
    kinds (s ∷ older) x = kind_of (observe_all r set c older x).0 s ∷ kinds older x

    abbrev Counts : Kind → Observer → Observer → Type 0
    Counts k o o' =
        (o'.high_count ≡ (if is_high k then o.high_count + 1 else 0))
        × (o'.recovery_count ≡ (if is_calm k then o.recovery_count + 1 else 0))

    transition-Counts :
        (k : Kind) (state : AdmissionState) (reason : String) (o p : Observer) (store : Store)
        → Counts k o p
        → Counts k o (transition set state reason (p, store)).0
    transition-Counts k state reason o p store (h, l) =
        let kept = transition-counts set state reason p store in (kept.0 ∙ h, kept.1 ∙ l)

    judge-Counts :
        (oom host psi hot cool first : Bool) (o : Observer) (store : Store)
        → Counts
            (kind_by oom host psi hot cool)
            o
            (judge r set c oom host psi hot cool first (o, store)).0
    judge-Counts true host psi hot cool first o store =
        transition-Counts pressed blocked oom_event o _ store (refl, refl)
    judge-Counts false true psi hot cool first o store =
        transition-Counts pressed blocked host_pressure o _ store (refl, refl)
    judge-Counts false false true hot cool first o store =
        transition-Counts pressed blocked memory_psi o _ store (refl, refl)
    judge-Counts false false false true cool first o store =
        elim (Bool-cases (leb_ℤ c.high_samples (pos (o.high_count + 1)))) [
          | inl e ↦
              rw e (transition-Counts high blocked high_watermark_reason o _ store (refl, refl))
          | inr e ↦ rw e (refl, refl)
        ]
    judge-Counts false false false false true first o store =
        elim (Bool-cases (first || leb_ℤ c.recovery_samples (pos (o.recovery_count + 1)))) [
          | inl e ↦ rw e (transition-Counts calm open_state "" o _ store (refl, refl))
          | inr e ↦ rw e (refl, refl)
        ]
    judge-Counts false false false false false first o store = (refl, refl)

    observe-Counts :
        (s : Option (Sample r)) (o : Observer) (store : Store)
        → Counts (kind_of o s) o (observe r set c s (o, store)).0
    unfolding observe
    observe-Counts none o store = (refl, refl)
    observe-Counts (some s) o store = elim (Bool-cases (unusable r c s)) [
      | inl e ↦ rw e (refl, refl)
      | inr e ↦ rw e (
          judge-Counts (oom_increased r s o) (host_is_low r c s) (psi_is_high r c s)
            (usage_is_high r c s) (recovered r c s) (not o.initialized)
            (record o { initialized = true; last_oom_kills = s.oom_kills }) store)
    ]

    -- After any observations, from a fresh observer and whatever the setter answers, the count of high
    -- samples is the length of the run of high samples at the end of the history, and the count of
    -- recovery samples that of the run of calm samples.
    pub observe_all-counts :
        (samples : List (Option (Sample r))) (store : Store)
        → ((observe_all r set c samples (fresh_observer, store)).0.high_count
            ≡ run_length is_high (kinds samples (fresh_observer, store)))
          × ((observe_all r set c samples (fresh_observer, store)).0.recovery_count
              ≡ run_length is_calm (kinds samples (fresh_observer, store)))
    unfolding observe_all
    observe_all-counts [] store = (refl, refl)
    observe_all-counts (s ∷ older) store =
        let x = observe_all r set c older (fresh_observer, store) in
        let (h, l) = observe_all-counts older store in
        let (h', l') = observe-Counts s x.0 x.1 in (rw (sym h) h', rw (sym l) l')
