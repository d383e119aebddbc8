-- ===== src/PoolSizing/Scaling/Stabilizing.antt =====
-- When a pool with resource admission shrinks.
use fast_sandbox.Base.{
  ◌≡◌, ◌⊎◌, ℕ, ◌*◌, ◌/◌, Bool, true, false, Option, none, some, List, [], ◌∷◌, if◌then◌else◌, ltb,
  ℤ, leb_ℤ,
}
use fast_sandbox.PoolSizing.Scaling.{
  ScaleDownCondition, stabilize_scale_down, default_stabilization,
}

-- A reconciliation: its time, the Pods without those that drain, the Pods that the plan wants, and whether
-- it came to store its condition: one that fails before, or returns early to add a Pod for an upgrade, does
-- not.
pub record Round : Type 0 where
  pub now : ℕ
  pub current : ℤ
  pub desired : ℤ
  pub is_stored : Bool

-- A stored time is in whole seconds.
abbrev pub whole_seconds : ℕ → ℕ
whole_seconds t = t / 1000000000 * 1000000000

abbrev pub as_stored : ScaleDownCondition → ScaleDownCondition
as_stored c = record c { since = whole_seconds c.since }

abbrev pub window_of : ℕ → ℕ
window_of window = if ltb 0 window then window else default_stabilization

module _ (window : ℕ) where
  -- The stored condition after some rounds, the latest first, on a pool that had none.
  unfoldable pub condition_after : List Round → Option ScaleDownCondition
  condition_after [] = none
  condition_after (r ∷ older) =
      let c = condition_after older in
      if r.is_stored
      then some (as_stored (stabilize_scale_down window r.now r.current r.desired c).1)
      else c

  -- What the latest round settles on.
  abbrev pub settled : Round → List Round → ℤ
  settled r older =
      (stabilize_scale_down window r.now r.current r.desired (condition_after older)).0

  -- One of the rounds that stored their condition was at the time, in whole seconds, and it and all later
  -- ones that did wanted fewer Pods.
  abbrev pub WantsFewerSince : ℕ → List Round → Type 0
  WantsFewerSince t [] = ⊥
  WantsFewerSince t (r ∷ older) =
      ((r.is_stored ≡ false) × WantsFewerSince t older)
      ⊎ ((r.is_stored ≡ true)
          × (leb_ℤ r.current r.desired ≡ false)
          × ((whole_seconds r.now ≡ t) ⊎ WantsFewerSince t older))

  -- What a stored condition says of the rounds before it.
  abbrev Explained : List Round → Option ScaleDownCondition → Type 0
  Explained rs none = Unit {0}
  Explained rs (some c) =
      (c.holds ≡ false) ⊎ ((whole_seconds c.since ≡ c.since) × WantsFewerSince c.since rs)
