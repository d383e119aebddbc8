-- ===== src/Protection/Eviction.antt =====
-- The plan of an eviction against a plain description of it.

use fast_sandbox.Base.{
  ℕ, ◌≡◌, refl, ap, ◌∙◌, inl, inr, ◌≤◌, List, [], ◌∷◌, All, String, lookup, text_equality,
  if◌then◌else◌, Bool-cases,
}
use fast_sandbox.Protection.Effects.{
  view, holds, ReadBefore, AllClose, settled, settled-Close_left, held-Close, Close-later, same-At,
  check_item-At, check_item-holds, At-Close, changed-Close,
}
use fast_sandbox.ImageCache.{normalize_reference}
use fast_sandbox.Protection.{
  Index, is_protected, Turn, changed, eligible_images, plan_eviction, sort_strings,
}

-- The names of the candidates that are not protected at their turns, in an index that the others alone
-- change.
unfoldable pub evictable : (String → String) → List Turn → Index → List String
evictable clean [] items = []
evictable clean (t ∷ rest) items =
    let here = changed clean t.changes items in
    let names = evictable clean rest here in
    let name = normalize_reference clean t.candidate in
    if holds t.now name here then names else name ∷ names

-- The clock does not go back.
abbrev pub InTime : ℕ → List Turn → Type 0
InTime now [] = Unit {0}
InTime now (t ∷ rest) = (now ≤ t.now) × All (ReadBefore t.now) t.changes × InTime t.now rest

module _ (clean : String → String) where
  eligible_images-evictable :
      (now : ℕ) (turns : List Turn) (a b : Index)
      → InTime now turns
      → AllClose now a b
      → (eligible_images clean turns a).0 ≡ evictable clean turns b
  unfolding eligible_images evictable is_protected
  eligible_images-evictable now [] a b timely all = refl
  eligible_images-evictable now (t ∷ rest) a b (later, past, timely) all =
      let name = normalize_reference clean t.candidate in
      let a' = changed clean t.changes a in
      let b' = changed clean t.changes b in
      let here : AllClose t.now a' b' =
        changed-Close clean t.now t.changes a b past
          (λ other. Close-later now t.now (view a other) (view b other) later (all other)) in
      let left : AllClose t.now (is_protected clean t.now t.candidate a').1 b' =
        At-Close clean t.now name (settled t.now) (λ x. x) a' b' _ _
          (check_item-At t.now name a' (lookup name a') refl) (same-At name b')
          (settled-Close_left t.now _ _ (here name)) here in
      let verdict : (is_protected clean t.now t.candidate a').0 ≡ holds t.now name b' =
        check_item-holds t.now name a' (lookup name a') refl
        ∙ held-Close t.now (view a' name) (view b' name) (here name) in
      let names =
        eligible_images-evictable t.now rest (is_protected clean t.now t.candidate a').1 b' timely
          left in
      elim (Bool-cases (holds t.now name b')) [
        | inl e ↦ rw (verdict ∙ e, e) names
        | inr e ↦ rw (verdict ∙ e, e) (ap (λ xs. name ∷ xs) names)
      ]

  -- The plan looks at one candidate after the other, while others protect, unprotect, keep hot and check
  -- images in between. If the clock does not go back, it lists, in order, the names of exactly those
  -- candidates that are not protected at their turns; the stale items that it deletes on the way change
  -- no verdict.
  pub plan_eviction-evictable :
      (now : ℕ) (turns : List Turn) (items : Index)
      → InTime now turns
      → (plan_eviction clean turns items).0 ≡ sort_strings (evictable clean turns items)
  unfolding plan_eviction
  plan_eviction-evictable now turns items timely =
      ap sort_strings
        (eligible_images-evictable now turns items items timely (λ other. (refl, inl refl)))
