-- ===== src/Protection/Effects.antt =====
-- What the calls do to the verdicts on cached images.
use std.Path.{subst}
use fast_sandbox.Base.{
  ℕ, ◌≡◌, refl, sym, ap, ◌∙◌, ◌⊎◌, inl, inr, ◌≤◌, Bool, true, false, not, ◌&&◌, Option, none, some,
  List, [], ◌∷◌, All, String, lookup, lookup-insert, lookup-remove, insert, remove, ◌==◌,
  text_equality, eq_iff, if◌then◌else◌, ltb, Bool-cases, arith, Dict,
}
use fast_sandbox.ImageCache.{normalize_reference}
use fast_sandbox.Protection.{
  Protection, Index, no_protection, item_or_new, is_empty, is_held, check_item, is_protected,
  increment, decrement, delete_empty, unprotect_item, protect, unprotect, protect_hot_until,
  item_of, Change, protects, unprotects, keeps_hot, checks, change, changed,
}

-- What the index says of a name; a missing item says nothing.
abbrev pub view : Index → String → Protection
view items name = item_or_new (lookup name items)

-- Whether a name is protected at a time.
abbrev pub holds : ℕ → String → Index → Bool
holds now name items = is_held now (view items name)

abbrev pub ReadBefore : ℕ → Change → Type 0
ReadBefore now (protects reference reason) = Unit
ReadBefore now (unprotects at reference reason) = at ≤ now
ReadBefore now (keeps_hot reference until) = Unit
ReadBefore now (checks at reference) = at ≤ now

-- Two items that give the same verdicts from a time on.
abbrev pub Close : ℕ → Protection → Protection → Type 0
Close now x y =
    (x.counts ≡ y.counts)
    × ((x.hot_until ≡ y.hot_until) ⊎ ((x.hot_until ≤ now) × (y.hot_until ≤ now)))

abbrev pub AllClose : ℕ → Index → Index → Type 0
AllClose now a b = (name : String) → Close now (view a name) (view b name)

-- An item is dropped when it is not held.
abbrev pub settled : ℕ → Protection → Protection
settled at x = if is_empty x.counts && not (ltb at x.hot_until) then no_protection else x

is_empty_lem : (d : Dict ℕ) → is_empty d ≡ true → d ≡ []
is_empty_lem [] e = refl
is_empty_lem (x ∷ d) e = absurd (cc e)

settled-counts : (at : ℕ) (x : Protection) → (settled at x).counts ≡ x.counts
settled-counts at x = elim (Bool-cases (is_empty x.counts && not (ltb at x.hot_until))) [
  | inl e ↦ rw e (sym (is_empty_lem x.counts (ground arith)))
  | inr e ↦ rw e refl
]

settled-Close :
    (at now : ℕ) (x y : Protection)
    → at ≤ now
    → Close now x y
    → Close now (settled at x) (settled at y)
settled-Close at now x y past (same, hot) =
    (settled-counts at x ∙ same ∙ sym (settled-counts at y), ground (arith, ap is_empty same))

pub settled-Close_left : (now : ℕ) (x y : Protection) → Close now x y → Close now (settled now x) y
settled-Close_left now x y (same, hot) =
    (settled-counts now x ∙ same, ground (arith, ap is_empty same))

pub held-Close : (now : ℕ) (x y : Protection) → Close now x y → is_held now x ≡ is_held now y
held-Close now x y (same, hot) = ground (arith, ap is_empty same)

pub Close-later : (now later : ℕ) (x y : Protection) → now ≤ later → Close now x y → Close later x y
Close-later now later x y past (same, hot) = (same, ground arith)

-- What a call does to the items, seen by name.
abbrev pub At : String → (Protection → Protection) → Index → Index → Type 0
At name f items result =
    (other : String)
    → view result other ≡ (if name == other then f (view items name) else view items other)

insert-At :
    (name : String) (f : Protection → Protection) (items : Index)
    → At name f items (insert name (f (view items name)) items)
insert-At name f items other =
    rw (lookup-insert name other (f (view items name)) items)
      (elim (Bool-cases (name == other)) [ inl e ↦ rw e refl | inr e ↦ rw e refl ])

remove-At : (name : String) (items : Index) → At name (λ x. no_protection) items (remove name items)
remove-At name items other =
    rw (lookup-remove name other items)
      (elim (Bool-cases (name == other)) [ inl e ↦ rw e refl | inr e ↦ rw e refl ])

pub same-At : (name : String) (items : Index) → At name (λ x. x) items items
same-At name items other = elim (Bool-cases (name == other)) [
  | inl e ↦ rw e (ap (view items) (sym ((eq_iff name other).0 e)))
  | inr e ↦ rw e refl
]

-- Two effects that agree on the item have the same results.
At-eq :
    (name : String) (f g : Protection → Protection) (items result : Index)
    → At name f items result
    → f (view items name) ≡ g (view items name)
    → At name g items result
At-eq name f g items result h e other =
    h other ∙ ap (λ x. if name == other then x else view items other) e

settled-dropped :
    (at : ℕ) (x : Protection)
    → (is_empty x.counts && not (ltb at x.hot_until)) ≡ true
    → no_protection ≡ settled at x
settled-dropped at x e = rw e refl

settled-kept :
    (at : ℕ) (x : Protection)
    → (is_empty x.counts && not (ltb at x.hot_until)) ≡ false
    → x ≡ settled at x
settled-kept at x e = rw e refl

settled-none : (at : ℕ) → no_protection ≡ settled at no_protection
settled-none at = elim (Bool-cases (not (ltb at 0))) [ inl e ↦ rw e refl | inr e ↦ rw e refl ]

-- What a call does to the item of its name.
abbrev pub effect : String → Change → Protection → Protection
effect name (protects reference reason) x =
    if name == "" then x else record x { counts = increment reason x.counts }
effect name (unprotects at reference reason) x =
    settled at (record x { counts = decrement reason x.counts })
effect name (keeps_hot reference until) x =
    if name == ""
    then x
    else record x { hot_until = if ltb x.hot_until until then until else x.hot_until }
effect name (checks at reference) x = settled at x

abbrev pub reference_of : Change → String
reference_of (protects reference reason) = reference
reference_of (unprotects at reference reason) = reference
reference_of (keeps_hot reference until) = reference
reference_of (checks at reference) = reference

delete_empty-At :
    (at : ℕ) (name : String) (x : Protection) (items : Index)
    → At name (λ y. settled at x) items (delete_empty at name x items)
unfolding delete_empty
delete_empty-At at name x items =
    elim (Bool-cases (is_empty x.counts && not (ltb at x.hot_until))) [
      | inl e ↦ rw e (remove-At name items)
      | inr e ↦ rw e (insert-At name (λ y. x) items)
    ]

unprotect_item-At :
    (at : ℕ) (name reference reason : String) (items : Index) (o : Option Protection)
    → lookup name items ≡ o
    → At name
        (effect name (unprotects at reference reason))
        items
        (unprotect_item at name reason o items)
unfolding decrement remove lookup
unprotect_item-At at name reference reason items none e =
    At-eq name (λ x. x) (effect name (unprotects at reference reason)) items items
      (same-At name items) (rw e (settled-none at))
unprotect_item-At at name reference reason items (some item) e =
    At-eq name (λ y. settled at (record item { counts = decrement reason item.counts }))
      (effect name (unprotects at reference reason)) items _
      (delete_empty-At at name (record item { counts = decrement reason item.counts }) items)
      (rw e refl)

pub check_item-At :
    (at : ℕ) (name : String) (items : Index) (o : Option Protection)
    → lookup name items ≡ o
    → At name (settled at) items (check_item at name o items).1
check_item-At at name items none e =
    At-eq name (λ x. x) (settled at) items items (same-At name items) (rw e (settled-none at))
check_item-At at name items (some item) e = elim (Bool-cases (is_held at item)) [
  | inl h ↦ rw h (
      At-eq name (λ x. x) (settled at) items items (same-At name items)
        (rw e (settled-kept at item (ground arith))))
  | inr h ↦ rw h (
      At-eq name (λ x. no_protection) (settled at) items (remove name items) (remove-At name items)
        (rw e (settled-dropped at item (ground arith))))
]

pub check_item-holds :
    (at : ℕ) (name : String) (items : Index) (o : Option Protection)
    → lookup name items ≡ o
    → (check_item at name o items).0 ≡ holds at name items
check_item-holds at name items none e = rw e (ground arith)
check_item-holds at name items (some item) e = rw e (ground arith)

module _ (clean : String → String) where
  change-At :
      (c : Change) (items : Index)
      → let name = normalize_reference clean (reference_of c) in
        At name (effect name c) items (change clean c items)
  unfolding change protect unprotect protect_hot_until is_protected item_of
  change-At (protects reference reason) items =
      let name = normalize_reference clean reference in
      elim (Bool-cases (name == "")) [
        | inl e ↦ rw e (same-At name items)
        | inr e ↦ rw e (insert-At name (λ x. record x { counts = increment reason x.counts }) items)
      ]
  change-At (unprotects at reference reason) items =
      let name = normalize_reference clean reference in
      unprotect_item-At at name reference reason items (lookup name items) refl
  change-At (keeps_hot reference until) items =
      let name = normalize_reference clean reference in
      elim (Bool-cases (name == "")) [
        | inl e ↦ rw e (same-At name items)
        | inr e ↦ elim (Bool-cases (ltb (view items name).hot_until until)) [
          | inl later ↦ rw (e, later) (insert-At name (λ x. record x { hot_until = until }) items)
          | inr sooner ↦ rw (e, sooner) (insert-At name (λ x. x) items)
        ]
      ]
  change-At (checks at reference) items =
      let name = normalize_reference clean reference in
      check_item-At at name items (lookup name items) refl

  effect-Close :
      (now : ℕ) (name : String) (c : Change) (x y : Protection)
      → ReadBefore now c
      → Close now x y
      → Close now (effect name c x) (effect name c y)
  effect-Close now name (protects reference reason) x y past (same, hot) =
      elim (Bool-cases (name == "")) [
        | inl e ↦ rw e (same, hot)
        | inr e ↦ rw e (ap (increment reason) same, hot)
      ]
  effect-Close now name (unprotects at reference reason) x y past (same, hot) =
      settled-Close at now _ _ past (ap (decrement reason) same, hot)
  effect-Close now name (keeps_hot reference until) x y past (same, hot) =
      elim (Bool-cases (name == "")) [
        | inl e ↦ rw e (same, hot)
        | inr e ↦ rw e (same, ground arith)
      ]
  effect-Close now name (checks at reference) x y past close = settled-Close at now x y past close

  pub At-Close :
      (now : ℕ) (name : String) (f g : Protection → Protection) (a b a' b' : Index)
      → At name f a a'
      → At name g b b'
      → Close now (f (view a name)) (g (view b name))
      → AllClose now a b
      → AllClose now a' b'
  At-Close now name f g a b a' b' first second close all other =
      subst (λ x. Close now x (view b' other)) (sym (first other))
        (subst (λ y. Close now (if name == other then f (view a name) else view a other) y)
          (sym (second other))
          (elim (Bool-cases (name == other)) [ inl e ↦ rw e close | inr e ↦ rw e (all other) ]))

  pub changed-Close :
      (now : ℕ) (changes : List Change) (a b : Index)
      → All (ReadBefore now) changes
      → AllClose now a b
      → AllClose now (changed clean changes a) (changed clean changes b)
  unfolding changed
  changed-Close now [] a b past all = all
  changed-Close now (c ∷ rest) a b (early, past) all =
      let name = normalize_reference clean (reference_of c) in
      changed-Close now rest (change clean c a) (change clean c b) past (
        At-Close now name (effect name c) (effect name c) a b _ _ (change-At c a) (change-At c b)
          (effect-Close now name c _ _ early (all name)) all)
