-- ===== src/Protection/Counts.antt =====
-- Unprotecting undoes protecting.
use fast_sandbox.Base.{
  ℕ, zero, suc, ◌≢◌, Option, none, some, ◌+◌, ◌-◌, ◌≡◌, refl, sym, ap, ◌∙◌, not, ◌&&◌, inl, inr,
  Bool, true, false, [], ◌∷◌, String, Dict, lookup, insert, remove, lookup-insert,
  lookup-insert_self, lookup-remove, ltb, ◌==◌, text_equality, if◌then◌else◌, Bool-cases, eq_iff,
  arith,
}
use fast_sandbox.ImageCache.{normalize_reference}
use fast_sandbox.Protection.{
  Protection, Index, item_of, item_or_new, count_or_zero, increment, decrement, delete_empty,
  is_empty, unprotect_item, protect, unprotect,
}

both : (p q : Bool) → (p && q) ≡ true → p ≡ true
both p q e = ground arith

-- How often a name is protected for a reason.
abbrev pub count : String → String → Index → ℕ
count name reason items = count_or_zero (lookup reason (item_or_new (lookup name items)).counts)

-- What is stored for a name and a reason, none where there is no count.
abbrev pub entry : String → String → Index → Option ℕ
entry name reason items = lookup reason (item_or_new (lookup name items)).counts

increment-count :
    (k : String) (d : Dict ℕ)
    → count_or_zero (lookup k (increment k d)) ≡ count_or_zero (lookup k d) + 1
unfolding increment
increment-count k d = rw (lookup-insert_self k (count_or_zero (lookup k d) + 1) d) refl

decrement-lookup :
    (k j : String) (n : ℕ) (d : Dict ℕ)
    → lookup k d ≡ some n
    → lookup j (decrement k d)
      ≡ (if k == j then (if ltb 1 n then some (n - 1) else none) else lookup j d)
unfolding decrement
decrement-lookup k j n d e = elim (Bool-cases (ltb 1 n)) [
  | inl more ↦ rw (e, more) (lookup-insert k j (n - 1) d)
  | inr last ↦ rw (e, last) (lookup-remove k j d)
]

-- A stored count of zero would be lost.
restored :
    (o : Option ℕ)
    → o ≢ some 0
    → (if ltb 1 (count_or_zero o + 1) then some (count_or_zero o + 1 - 1) else none) ≡ o
restored none positive = refl
restored (some zero) positive = absurd (positive refl)
restored (some (suc n)) positive =
    let more : ltb 1 (suc n + 1) ≡ true = ground arith in rw more (ap some (omega arith))

decrement-increment :
    (k j : String) (d : Dict ℕ)
    → lookup k d ≢ some 0
    → lookup j (decrement k (increment k d)) ≡ lookup j d
unfolding increment
decrement-increment k j d positive =
    let n = count_or_zero (lookup k d) + 1 in
    decrement-lookup k j n (increment k d) (lookup-insert_self k n d) ∙ elim (Bool-cases (k == j)) [
      | inl e ↦ rw e (restored (lookup k d) positive ∙ ap (λ x. lookup x d) ((eq_iff k j).0 e))
      | inr e ↦ rw e (lookup-insert k j n d ∙ rw e refl)
    ]

empty-lookup : (d : Dict ℕ) (j : String) → is_empty d ≡ true → lookup j d ≡ none
unfolding lookup
empty-lookup [] j e = refl
empty-lookup (x ∷ d) j e = absurd (cc e)

inserted-entry :
    (name other reason : String) (item : Protection) (items : Index)
    → entry other reason (insert name item items)
      ≡ (if name == other then lookup reason item.counts else entry other reason items)
inserted-entry name other reason item items =
    rw (lookup-insert name other item items)
      (elim (Bool-cases (name == other)) [ inl e ↦ rw e refl | inr e ↦ rw e refl ])

removed-entry :
    (name other reason : String) (items : Index)
    → entry other reason (remove name items)
      ≡ (if name == other then none else entry other reason items)
unfolding lookup
removed-entry name other reason items =
    rw (lookup-remove name other items)
      (elim (Bool-cases (name == other)) [ inl e ↦ rw e refl | inr e ↦ rw e refl ])

delete_empty-entry :
    (now : ℕ) (name other reason : String) (item : Protection) (items : Index)
    → entry other reason (delete_empty now name item items)
      ≡ (if name == other then lookup reason item.counts else entry other reason items)
unfolding delete_empty
delete_empty-entry now name other reason item items =
    elim (Bool-cases (is_empty item.counts && not (ltb now item.hot_until))) [
      | inr e ↦ rw e (inserted-entry name other reason item items)
      | inl e ↦ rw e (
          removed-entry name other reason items
          ∙ ap (λ o. if name == other then o else entry other reason items)
              (sym (empty-lookup item.counts reason (both (is_empty item.counts) _ e))))
    ]

abbrev with_one : String → String → Index → Index
with_one name reason items =
    insert name
      (record (item_of name items) { counts = increment reason (item_of name items).counts }) items

with_one-count :
    (name reason : String) (items : Index)
    → count name reason (with_one name reason items) ≡ count name reason items + 1
unfolding item_of
with_one-count name reason items =
    let item = item_of name items in
    rw (lookup-insert_self name (record item { counts = increment reason item.counts }) items)
      (increment-count reason item.counts)

undone :
    (now : ℕ) (name reason o r : String) (items : Index)
    → entry name reason items ≢ some 0
    → entry o r (
        unprotect_item now name reason
          (lookup name (with_one name reason items))
          (with_one name reason items))
      ≡ entry o r items
unfolding item_of
undone now name reason o r items positive =
    let item = item_of name items in
    let more : Protection = record item { counts = increment reason item.counts } in
    let less : Protection = record item { counts = decrement reason more.counts } in
    rw (lookup-insert_self name more items) (
      delete_empty-entry now name o r less (insert name more items)
      ∙ elim (Bool-cases (name == o)) [
        | inl e ↦
            rw (e, sym ((eq_iff name o).0 e)) (decrement-increment reason r item.counts positive)
        | inr e ↦ rw e (inserted-entry name o r more items ∙ rw e refl)
      ])

protect-with_one :
    (clean : String → String) (reference reason : String) (items : Index)
    → (normalize_reference clean reference == "") ≡ false
    → protect clean reference reason items
      ≡ with_one (normalize_reference clean reference) reason items
unfolding protect
protect-with_one clean reference reason items named = rw named refl

-- Protecting a non-empty reference adds one protection of its name for the reason. Unless a count of zero
-- is stored for them, unprotecting it once for that reason then restores what is stored for every name and
-- reason, so that where no count was stored none is left.
pub unprotect-protect :
    (clean : String → String) (now : ℕ) (reference reason other_name other_reason : String)
    (items : Index)
    → (normalize_reference clean reference == "") ≡ false
    → entry (normalize_reference clean reference) reason items ≢ some 0
    → (count (normalize_reference clean reference) reason (protect clean reference reason items)
        ≡ count (normalize_reference clean reference) reason items + 1)
      × (entry other_name other_reason
            (unprotect clean now reference reason (protect clean reference reason items))
          ≡ entry other_name other_reason items)
unfolding unprotect
unprotect-protect clean now reference reason other_name other_reason items named positive =
    let name = normalize_reference clean reference in
    let same : protect clean reference reason items ≡ with_one name reason items =
      protect-with_one clean reference reason items named in
    rw same (
      with_one-count name reason items,
      undone now name reason other_name other_reason items positive,
    )
