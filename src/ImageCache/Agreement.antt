-- ===== src/ImageCache/Agreement.antt =====
-- A registry that polls with its own cursor has the tracker's inventory.
use Prim.Native.Nat.{◌%◌, ◌^◌}
use fast_sandbox.Base.{
  ℕ, ◌≡◌, ◌≢◌, refl, ◌⊎◌, inl, inr, Bool, true, false, not, ◌||◌, some, List, [], ◌∷◌, String,
  Bool-cases, length, leb, arith, sym, ap, ◌∙◌, ◌==◌, nat_equality, text_equality, eq_iff, ◌+◌,
  ==_refl,
}
use fast_sandbox.Placement.Quantity.{Quantities}
use fast_sandbox.Placement.Types.{FastletInfo}
use fast_sandbox.Placement.Heartbeat.{apply_cache}
use fast_sandbox.ImageCache.{
  Cursor, Tracker, snapshot, snapshot_of, take_inventory, normalize_inventory, bounded,
  equal_strings, needs_full,
}

next_differs : (r : ℕ) → r ≢ (r + 1) % 2 ^ 64
next_differs r e = absurd (omega (arith, e))

take_inventory-cases :
    (images : List String) (t : Tracker)
    → (take_inventory images t ≡ t)
      ⊎ (((take_inventory images t).epoch ≡ t.epoch)
          × ((take_inventory images t).revision ≡ (t.revision + 1) % 2 ^ 64))
unfolding take_inventory
take_inventory-cases images t =
    elim (Bool-cases (not t.initialized || not (equal_strings t.inventory images))) [
      | inl e ↦ inr (rw e (refl, refl))
      | inr e ↦ inl (rw e refl)
    ]

module _ (q : Quantities) (clean : String → String) where
  open q use {Quantity}

  abbrev Info : Type 0
  Info = FastletInfo Quantity

  abbrev cursor_of : Info → Cursor
  cursor_of i = record { epoch = i.cache_epoch; revision = i.cache_revision; force_full = false }

  -- The registry knows that its inventory is not current, or has the tracker's.
  abbrev pub Current : Tracker → Info → Type 0
  Current t i = (i.cache_complete ≡ false) ⊎ (i.images ≡ normalize_inventory clean t.inventory)

  abbrev pub Agrees : Tracker → Info → Type 0
  Agrees t i = (i.cache_epoch ≡ t.epoch) × (i.cache_revision ≡ t.revision) × Current t i

  full-Agrees :
      (c : Cursor) (complete : Bool) (t : Tracker) (i : Info)
      → needs_full c t ≡ true
      → Agrees t (apply_cache q (normalize_inventory clean) (snapshot_of c complete t) i)
  unfolding apply_cache snapshot_of
  full-Agrees c true t i e = rw e (refl, refl, inr refl)
  full-Agrees c false t i e = rw e (refl, refl, inl refl)

  known-epoch :
      (t : Tracker) (i : Info)
      → needs_full (cursor_of i) t ≡ false
      → (i.cache_epoch ≡ t.epoch) × (i.cache_revision ≡ t.revision)
  known-epoch t i e = ground (arith, eq_iff i.cache_epoch t.epoch)

  -- A snapshot that repeats what the registry knows changes nothing of it.
  repeated-Agrees :
      (complete : Bool) (t : Tracker) (i : Info)
      → needs_full (cursor_of i) t ≡ false
      → Current t i
      → Agrees t
          (apply_cache q (normalize_inventory clean) (snapshot_of (cursor_of i) complete t) i)
  unfolding apply_cache snapshot_of
  repeated-Agrees complete t i e current =
      let (epoch, revision) = known-epoch t i e in
      let same : (not (t.epoch == i.cache_epoch) || not (t.revision == i.cache_revision)) ≡ false =
        rw (epoch, revision, ==_refl t.epoch, ==_refl t.revision) refl in
      rw (e, same) (refl, refl, current)

  -- The registry has not heard of this tracker, or agrees with it.
  abbrev pub Starts : Tracker → Info → Type 0
  Starts t i = (i.cache_epoch ≢ t.epoch) ⊎ Agrees t i

  still-Current :
      (images : List String) (t : Tracker) (i : Info)
      → Starts t i
      → needs_full (cursor_of i) (take_inventory images t) ≡ false
      → Current (take_inventory images t) i
  still-Current images t i start e =
      let (epoch, revision) = known-epoch (take_inventory images t) i e in
      elim (take_inventory-cases images t) [
        | inl same ↦ elim start [
          | inl other ↦ absurd (other (epoch ∙ ap (λ u. u.epoch) same))
          | inr (_, _, current) ↦ rw same current
        ]
        | inr (epoch', next) ↦ elim start [
          | inl other ↦ absurd (other (epoch ∙ epoch'))
          | inr (_, old, _) ↦ absurd (next_differs t.revision (sym old ∙ revision ∙ next))
        ]
      ]

  -- One heartbeat: the tracker's answer to the registry's cursor, applied to the entry.
  unfoldable pub poll : List String → Tracker × Info → Tracker × Info
  unfolding snapshot apply_cache
  poll listing (t, i) =
      let (u, s, failed) = snapshot clean (cursor_of i) (some listing) t in
      (u, apply_cache q (normalize_inventory clean) s i)

  unfoldable pub polls : List (List String) → Tracker × Info → Tracker × Info
  unfolding poll
  polls [] x = x
  polls (listing ∷ rest) x = polls rest (poll listing x)

  poll-Agrees :
      (listing : List String) (t : Tracker) (i : Info)
      → Starts t i
      → Agrees (poll listing (t, i)).0 (poll listing (t, i)).1
  unfolding poll snapshot
  poll-Agrees listing t i start =
      let images = normalize_inventory clean listing in
      let u = take_inventory (bounded t.max_inventory images) t in
      let complete = leb (length images) t.max_inventory in
      elim (Bool-cases (needs_full (cursor_of i) u)) [
        | inl e ↦ full-Agrees (cursor_of i) complete u i e
        | inr e ↦
            repeated-Agrees complete u i e
              (still-Current (bounded t.max_inventory images) t i start e)
      ]

  -- A registry entry that had not heard of the tracker's epoch, or agreed with the tracker, agrees with
  -- it after each sequence of one or more successful polls: it has the tracker's epoch and revision, and
  -- either knows its images to be incomplete or has the tracker's inventory, normalized.
  pub polls-Agrees :
      (listing : List String) (listings : List (List String)) (t : Tracker) (i : Info)
      → Starts t i
      → Agrees (polls (listing ∷ listings) (t, i)).0 (polls (listing ∷ listings) (t, i)).1
  unfolding polls
  polls-Agrees listing [] t i start = poll-Agrees listing t i start
  polls-Agrees listing (next ∷ rest) t i start =
      polls-Agrees next rest (poll listing (t, i)).0 (poll listing (t, i)).1
        (inr (poll-Agrees listing t i start))
