-- ===== src/Assignment/Swap.antt =====
-- The writes of the assignment are atomic: each replaces what it was meant to replace, at the moment of
-- the write.
use fast_sandbox.Base.{
  ◌≡◌, refl, sym, ap, ◌∙◌, Bool, true, false, not, Option, none, some, String, Dict, insert, arith,
}
use fast_sandbox.Assignment.{
  AssignmentEnvelope, SandboxObject, AssignmentError, Codec, Result, ok, failed,
  annotation_assignment, assignment_from_annotation, validate_status_projection,
}
use fast_sandbox.Assignment.Annotations.{assignment_envelope_equal_sound}
use fast_sandbox.Assignment.Writes.{
  PatchResult, patched, conflicted, patch_error, ApiServer, ServerLaws, SameElsewhere, switched,
  after_patch, attempt_projected, attempt_fenced, attempt_live, differs, attempt_parsed,
  attempt_read,
}

not-false : (b : Bool) → not b ≡ false → b ≡ true
not-false b e = ground arith

module _ (codec : Codec) (s : ApiServer) (laws : ServerLaws s) where
  open s use {World, get, patch}

  -- At `v`, which others' writes left, the stored object is `o`, and the write leaves one at `final` that
  -- differs in nothing but the changed annotations and the version.
  abbrev pub Written : (Dict String → Dict String) → SandboxObject → World → World → Type 0
  Written change o v final =
      (get v ≡ some o)
      × ((p : SandboxObject) × (get final ≡ some p)
          × (p.annotations ≡ change o.annotations)
          × SameElsewhere o p)

  pub patch-Written :
      (o : SandboxObject) (test : Option String) (change : Dict String → Dict String)
      (w v final : World)
      → get w ≡ some o
      → laws.Later w v
      → patch o.resource_version test change v ≡ (patched, final)
      → Written change o v final
  patch-Written o test change w v final read later done =
      let (o', found, version) = laws.patched-version o.resource_version test change v final done in
      let same : o ≡ o' = laws.get-later w v o o' later read found version in
      let current : get v ≡ some o = found ∙ ap some (sym same) in
      (current, laws.patched-change o.resource_version test change v final o done current)

  -- The object that an attempt may replace.
  abbrev pub Replaceable : AssignmentEnvelope → SandboxObject → Type 0
  Replaceable expected o =
      (o.deleting ≡ false)
      × (assignment_from_annotation codec o ≡ ok (some expected))
      × (validate_status_projection o (some expected) ≡ none)

  -- An attempt that writes at `v` the value `value`.
  abbrev pub Switch : AssignmentEnvelope → String → World → World → Type 0
  Switch expected value v final =
      (o : SandboxObject) × Replaceable expected o
      × Written (insert annotation_assignment value) o v final

  after_patch-switched :
      (x : PatchResult × World) (final : World)
      → after_patch codec s x ≡ (switched, final)
      → x ≡ (patched, final)
  after_patch-switched (patched, w) final e = ap (λ x. (patched, x.1)) e
  after_patch-switched (conflicted, w) final e = absurd (cc e)
  after_patch-switched (patch_error m, w) final e = absurd (cc e)

  projected-Switch :
      (between : World → World) (o : SandboxObject) (expected : AssignmentEnvelope) (value : String)
      (envelope : Option AssignmentEnvelope) (error : Option AssignmentError) (w final : World)
      → get w ≡ some o
      → laws.Later w (between w)
      → o.deleting ≡ false
      → assignment_from_annotation codec o ≡ ok envelope
      → differs codec s expected envelope ≡ false
      → validate_status_projection o envelope ≡ error
      → attempt_projected codec s between o value envelope error w ≡ (switched, final)
      → Switch expected value (between w) final
  projected-Switch between o expected value envelope (some e) w final read later live parsed same
        valid done =
      absurd (cc done)
  projected-Switch between o expected value none none w final read later live parsed same valid
        done =
      absurd (cc done)
  projected-Switch between o expected value (some e) none w final read later live parsed same valid
        done =
      let path : e ≡ expected = assignment_envelope_equal_sound e expected (not-false _ same) in
      let wrote =
        patch-Written o none (insert annotation_assignment value) w (between w) final read later
          (after_patch-switched _ final done) in
      (
        o,
        (
          live,
          parsed ∙ ap (λ x. ok (some x)) path,
          ap (λ x. validate_status_projection o (some x)) (sym path) ∙ valid,
        ),
        wrote,
      )

  fenced-Switch :
      (b : Bool) (between : World → World) (o : SandboxObject) (expected : AssignmentEnvelope)
      (value : String) (envelope : Option AssignmentEnvelope) (w final : World)
      → get w ≡ some o
      → laws.Later w (between w)
      → o.deleting ≡ false
      → assignment_from_annotation codec o ≡ ok envelope
      → differs codec s expected envelope ≡ b
      → attempt_fenced codec s b between o value envelope w ≡ (switched, final)
      → Switch expected value (between w) final
  fenced-Switch true between o expected value envelope w final read later live parsed same done =
      absurd (cc done)
  fenced-Switch false between o expected value envelope w final read later live parsed same done =
      projected-Switch between o expected value envelope _ w final read later live parsed same refl
        done

  parsed-Switch :
      (between : World → World) (o : SandboxObject) (expected : AssignmentEnvelope) (value : String)
      (found : Result (Option AssignmentEnvelope)) (w final : World)
      → get w ≡ some o
      → laws.Later w (between w)
      → o.deleting ≡ false
      → assignment_from_annotation codec o ≡ found
      → attempt_parsed codec s between o expected value found w ≡ (switched, final)
      → Switch expected value (between w) final
  parsed-Switch between o expected value (failed e) w final read later live parsed done =
      absurd (cc done)
  parsed-Switch between o expected value (ok envelope) w final read later live parsed done =
      fenced-Switch _ between o expected value envelope w final read later live parsed refl done

  live-Switch :
      (b : Bool) (between : World → World) (o : SandboxObject) (expected : AssignmentEnvelope)
      (value : String) (w final : World)
      → get w ≡ some o
      → laws.Later w (between w)
      → o.deleting ≡ b
      → attempt_live codec s b between o expected value w ≡ (switched, final)
      → Switch expected value (between w) final
  live-Switch true between o expected value w final read later live done = absurd (cc done)
  live-Switch false between o expected value w final read later live done =
      parsed-Switch between o expected value _ w final read later live refl done

  pub read-Switch :
      (found : Option SandboxObject) (between : World → World) (expected : AssignmentEnvelope)
      (value : String) (w final : World)
      → get w ≡ found
      → laws.Later w (between w)
      → attempt_read codec s between expected value found w ≡ (switched, final)
      → Switch expected value (between w) final
  read-Switch none between expected value w final read later done = absurd (cc done)
  read-Switch (some o) between expected value w final read later done =
      live-Switch o.deleting between o expected value w final read later refl done
