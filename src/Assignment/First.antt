-- ===== src/Assignment/First.antt =====
-- The first assignment of a Sandbox, and its removal.
use fast_sandbox.Base.{
  ◌≡◌, refl, ap, ◌∙◌, Bool, true, false, Option, none, some, String, Dict, insert, remove,
}
use fast_sandbox.Assignment.{
  AssignmentEnvelope, SandboxObject, Codec, CodecLaws, Result, ok, failed, annotation_assignment,
  assignment_envelope_equal, encode_assignment, assignment_from_annotation, parse_assignment,
}
use fast_sandbox.Assignment.Annotations.{assignment_envelope_equal_sound, parse-encode}
use fast_sandbox.Assignment.Writes.{
  PatchResult, patched, conflicted, patch_error, ApiServer, ServerLaws,
}
use fast_sandbox.Assignment.Single.{
  initialize_assignment, remove_assignment, after_single, insert_all, initialize_parsed,
  initialize_live, initialize_read, initialize_encoded, remove_fenced, remove_parsed, remove_read,
  remove_valid,
}
use fast_sandbox.Assignment.Swap.{Written, patch-Written}

module _ (codec : Codec) (s : ApiServer) (laws : ServerLaws s) where
  open s use {World, get, patch}

  after_single-done :
      (x : PatchResult × World) (final : World)
      → after_single codec s x ≡ (ok true, final)
      → x ≡ (patched, final)
  after_single-done (patched, w) final e = ap (λ x. (patched, x.1)) e
  after_single-done (conflicted, w) final e = absurd (cc e)
  after_single-done (patch_error m, w) final e = absurd (cc e)

  abbrev pub first_annotations : Dict String → String → Dict String → Dict String
  first_annotations more value annotations =
      insert annotation_assignment value (insert_all codec s more annotations)

  -- An object without an assignment gets one at `v`.
  abbrev pub First : Dict String → String → World → World → Type 0
  First more value v final =
      (o : SandboxObject) × (o.deleting ≡ false)
      × (assignment_from_annotation codec o ≡ ok none)
      × Written codec s laws (first_annotations more value) o v final

  parsed-First :
      (found : Result (Option AssignmentEnvelope)) (between : World → World) (o : SandboxObject)
      (more : Dict String) (value : String) (w final : World)
      → get w ≡ some o
      → laws.Later w (between w)
      → o.deleting ≡ false
      → assignment_from_annotation codec o ≡ found
      → initialize_parsed codec s between o more value found w ≡ (ok true, final)
      → First more value (between w) final
  parsed-First (failed e) between o more value w final read later live parsed done =
      absurd (cc done)
  parsed-First (ok (some e)) between o more value w final read later live parsed done =
      absurd (cc done)
  parsed-First (ok none) between o more value w final read later live parsed done = (
    o,
    live,
    parsed,
    patch-Written codec s laws o none (first_annotations more value) w (between w) final read later
        (after_single-done _ final done),
  )

  live-First :
      (b : Bool) (between : World → World) (o : SandboxObject) (more : Dict String) (value : String)
      (w final : World)
      → get w ≡ some o
      → laws.Later w (between w)
      → o.deleting ≡ b
      → initialize_live codec s b between o more value w ≡ (ok true, final)
      → First more value (between w) final
  live-First true between o more value w final read later live done = absurd (cc done)
  live-First false between o more value w final read later live done =
      parsed-First _ between o more value w final read later live refl done

  read-First :
      (found : Option SandboxObject) (between : World → World) (more : Dict String) (value : String)
      (w final : World)
      → get w ≡ found
      → laws.Later w (between w)
      → initialize_read codec s between more value found w ≡ (ok true, final)
      → First more value (between w) final
  read-First none between more value w final read later done = absurd (cc done)
  read-First (some o) between more value w final read later done =
      live-First o.deleting between o more value w final read later refl done

  encoded-First :
      (encoded : Result String) (between : World → World) (desired : AssignmentEnvelope)
      (more : Dict String) (w final : World)
      → CodecLaws codec desired
      → laws.Later w (between w)
      → encode_assignment codec desired ≡ encoded
      → initialize_encoded codec s between more encoded w ≡ (ok true, final)
      → (value : String) × (parse_assignment codec value ≡ ok (some desired))
        × First more value (between w) final
  encoded-First (failed e) between desired more w final codec_laws later encoding done =
      absurd (cc done)
  encoded-First (ok value) between desired more w final codec_laws later encoding done = (
    value,
    parse-encode codec desired codec_laws value encoding,
    read-First (get w) between more value w final refl later done,
  )

  -- With an API server that keeps `ServerLaws`, others whose writes are later ones, and a codec that reads
  -- the desired assignment back: when a first assignment is won, then at the moment of its write, whatever
  -- others wrote in between, the stored Sandbox was not being deleted and had no assignment; the write added the given annotations and
  -- one that says the desired assignment.
  pub initialize_assignment-First :
      (between : World → World) (desired : AssignmentEnvelope) (more : Dict String)
      (w final : World)
      → CodecLaws codec desired
      → laws.Later w (between w)
      → initialize_assignment codec s between desired more w ≡ (ok true, final)
      → (value : String) × (parse_assignment codec value ≡ ok (some desired))
        × First more value (between w) final
  unfolding initialize_assignment
  initialize_assignment-First between desired more w final codec_laws later done =
      encoded-First _ between desired more w final codec_laws later refl done

  -- An object with the expected assignment loses it at `v`.
  abbrev pub Removed : AssignmentEnvelope → World → World → Type 0
  Removed expected v final =
      (o : SandboxObject) × (assignment_from_annotation codec o ≡ ok (some expected))
      × Written codec s laws (remove annotation_assignment) o v final

  fenced-Removed :
      (b : Bool) (between : World → World) (o : SandboxObject) (e expected : AssignmentEnvelope)
      (w final : World)
      → get w ≡ some o
      → laws.Later w (between w)
      → assignment_from_annotation codec o ≡ ok (some e)
      → assignment_envelope_equal e expected ≡ b
      → remove_fenced codec s b between o w ≡ (ok true, final)
      → Removed expected (between w) final
  fenced-Removed false between o e expected w final read later parsed same done = absurd (cc done)
  fenced-Removed true between o e expected w final read later parsed same done =
      let path : e ≡ expected = assignment_envelope_equal_sound e expected same in
      (
        o,
        parsed ∙ ap (λ x. ok (some x)) path,
        patch-Written codec s laws o _ (remove annotation_assignment) w (between w) final read later
            (after_single-done _ final done),
      )

  parsed-Removed :
      (found : Result (Option AssignmentEnvelope)) (between : World → World) (o : SandboxObject)
      (expected : AssignmentEnvelope) (w final : World)
      → get w ≡ some o
      → laws.Later w (between w)
      → assignment_from_annotation codec o ≡ found
      → remove_parsed codec s between o expected found w ≡ (ok true, final)
      → Removed expected (between w) final
  parsed-Removed (failed e) between o expected w final read later parsed done = absurd (cc done)
  parsed-Removed (ok none) between o expected w final read later parsed done = absurd (cc done)
  parsed-Removed (ok (some e)) between o expected w final read later parsed done =
      fenced-Removed _ between o e expected w final read later parsed refl done

  read-Removed :
      (found : Option SandboxObject) (between : World → World) (expected : AssignmentEnvelope)
      (w final : World)
      → get w ≡ found
      → laws.Later w (between w)
      → remove_read codec s between expected found w ≡ (ok true, final)
      → Removed expected (between w) final
  read-Removed none between expected w final read later done = absurd (cc done)
  read-Removed (some o) between expected w final read later done =
      parsed-Removed _ between o expected w final read later refl done

  valid-Removed :
      (b : Bool) (between : World → World) (expected : AssignmentEnvelope) (w final : World)
      → laws.Later w (between w)
      → remove_valid codec s b between expected w ≡ (ok true, final)
      → Removed expected (between w) final
  valid-Removed false between expected w final later done = absurd (cc done)
  valid-Removed true between expected w final later done =
      read-Removed (get w) between expected w final refl later done

  -- With an API server that keeps `ServerLaws` and others whose writes are later ones: when an assignment
  -- is removed, then at the moment of the write, whatever others wrote in between, the
  -- stored Sandbox had the expected assignment, and the write removed its annotation alone.
  pub remove_assignment-Removed :
      (between : World → World) (expected : AssignmentEnvelope) (w final : World)
      → laws.Later w (between w)
      → remove_assignment codec s between expected w ≡ (ok true, final)
      → Removed expected (between w) final
  unfolding remove_assignment
  remove_assignment-Removed between expected w final later done =
      valid-Removed _ between expected w final later done
