-- ===== src/Assignment/Atomic.antt =====
-- The compare-and-swap of the assignment, and the first assignment.
use fast_sandbox.Base.{◌≡◌, refl, sym, ap, ◌∙◌, Bool, true, false, some, List, [], ◌∷◌, String, All}
use fast_sandbox.Assignment.{
  AssignmentEnvelope, Codec, CodecLaws, Result, ok, failed, encode_assignment, parse_assignment,
}
use fast_sandbox.Assignment.Annotations.{parse-encode}
use fast_sandbox.Assignment.Writes.{
  ApiServer, ServerLaws, Attempt, switched, again, stopped, cas_attempt, after_attempt, cas_loop,
  cas_encoded, cas_valid, cas_assignment_annotation,
}
use fast_sandbox.Assignment.Swap.{Switch, read-Switch}

module _ (codec : Codec) (s : ApiServer) (laws : ServerLaws s) where
  open s use {World, get, patch}

  abbrev pub Interference : List (World → World) → Type 0
  Interference betweens = All (λ between. (w : World) → laws.Later w (between w)) betweens

  -- A write of the value, at some moment.
  abbrev pub Swapped : AssignmentEnvelope → String → String → World → Type 0
  Swapped expected value result final =
      (v : World) × (result ≡ value) × Switch codec s laws expected value v final

  after-Switch :
      (x : Attempt × World) (between : World → World) (rest : List (World → World))
      (expected : AssignmentEnvelope) (value result : String) (w final : World)
      → laws.Later w (between w)
      → ((u : World)
          → cas_loop codec s rest expected value u ≡ (ok result, final)
          → Swapped expected value result final)
      → cas_attempt codec s between expected value w ≡ x
      → after_attempt codec s x (cas_loop codec s rest expected value) value ≡ (ok result, final)
      → Swapped expected value result final
  unfolding cas_attempt
  after-Switch (switched, u) between rest expected value result w final later later_attempts e
        done =
      let same : u ≡ final = ap (λ x. x.1) done in
      let text : value ≡ result = cc done in
      (
        between w,
        sym text,
        read-Switch codec s laws (get w) between expected value w final refl later
            (e ∙ ap (λ x. (switched, x)) same),
      )
  after-Switch (stopped m, u) between rest expected value result w final later later_attempts e
        done =
      absurd (cc done)
  after-Switch (again, u) between rest expected value result w final later later_attempts e done =
      later_attempts u done

  loop-Switch :
      (betweens : List (World → World)) (expected : AssignmentEnvelope) (value result : String)
      (w final : World)
      → Interference betweens
      → cas_loop codec s betweens expected value w ≡ (ok result, final)
      → Swapped expected value result final
  unfolding cas_loop
  loop-Switch [] expected value result w final laters done = absurd (cc done)
  loop-Switch (between ∷ rest) expected value result w final (later, laters) done =
      after-Switch (cas_attempt codec s between expected value w) between rest expected value result
        w final (later w) (λ u. loop-Switch rest expected value result u final laters) refl done

  encoded-Switch :
      (encoded : Result String) (betweens : List (World → World))
      (expected next : AssignmentEnvelope) (result : String) (w final : World)
      → CodecLaws codec next
      → Interference betweens
      → encode_assignment codec next ≡ encoded
      → cas_encoded codec s betweens expected encoded w ≡ (ok result, final)
      → ((v : World) × Switch codec s laws expected result v final)
        × (parse_assignment codec result ≡ ok (some next))
  encoded-Switch (failed e) betweens expected next result w final codec_laws laters encoding done =
      absurd (cc done)
  encoded-Switch (ok value) betweens expected next result w final codec_laws laters encoding done =
      let (v, same, switch) = loop-Switch betweens expected value result w final laters done in
      let said : parse_assignment codec result ≡ ok (some next) =
        rw same (parse-encode codec next codec_laws value encoding) in
      ((v, rw same switch), said)

  valid-Switch :
      (b : Bool) (betweens : List (World → World)) (expected next : AssignmentEnvelope)
      (result : String) (w final : World)
      → CodecLaws codec next
      → Interference betweens
      → cas_valid codec s b betweens expected next w ≡ (ok result, final)
      → ((v : World) × Switch codec s laws expected result v final)
        × (parse_assignment codec result ≡ ok (some next))
  valid-Switch false betweens expected next result w final codec_laws laters done = absurd (cc done)
  valid-Switch true betweens expected next result w final codec_laws laters done =
      encoded-Switch _ betweens expected next result w final codec_laws laters refl done

  -- With an API server that keeps `ServerLaws`, others whose writes are later ones, and a codec that reads
  -- the next assignment back: when the compare-and-swap returns without an error, then at the moment of
  -- its write, whatever others wrote in between, the stored Sandbox was not being deleted, its annotation said the expected
  -- assignment and its status agreed; the write changed the annotation alone, which now says the next
  -- assignment.
  pub cas_assignment_annotation-Switch :
      (betweens : List (World → World)) (expected next : AssignmentEnvelope) (result : String)
      (w final : World)
      → CodecLaws codec next
      → Interference betweens
      → cas_assignment_annotation codec s betweens expected next w ≡ (ok result, final)
      → ((v : World) × Switch codec s laws expected result v final)
        × (parse_assignment codec result ≡ ok (some next))
  unfolding cas_assignment_annotation
  cas_assignment_annotation-Switch betweens expected next result w final codec_laws laters done =
      valid-Switch _ betweens expected next result w final codec_laws laters done
