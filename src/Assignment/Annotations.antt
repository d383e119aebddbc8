-- ===== src/Assignment/Annotations.antt =====
-- The annotation and the status hold one assignment.
use fast_sandbox.Base.{
  ◌≡◌, refl, sym, true, none, some, String, lookup, insert, lookup-insert_self, text_equality,
  int_equality, ==_refl, eq_iff, int_beq_iff, arith,
}
use fast_sandbox.Assignment.{
  AssignmentEnvelope, SandboxObject, Codec, CodecLaws, ok, annotation_assignment, valid_envelope,
  assignment_envelope_equal, encode_assignment, parse_assignment, assignment_from_annotation,
  validate_status_projection, effective_assignment, set_assignment_annotation, with_projection,
  text_or_empty,
}

pub assignment_envelope_equal_sound :
    (a b : AssignmentEnvelope) → assignment_envelope_equal a b ≡ true → a ≡ b
unfolding assignment_envelope_equal
assignment_envelope_equal_sound a b e = ground (
  arith,
  eq_iff a.version b.version,
  eq_iff a.fastlet_name b.fastlet_name,
  eq_iff a.fastlet_pod_uid b.fastlet_pod_uid,
  eq_iff a.node_name b.node_name,
  int_beq_iff a.attempt b.attempt,
  int_beq_iff a.instance_generation b.instance_generation,
  int_beq_iff a.route_generation b.route_generation,
  eq_iff a.runtime_instance_id b.runtime_instance_id,
  eq_iff a.runtime_profile_hash b.runtime_profile_hash,
  eq_iff a.resource_profile_hash b.resource_profile_hash,
  eq_iff a.infra_revision b.infra_revision,
)

module _ (codec : Codec) (e : AssignmentEnvelope) (laws : CodecLaws codec e) where
  parse-marshal : valid_envelope e ≡ true → parse_assignment codec (codec.marshal e) ≡ ok (some e)
  unfolding parse_assignment
  parse-marshal v = rw (laws.marshal-text, laws.unmarshal-marshal, v) refl

  encode-ok :
      (value : String)
      → encode_assignment codec e ≡ ok value
      → (valid_envelope e ≡ true) × (codec.marshal e ≡ value)
  unfolding encode_assignment
  encode-ok value h = ground arith

  set-ok :
      (s t : SandboxObject)
      → set_assignment_annotation codec s e ≡ ok t
      → (valid_envelope e ≡ true)
        × (t ≡ record s {
          annotations = insert annotation_assignment (codec.marshal e) s.annotations;
        })
  unfolding set_assignment_annotation encode_assignment
  set-ok s t h = ground arith

  projection-agrees :
      (t : SandboxObject) → validate_status_projection (with_projection e t) (some e) ≡ none
  unfolding validate_status_projection with_projection
  projection-agrees t = ground (
    arith,
    ==_refl e.fastlet_name,
    ==_refl e.fastlet_pod_uid,
    ==_refl e.attempt,
    ==_refl e.instance_generation,
    ==_refl e.route_generation,
  )

  pub parse-encode :
      (value : String)
      → encode_assignment codec e ≡ ok value
      → parse_assignment codec value ≡ ok (some e)
  parse-encode value h = let (v, same) = encode-ok value h in rw (sym same) (parse-marshal v)

  -- An envelope that the codec reads back and that `SetAssignmentAnnotation` accepts is what the annotation then says, and once the
  -- status is projected from it, what `EffectiveAssignment` gives.
  pub effective_assignment-set :
      (s t : SandboxObject)
      → set_assignment_annotation codec s e ≡ ok t
      → (assignment_from_annotation codec t ≡ ok (some e))
        × (effective_assignment codec (with_projection e t) ≡ ok (some e))
  unfolding effective_assignment assignment_from_annotation with_projection
  effective_assignment-set s t h =
      let (v, same) = set-ok s t h in
      let said : parse_assignment codec (text_or_empty (lookup annotation_assignment t.annotations))
          ≡ ok (some e) =
        rw (same, lookup-insert_self annotation_assignment (codec.marshal e) s.annotations)
          (parse-marshal v) in
      (said, rw (said, projection-agrees t) refl)
