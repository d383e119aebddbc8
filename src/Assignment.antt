-- ===== src/Assignment.antt =====
-- internal/controlplane/assignment: the assignment of a Sandbox to a Fastlet, which one annotation of the
-- Sandbox records.
--
-- `Codec` stands for encoding/json on the envelope. The API server is the parameter `ApiServer` of Writes.
pub mod Writes
pub mod Single
pub mod Annotations
pub mod Swap
pub mod Atomic
pub mod First
use fast_sandbox.Base.{
  ◌≡◌, Bool, true, false, not, ◌&&◌, ◌||◌, Option, none, some, String, Dict, lookup, insert, ◌==◌,
  text_equality, int_equality, if◌then◌else◌, ℤ, pos, ltb_ℤ,
}

pub record AssignmentEnvelope : Type 0 where
  pub version : String
  pub fastlet_name : String
  pub fastlet_pod_uid : String
  pub node_name : String
  pub attempt : ℤ
  pub instance_generation : ℤ
  pub route_generation : ℤ
  pub runtime_instance_id : String
  pub runtime_profile_hash : String
  pub resource_profile_hash : String
  pub infra_revision : String

pub record PlacementStatus : Type 0 where
  pub fastlet_name : String
  pub fastlet_pod_uid : String
  pub attempt : ℤ

-- A Sandbox as the API server has it: of its metadata and status, what this code reads.
pub record SandboxObject : Type 0 where
  pub resource_version : String
  pub deleting : Bool
  pub annotations : Dict String
  pub placement : PlacementStatus
  pub runtime_generation : ℤ
  pub observed_route_generation : ℤ

pub data AssignmentError : Type 0 where
  invalid_assignment decode_failed annotation_missing projection_conflict : AssignmentError
  annotation_changed sandbox_deleting update_conflict : AssignmentError
  server_error : String → AssignmentError

-- encoding/json for the envelope.
pub record Codec : Type 0 where
  pub marshal : AssignmentEnvelope → String
  pub unmarshal : String → Option AssignmentEnvelope

-- What its documentation says of one envelope.
pub record CodecLaws (c : Codec) (e : AssignmentEnvelope) : Type 0 where
  pub unmarshal-marshal : c.unmarshal (c.marshal e) ≡ some e
  pub marshal-text : (c.marshal e == "") ≡ false

abbrev pub annotation_assignment : String
annotation_assignment = "sandbox.fast.io/assignment"

abbrev pub status_placement : AssignmentEnvelope → PlacementStatus
status_placement e = record {
  fastlet_name = e.fastlet_name;
  fastlet_pod_uid = e.fastlet_pod_uid;
  attempt = e.attempt;
}

unfoldable pub valid_placement : PlacementStatus → Bool
valid_placement p =
    not (p.fastlet_name == "") && not (p.fastlet_pod_uid == "") && not (ltb_ℤ p.attempt (pos 1))

-- `Validate` without an error.
unfoldable pub valid_envelope : AssignmentEnvelope → Bool
unfolding valid_placement
valid_envelope e =
    e.version == "v1"
    && valid_placement (status_placement e)
    && not (ltb_ℤ e.instance_generation (pos 1))
    && not (ltb_ℤ e.route_generation (pos 1))
    && not (e.runtime_instance_id == "")
    && not (e.runtime_profile_hash == "")
    && not (e.resource_profile_hash == "")
    && not (e.infra_revision == "")

abbrev pub placements_equal : PlacementStatus → PlacementStatus → Bool
placements_equal a b =
    a.fastlet_name == b.fastlet_name
    && a.fastlet_pod_uid == b.fastlet_pod_uid
    && a.attempt == b.attempt

unfoldable pub assignment_envelope_equal : AssignmentEnvelope → AssignmentEnvelope → Bool
assignment_envelope_equal a b =
    a.version == b.version
    && a.fastlet_name == b.fastlet_name
    && a.fastlet_pod_uid == b.fastlet_pod_uid
    && a.node_name == b.node_name
    && a.attempt == b.attempt
    && a.instance_generation == b.instance_generation
    && a.route_generation == b.route_generation
    && a.runtime_instance_id == b.runtime_instance_id
    && a.runtime_profile_hash == b.runtime_profile_hash
    && a.resource_profile_hash == b.resource_profile_hash
    && a.infra_revision == b.infra_revision

-- A value or an error.
pub data Result {ℓ} (A : Type ℓ) : Type ℓ where
  ok : A → Result A
  failed : AssignmentError → Result A

abbrev pub text_or_empty : Option String → String
text_or_empty none = ""
text_or_empty (some text) = text

-- `validateStatusProjection`: none is no error.
unfoldable pub validate_status_projection :
    SandboxObject → Option AssignmentEnvelope → Option AssignmentError
validate_status_projection s none =
    if s.placement.fastlet_name == "" then none else some annotation_missing
validate_status_projection s (some e) =
    if s.placement.fastlet_name == ""
    then none
    else if not (placements_equal s.placement (status_placement e))
        || not (s.runtime_generation == e.instance_generation)
        || not (s.observed_route_generation == e.route_generation)
    then some projection_conflict
    else none

abbrev pub unless_error :
    Option AssignmentError → Option AssignmentEnvelope → Result (Option AssignmentEnvelope)
unless_error none envelope = ok envelope
unless_error (some e) envelope = failed e

abbrev pub projected :
    SandboxObject → Result (Option AssignmentEnvelope) → Result (Option AssignmentEnvelope)
projected s (failed e) = failed e
projected s (ok envelope) = unless_error (validate_status_projection s envelope) envelope

module _ (codec : Codec) where
  unfoldable pub encode_assignment : AssignmentEnvelope → Result String
  unfolding valid_envelope
  encode_assignment e = if valid_envelope e then ok (codec.marshal e) else failed invalid_assignment

  abbrev pub decoded : Option AssignmentEnvelope → Result (Option AssignmentEnvelope)
  decoded none = failed decode_failed
  decoded (some e) = if valid_envelope e then ok (some e) else failed invalid_assignment

  unfoldable pub parse_assignment : String → Result (Option AssignmentEnvelope)
  unfolding valid_envelope
  parse_assignment value = if value == "" then ok none else decoded (codec.unmarshal value)

  unfoldable pub assignment_from_annotation : SandboxObject → Result (Option AssignmentEnvelope)
  unfolding parse_assignment
  assignment_from_annotation s =
      parse_assignment (text_or_empty (lookup annotation_assignment s.annotations))

  unfoldable pub effective_assignment : SandboxObject → Result (Option AssignmentEnvelope)
  unfolding assignment_from_annotation validate_status_projection
  effective_assignment s = projected s (assignment_from_annotation s)

  abbrev pub annotated : SandboxObject → Result String → Result SandboxObject
  annotated s (failed error) = failed error
  annotated s (ok value) =
      ok (record s { annotations = insert annotation_assignment value s.annotations })

  -- `SetAssignmentAnnotation`
  unfoldable pub set_assignment_annotation :
      SandboxObject → AssignmentEnvelope → Result SandboxObject
  unfolding encode_assignment
  set_assignment_annotation s e = annotated s (encode_assignment e)

-- The status that the patch of `ProjectAssignmentToStatus` leaves.
unfoldable pub with_projection : AssignmentEnvelope → SandboxObject → SandboxObject
with_projection e s = record s {
  placement = status_placement e;
  runtime_generation = e.instance_generation;
  observed_route_generation = e.route_generation;
}
