-- ===== src/Assignment/Single.antt =====
-- internal/controlplane/assignment/assignment_annotation.go: the first assignment and its removal, each of
-- one attempt.
use fast_sandbox.Base.{
  Bool, true, false, Option, none, some, [], ◌∷◌, String, Dict, lookup, insert, remove,
}
use fast_sandbox.Assignment.{
  AssignmentEnvelope, SandboxObject, invalid_assignment, annotation_changed, sandbox_deleting,
  update_conflict, server_error, Codec, Result, ok, failed, annotation_assignment, text_or_empty,
  valid_envelope, assignment_envelope_equal, encode_assignment, assignment_from_annotation,
}
use fast_sandbox.Assignment.Writes.{PatchResult, patched, conflicted, patch_error, ApiServer}

module _ (codec : Codec) (s : ApiServer) where
  open s use {World, get, patch}

  -- The write of an attempt that read `o`.
  abbrev pub read_back : Option SandboxObject → Result Bool
  read_back none = failed (server_error "get")
  read_back (some o) = ok true

  -- A write of one attempt, and the read after it.
  abbrev pub after_single : PatchResult × World → Result Bool × World
  after_single (patched, w) = (read_back (get w), w)
  after_single (conflicted, w) = (failed update_conflict, w)
  after_single (patch_error e, w) = (failed (server_error e), w)

  abbrev pub insert_all : Dict String → Dict String → Dict String
  insert_all [] annotations = annotations
  insert_all ((key, value) ∷ more) annotations = insert_all more (insert key value annotations)

  abbrev pub initialize_parsed :
      (World → World)
      → SandboxObject
      → Dict String
      → String
      → Result (Option AssignmentEnvelope)
      → World
      → Result Bool × World
  initialize_parsed between o more value (failed e) w = (failed e, w)
  initialize_parsed between o more value (ok (some e)) w = (ok false, w)
  initialize_parsed between o more value (ok none) w = after_single (
      patch o.resource_version none
        (λ annotations. insert annotation_assignment value (insert_all more annotations))
        (between w))

  abbrev pub initialize_live :
      Bool → (World → World) → SandboxObject → Dict String → String → World → Result Bool × World
  initialize_live true between o more value w = (failed sandbox_deleting, w)
  initialize_live false between o more value w =
      initialize_parsed between o more value (assignment_from_annotation codec o) w

  abbrev pub initialize_read :
      (World → World) → Dict String → String → Option SandboxObject → World → Result Bool × World
  initialize_read between more value none w = (failed (server_error "get"), w)
  initialize_read between more value (some o) w = initialize_live o.deleting between o more value w

  abbrev pub initialize_encoded :
      (World → World) → Dict String → Result String → World → Result Bool × World
  initialize_encoded between more (failed e) w = (failed e, w)
  initialize_encoded between more (ok value) w = initialize_read between more value (get w) w

  -- `InitializeAssignmentAnnotationWithMetadata`; true if it won the first assignment.
  unfoldable pub initialize_assignment :
      (World → World) → AssignmentEnvelope → Dict String → World → Result Bool × World
  unfolding encode_assignment assignment_from_annotation
  initialize_assignment between desired more w =
      initialize_encoded between more (encode_assignment codec desired) w

  abbrev pub remove_fenced : Bool → (World → World) → SandboxObject → World → Result Bool × World
  remove_fenced false between o w = (failed annotation_changed, w)
  remove_fenced true between o w = after_single (
      patch o.resource_version (some (text_or_empty (lookup annotation_assignment o.annotations)))
        (remove annotation_assignment) (between w))

  abbrev pub remove_parsed :
      (World → World)
      → SandboxObject
      → AssignmentEnvelope
      → Result (Option AssignmentEnvelope)
      → World
      → Result Bool × World
  remove_parsed between o expected (failed e) w = (failed e, w)
  remove_parsed between o expected (ok none) w = (ok false, w)
  remove_parsed between o expected (ok (some e)) w =
      remove_fenced (assignment_envelope_equal e expected) between o w

  abbrev pub remove_read :
      (World → World) → AssignmentEnvelope → Option SandboxObject → World → Result Bool × World
  remove_read between expected none w = (failed (server_error "get"), w)
  remove_read between expected (some o) w =
      remove_parsed between o expected (assignment_from_annotation codec o) w

  abbrev pub remove_valid :
      Bool → (World → World) → AssignmentEnvelope → World → Result Bool × World
  remove_valid false between expected w = (failed invalid_assignment, w)
  remove_valid true between expected w = remove_read between expected (get w) w

  -- `RemoveAssignmentAnnotation`; true if it removed the assignment.
  unfoldable pub remove_assignment :
      (World → World) → AssignmentEnvelope → World → Result Bool × World
  unfolding valid_envelope assignment_from_annotation assignment_envelope_equal
  remove_assignment between expected w = remove_valid (valid_envelope expected) between expected w
