-- ===== src/Examples/Assignments.antt =====
-- The writes of an assignment over a store of one Sandbox that compares versions.
use std.Path.{subst}
use fast_sandbox.Base.{
  ◌≡◌, refl, sym, ap, ◌∙◌, true, false, Option, some, [], ◌∷◌, String, Dict, lookup, insert, ◌==◌,
  text_equality, if◌then◌else◌, pos, eq_iff, arith,
}
use fast_sandbox.Assignment.{
  AssignmentEnvelope, SandboxObject, Codec, CodecLaws, ok, annotation_assignment, valid_envelope,
  valid_placement, encode_assignment, parse_assignment, assignment_from_annotation,
  effective_assignment, set_assignment_annotation, with_projection, validate_status_projection,
  assignment_envelope_equal,
}
use fast_sandbox.Assignment.Annotations.{effective_assignment-set}
use fast_sandbox.Assignment.Writes.{
  PatchResult, patched, conflicted, ApiServer, ServerLaws, SameElsewhere, cas_attempt, cas_loop,
  cas_assignment_annotation,
}
use fast_sandbox.Assignment.Single.{initialize_assignment}
use fast_sandbox.Assignment.Swap.{Switch}
use fast_sandbox.Assignment.Atomic.{cas_assignment_annotation-Switch}
use fast_sandbox.Assignment.First.{First, initialize_assignment-First}

abbrev on_fastlet : String → AssignmentEnvelope
on_fastlet name = record {
  version = "v1";
  fastlet_name = name;
  fastlet_pod_uid = "pod";
  node_name = "";
  attempt = pos 1;
  instance_generation = pos 1;
  route_generation = pos 1;
  runtime_instance_id = "r1";
  runtime_profile_hash = "h";
  resource_profile_hash = "h";
  infra_revision = "i";
}

-- Assignments that differ in the Fastlet alone.
abbrev by_name : Codec
by_name = record { marshal = λ e. e.fastlet_name; unmarshal = λ text. some (on_fastlet text) }

abbrev by_name_laws : (name : String) → (name == "") ≡ false → CodecLaws by_name (on_fastlet name)
by_name_laws name e = record { unmarshal-marshal = refl; marshal-text = e }

abbrev unassigned : String → SandboxObject
unassigned version = record {
  resource_version = version;
  deleting = false;
  annotations = [];
  placement = record { fastlet_name = ""; fastlet_pod_uid = ""; attempt = pos 0 };
  runtime_generation = pos 0;
  observed_route_generation = pos 0;
}

abbrev assigned : String → SandboxObject
assigned name = record (unassigned "2") { annotations = (annotation_assignment, name) ∷ [] }

-- The version of a patched object is a text that the versions before it are not.
abbrev patch_object :
    String
    → Option String
    → (Dict String → Dict String)
    → SandboxObject
    → PatchResult × SandboxObject
patch_object version test change o =
    if version == o.resource_version
    then (patched, record o { annotations = change o.annotations; resource_version = "next" })
    else (conflicted, o)

abbrev server : ApiServer
server = record { World = SandboxObject; get = λ o. some o; patch = patch_object }

patched-same :
    (version : String) (test : Option String) (change : Dict String → Dict String)
    (w v : SandboxObject)
    → patch_object version test change w ≡ (patched, v)
    → (version == w.resource_version) ≡ true
patched-same version test change w v e = ground arith

patched-version :
    (version : String) (test : Option String) (change : Dict String → Dict String)
    (w v : SandboxObject)
    → patch_object version test change w ≡ (patched, v)
    → (o : SandboxObject) × (some w ≡ some o) × (version ≡ o.resource_version)
patched-version version test change w v e =
    (w, refl, (eq_iff version w.resource_version).0 (patched-same version test change w v e))

changed :
    (version : String) (test : Option String) (change : Dict String → Dict String)
    (w v : SandboxObject)
    → patch_object version test change w ≡ (patched, v)
    → v.annotations ≡ change w.annotations
changed version test change w v e = ground arith

kept_elsewhere :
    (version : String) (test : Option String) (change : Dict String → Dict String)
    (w v : SandboxObject)
    → patch_object version test change w ≡ (patched, v)
    → SameElsewhere w v
kept_elsewhere version test change w v e = ground arith

patched-change :
    (version : String) (test : Option String) (change : Dict String → Dict String)
    (w v o : SandboxObject)
    → patch_object version test change w ≡ (patched, v)
    → some w ≡ some o
    → (p : SandboxObject) × (some v ≡ some p)
      × (p.annotations ≡ change o.annotations)
      × SameElsewhere o p
patched-change version test change w v o e same =
    let path : w ≡ o = cc same in
    (
      v,
      refl,
      changed version test change w v e ∙ ap (λ x. change x.annotations) path,
      subst (λ x. SameElsewhere x v) path (kept_elsewhere version test change w v e),
    )

conflicted-kept :
    (version : String) (test : Option String) (change : Dict String → Dict String)
    (w v : SandboxObject)
    → patch_object version test change w ≡ (conflicted, v)
    → v ≡ w
conflicted-kept version test change w v e = ground arith

server_laws : ServerLaws server
server_laws = record {
  Later = λ w v. w.resource_version ≡ v.resource_version → w ≡ v;
  get-later = λ w v o p later e f same.
      let a : w ≡ o = cc e in
      let b : v ≡ p = cc f in
      sym a
      ∙ later (ap (λ x. x.resource_version) a ∙ same ∙ sym (ap (λ x. x.resource_version) b))
      ∙ b;
  patched-version = patched-version;
  patched-change = patched-change;
  conflicted-kept = conflicted-kept;
}

-- What others write between the read and the write of the first attempt.
abbrev relabelled : SandboxObject → SandboxObject
relabelled o = record o { resource_version = "3" }

relabelled-Later : (o : SandboxObject) → server_laws.Later o (relabelled o)
unfolding server_laws
relabelled-Later o = λ e. ap (λ version. record o { resource_version = version }) e

effective_assignment-set_example :
    effective_assignment by_name (
      with_projection
        (on_fastlet "b")
        (record (unassigned "1") { annotations = (annotation_assignment, "b") ∷ [] }))
    ≡ ok (some (on_fastlet "b"))
unfolding set_assignment_annotation encode_assignment valid_envelope valid_placement insert
effective_assignment-set_example =
    (effective_assignment-set by_name (on_fastlet "b") (by_name_laws "b" refl) (unassigned "1")
      (record (unassigned "1") { annotations = (annotation_assignment, "b") ∷ [] }) refl).1

cas_assignment_annotation-Switch_example :
    ((v : SandboxObject) × Switch by_name server server_laws
        (on_fastlet "a")
        "b"
        v
        (record (assigned "b") { resource_version = "next" }))
    × (parse_assignment by_name "b" ≡ ok (some (on_fastlet "b")))
unfolding cas_assignment_annotation cas_loop cas_attempt encode_assignment
    assignment_from_annotation parse_assignment valid_envelope valid_placement insert lookup
    validate_status_projection assignment_envelope_equal server_laws
cas_assignment_annotation-Switch_example =
    cas_assignment_annotation-Switch by_name server server_laws (relabelled ∷ (λ o. o) ∷ [])
      (on_fastlet "a") (on_fastlet "b") "b" (assigned "a")
      (record (assigned "b") { resource_version = "next" }) (by_name_laws "b" refl)
      (relabelled-Later, ((λ w e. refl), tt)) refl

initialize_assignment-First_example :
    (value : String) × (parse_assignment by_name value ≡ ok (some (on_fastlet "b")))
    × First by_name server server_laws [] value
        (unassigned "1")
        (record (assigned "b") { resource_version = "next" })
unfolding initialize_assignment encode_assignment assignment_from_annotation parse_assignment
    valid_envelope valid_placement insert lookup server_laws
initialize_assignment-First_example =
    initialize_assignment-First by_name server server_laws (λ o. o) (on_fastlet "b") []
      (unassigned "1") (record (assigned "b") { resource_version = "next" }) (by_name_laws "b" refl)
      (λ e. refl) refl
