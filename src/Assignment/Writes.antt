-- ===== src/Assignment/Writes.antt =====
-- internal/controlplane/assignment/assignment_annotation.go: the API server, which others write to
-- between a read and the write that follows it, and the compare-and-swap over it.
use fast_sandbox.Base.{
  ◌≡◌, Bool, true, false, not, Option, none, some, List, [], ◌∷◌, String, Dict, insert,
}
use fast_sandbox.Assignment.{
  AssignmentEnvelope, SandboxObject, AssignmentError, invalid_assignment, annotation_changed,
  sandbox_deleting, update_conflict, server_error, Codec, Result, ok, failed, annotation_assignment,
  valid_envelope, assignment_envelope_equal, encode_assignment, assignment_from_annotation,
  validate_status_projection,
}

pub data PatchResult : Type 0 where
  patched conflicted : PatchResult
  patch_error : String → PatchResult

-- The client of the Kubernetes API, for one Sandbox. `get` is none for an error. A patch names the
-- resource version it was made for, a value to test the annotation against, and its change.
pub record ApiServer : Type 1 where
  pub World : Type 0
  pub get : World → Option SandboxObject
  pub patch : String → Option String → (Dict String → Dict String) → World → PatchResult × World

-- Apart from its annotations and its version, an object says what another says.
abbrev pub SameElsewhere : SandboxObject → SandboxObject → Type 0
SameElsewhere o p =
    (p.deleting ≡ o.deleting)
    × (p.placement ≡ o.placement)
    × (p.runtime_generation ≡ o.runtime_generation)
    × (p.observed_route_generation ≡ o.observed_route_generation)

-- What the API documents: a resource version names one state of an object for as long as the object is
-- there, a patch applies to the version it names or is refused, a patch of annotations changes nothing
-- else but the version, and a conflict changes nothing.
pub record ServerLaws (s : ApiServer) : Type 1 where
  pub Later : s.World → s.World → Type 0
  pub get-later :
      (w v : s.World) (o p : SandboxObject)
      → Later w v
      → s.get w ≡ some o
      → s.get v ≡ some p
      → o.resource_version ≡ p.resource_version
      → o ≡ p
  pub patched-version :
      (version : String) (test : Option String) (change : Dict String → Dict String) (w v : s.World)
      → s.patch version test change w ≡ (patched, v)
      → (o : SandboxObject) × (s.get w ≡ some o) × (version ≡ o.resource_version)
  pub patched-change :
      (version : String) (test : Option String) (change : Dict String → Dict String) (w v : s.World)
      (o : SandboxObject)
      → s.patch version test change w ≡ (patched, v)
      → s.get w ≡ some o
      → (p : SandboxObject) × (s.get v ≡ some p)
        × (p.annotations ≡ change o.annotations)
        × SameElsewhere o p
  pub conflicted-kept :
      (version : String) (test : Option String) (change : Dict String → Dict String) (w v : s.World)
      → s.patch version test change w ≡ (conflicted, v)
      → v ≡ w

-- How an attempt of the retried function ends.
pub data Attempt : Type 0 where
  switched again : Attempt
  stopped : AssignmentError → Attempt

module _ (codec : Codec) (s : ApiServer) where
  open s use {World, get, patch}

  -- The write of an attempt that read `o`.
  abbrev pub after_patch : PatchResult × World → Attempt × World
  after_patch (patched, w) = (switched, w)
  after_patch (conflicted, w) = (again, w)
  after_patch (patch_error e, w) = (stopped (server_error e), w)

  abbrev pub write_next : (World → World) → SandboxObject → String → World → Attempt × World
  write_next between o value w =
      after_patch (patch o.resource_version none (insert annotation_assignment value) (between w))

  abbrev pub attempt_projected :
      (World → World)
      → SandboxObject
      → String
      → Option AssignmentEnvelope
      → Option AssignmentError
      → World
      → Attempt × World
  attempt_projected between o value envelope (some e) w = (stopped e, w)
  attempt_projected between o value none none w = (stopped annotation_changed, w)
  attempt_projected between o value (some e) none w = write_next between o value w

  abbrev pub differs : AssignmentEnvelope → Option AssignmentEnvelope → Bool
  differs expected none = false
  differs expected (some e) = not (assignment_envelope_equal e expected)

  -- Whether the annotation is another assignment than the expected one.
  abbrev pub attempt_fenced :
      Bool
      → (World → World)
      → SandboxObject
      → String
      → Option AssignmentEnvelope
      → World
      → Attempt × World
  attempt_fenced true between o value envelope w = (stopped annotation_changed, w)
  attempt_fenced false between o value envelope w =
      attempt_projected between o value envelope (validate_status_projection o envelope) w

  abbrev pub attempt_parsed :
      (World → World)
      → SandboxObject
      → AssignmentEnvelope
      → String
      → Result (Option AssignmentEnvelope)
      → World
      → Attempt × World
  attempt_parsed between o expected value (failed e) w = (stopped e, w)
  attempt_parsed between o expected value (ok envelope) w =
      attempt_fenced (differs expected envelope) between o value envelope w

  abbrev pub attempt_live :
      Bool → (World → World) → SandboxObject → AssignmentEnvelope → String → World → Attempt × World
  attempt_live true between o expected value w = (stopped sandbox_deleting, w)
  attempt_live false between o expected value w =
      attempt_parsed between o expected value (assignment_from_annotation codec o) w

  abbrev pub attempt_read :
      (World → World) → AssignmentEnvelope → String → Option SandboxObject → World → Attempt × World
  attempt_read between expected value none w = (stopped (server_error "get"), w)
  attempt_read between expected value (some o) w =
      attempt_live o.deleting between o expected value w

  -- One call of the function that `RetryOnConflict` retries; `between` is what others write after its
  -- read.
  unfoldable pub cas_attempt :
      (World → World) → AssignmentEnvelope → String → World → Attempt × World
  unfolding assignment_from_annotation validate_status_projection assignment_envelope_equal
  cas_attempt between expected value w = attempt_read between expected value (get w) w

  abbrev pub after_attempt :
      Attempt × World → (World → Result String × World) → String → Result String × World
  after_attempt (switched, w) rest value = (ok value, w)
  after_attempt (stopped e, w) rest value = (failed e, w)
  after_attempt (again, w) rest value = rest w

  -- `RetryOnConflict`: as many attempts as the list has entries, then the last conflict.
  unfoldable pub cas_loop :
      List (World → World) → AssignmentEnvelope → String → World → Result String × World
  unfolding cas_attempt
  cas_loop [] expected value w = (failed update_conflict, w)
  cas_loop (between ∷ rest) expected value w =
      after_attempt (cas_attempt between expected value w) (cas_loop rest expected value) value

  abbrev pub cas_encoded :
      List (World → World) → AssignmentEnvelope → Result String → World → Result String × World
  cas_encoded betweens expected (failed e) w = (failed e, w)
  cas_encoded betweens expected (ok value) w = cas_loop betweens expected value w

  abbrev pub cas_valid :
      Bool
      → List (World → World)
      → AssignmentEnvelope
      → AssignmentEnvelope
      → World
      → Result String × World
  cas_valid false betweens expected next w = (failed invalid_assignment, w)
  cas_valid true betweens expected next w =
      cas_encoded betweens expected (encode_assignment codec next) w

  -- `CASAssignmentAnnotation`; the annotation that it wrote.
  unfoldable pub cas_assignment_annotation :
      List (World → World) → AssignmentEnvelope → AssignmentEnvelope → World → Result String × World
  unfolding cas_loop encode_assignment valid_envelope
  cas_assignment_annotation betweens expected next w =
      cas_valid (valid_envelope expected) betweens expected next w
