-- ===== src/PoolSizing/Draining/Emptiness.antt =====
-- internal/controlplane/reconciler/sandboxpool_controller.go: the loop of `reconcileDraining` over the Pods
-- that drain, and what a deleted Pod had left.
use std.Path.{subst}
use fast_sandbox.Base.{
  ◌≡◌, ◌≢◌, refl, sym, ap, ◌∙◌, ◌⊎◌, inl, inr, ℕ, ◌+◌, Bool, true, false, not, ◌&&◌, ◌||◌, Option,
  none, some, String, ◌==◌, nat_equality, text_equality, int_equality, int_beq_iff, eq_iff,
  if◌then◌else◌, ltb, leb, pos, arith, Bool-cases,
}
use fast_sandbox.Placement.Quantity.{Quantities}
use fast_sandbox.Placement.Types.{FastletInfo, AdmissionStatus, ResourceStatus}
use fast_sandbox.PoolSizing.Scaling.{FastletPod, scale_down_reason}
use fast_sandbox.PoolSizing.Selection.{upgrade_reason}
use fast_sandbox.PoolSizing.Draining.{
  DrainResponse, request_drain, is_legacy_response, commits_nothing, admission_snapshot_empty,
  drain_response_empty, legacy_observation_empty,
}

pub data DrainAction : Type 0 where
  waits_on cancels_drain deletes_pod : DrainAction

-- 5 minutes, in nanoseconds.
abbrev pub default_drain_timeout : ℕ
default_drain_timeout = 300000000000

-- What the loop meets at a Pod: its drain id, whether the Fastlet can be called and the annotations could
-- be written, the Fastlet's answer to the drain, that to a heartbeat after it, the registry's entry, and
-- how many Sandboxes wait for its admission or are assigned to it.
pub record DrainTurn (Q : Type 0) : Type 0 where
  pub pod : FastletPod
  pub drain_id : String
  pub reachable : Bool
  pub id_saved : Bool
  pub ack_saved : Bool
  pub answer : Option DrainResponse
  pub heartbeat : Option DrainResponse
  pub entry : Option (FastletInfo Q)
  pub awaiting_count : ℕ
  pub active_count : ℕ
  pub now : ℕ

abbrev pub no_reservation : {Q : Type 0} → Option (FastletInfo Q) → Bool
no_reservation none = true
no_reservation (some i) = i.in_flight_slots == pos 0

abbrev pub is_some_true : Option Bool → Bool
is_some_true none = false
is_some_true (some b) = b

abbrev pub has_answer : Option Bool → Bool
has_answer none = false
has_answer (some b) = true

abbrev pub legacy_answer : Option DrainResponse → Bool
legacy_answer none = false
legacy_answer (some r) = is_legacy_response r

-- `timeout` is the setting, 0 where it is not positive.
abbrev pub has_timed_out : ℕ → ℕ → FastletPod → Bool
has_timed_out timeout now p =
    not (p.drain_started_at == 0)
    && leb (p.drain_started_at + (if ltb 0 timeout then timeout else default_drain_timeout)) now

-- The tests after those that compute whether the Fastlet is empty; `answered` is that there is no error.
abbrev pub act_on_drain : Bool → Bool → Bool → Bool → Bool → Bool → DrainAction
act_on_drain timed_out empty scaling_down protected answered legacy =
    if timed_out && not empty && scaling_down
    then cancels_drain
    else if protected && not empty
    then waits_on
    else if answered && (empty || timed_out && not legacy)
    then deletes_pod
    else waits_on

module _ (q : Quantities) (resource_aware protects_upgrades : Bool) (timeout : ℕ) where
  abbrev pub Turn : Type 0
  Turn = DrainTurn q.Quantity

  abbrev pub response : Turn → Option DrainResponse
  response t = request_drain t.pod.uid t.drain_id true t.reachable t.id_saved t.ack_saved t.answer

  abbrev pub is_protected_upgrade : Turn → Bool
  is_protected_upgrade t = protects_upgrades && t.pod.drain_reason == upgrade_reason

  abbrev pub answer_of : Turn → Option DrainResponse → Option Bool
  answer_of t none = none
  answer_of t (some r) =
      if is_legacy_response r
      then legacy_observation_empty q t.pod.uid t.heartbeat
          (resource_aware || is_protected_upgrade t)
      else some (drain_response_empty q r (resource_aware || is_protected_upgrade t))

  -- Whether the Fastlet is empty, none for an error.
  abbrev pub drain_observation : Turn → Option Bool
  drain_observation t = answer_of t (response t)

  abbrev pub is_empty_fastlet : Turn → Bool
  is_empty_fastlet t =
      is_some_true (drain_observation t)
      && no_reservation t.entry
      && t.awaiting_count == 0
      && t.active_count == 0

  -- The body of the loop.
  unfoldable pub follow_drain : Turn → DrainAction
  unfolding drain_response_empty legacy_observation_empty is_legacy_response request_drain
  follow_drain t =
      act_on_drain (has_timed_out timeout t.now t.pod) (is_empty_fastlet t)
        (t.pod.drain_reason == scale_down_reason) (is_protected_upgrade t)
        (has_answer (drain_observation t)) (legacy_answer (response t))

  -- A quantity that is zero.
  abbrev pub Zero : Option q.Quantity → Type 0
  Zero none = ⊥
  Zero (some n) = (q.is_positive n ≡ false) × (q.is_negative n ≡ false)

  -- The snapshot of resources is one of the current protocol, with an epoch, and commits no CPU and memory.
  abbrev pub CommitsNothing : Option ResourceStatus → Type 0
  CommitsNothing none = ⊥
  CommitsNothing (some r) =
      (r.version ≡ "v2")
      × (r.epoch ≢ "")
      × (r.reason ≢ "UNSUPPORTED_PROTOCOL")
      × Zero (q.parse_quantity r.committed.cpu)
      × Zero (q.parse_quantity r.committed.memory)

  -- The Fastlet drains, is ready and has recovered, and reports that no Sandbox is left, and where it is
  -- required, that no resources are committed.
  abbrev pub ReportsNothing : Bool → DrainResponse → Type 0
  ReportsNothing required r =
      (r.is_draining ≡ true)
      × (r.runtime_ready ≡ true)
      × (r.is_recovering ≡ false)
      × (a : AdmissionStatus) × (r.admission ≡ some a)
      × (a.used ≡ pos 0)
      × (a.creating ≡ pos 0)
      × (a.running ≡ pos 0)
      × (a.deleting ≡ pos 0)
      × ((required ≡ false) ⊎ CommitsNothing a.resources)

  -- Resources are required with resource admission, and for an upgrade that may not interrupt.
  abbrev pub requires_resources : Turn → Bool
  requires_resources t = resource_aware || is_protected_upgrade t

  -- What the Pod's Fastlet reported: in its answer, or, where that is an old one's, in a heartbeat after it.
  abbrev pub Reported : Turn → DrainResponse → Type 0
  Reported t r =
      ((is_legacy_response r ≡ false) × ReportsNothing (requires_resources t) r)
      ⊎ ((is_legacy_response r ≡ true)
          × (h : DrainResponse) × (t.heartbeat ≡ some h)
          × (h.response_pod_uid ≡ t.pod.uid)
          × ReportsNothing (requires_resources t) h)

  abbrev pub Emptied : Turn → DrainResponse → Type 0
  Emptied t r =
      Reported t r × (no_reservation t.entry ≡ true) × (t.awaiting_count ≡ 0) × (t.active_count ≡ 0)

  parses_to_zero-Zero :
      (o : Option q.Quantity)
      → (elim o [ none ↦ false | some n ↦ not (q.is_positive n) && not (q.is_negative n) ]) ≡ true
      → Zero o
  parses_to_zero-Zero none h = absurd (cc h)
  parses_to_zero-Zero (some n) h = (ground arith, ground arith)

  differs : (a b : String) → (a == b) ≡ false → a ≢ b
  differs a b h e = cc ((eq_iff a b).1 e, h)

  commits_nothing-CommitsNothing :
      (o : Option ResourceStatus) → commits_nothing q o ≡ true → CommitsNothing o
  commits_nothing-CommitsNothing none h = absurd (cc h)
  commits_nothing-CommitsNothing (some r) h = (
    ground (arith, eq_iff r.version "v2"),
    differs r.epoch "" (ground arith),
    differs r.reason "UNSUPPORTED_PROTOCOL" (ground arith),
    parses_to_zero-Zero (q.parse_quantity r.committed.cpu) (ground arith),
    parses_to_zero-Zero (q.parse_quantity r.committed.memory) (ground arith),
  )

  admission-nothing :
      (a : Option AdmissionStatus) (required : Bool)
      → admission_snapshot_empty q a required ≡ true
      → (b : AdmissionStatus) × (a ≡ some b)
        × (b.used ≡ pos 0)
        × (b.creating ≡ pos 0)
        × (b.running ≡ pos 0)
        × (b.deleting ≡ pos 0)
        × ((required ≡ false) ⊎ CommitsNothing b.resources)
  unfolding admission_snapshot_empty
  admission-nothing none required h = absurd (cc h)
  admission-nothing (some a) required h = (
    a,
    refl,
    ground (arith, int_beq_iff a.used (pos 0)),
    ground (arith, int_beq_iff a.creating (pos 0)),
    ground (arith, int_beq_iff a.running (pos 0)),
    ground (arith, int_beq_iff a.deleting (pos 0)),
    elim (Bool-cases required) [
      | inr e ↦ inl e
      | inl e ↦ inr (commits_nothing-CommitsNothing a.resources (ground arith))
    ],
  )

  drain_response_empty-ReportsNothing :
      (r : DrainResponse) (required : Bool)
      → drain_response_empty q r required ≡ true
      → ReportsNothing required r
  unfolding drain_response_empty
  drain_response_empty-ReportsNothing r required h =
      let (a, e, used, creating, running, deleting, committed) =
        admission-nothing r.admission required (ground arith) in
      (ground arith, ground arith, ground arith, a, e, used, creating, running, deleting, committed)

  -- A heartbeat of this Pod's Fastlet that reports nothing.
  abbrev Heard : Bool → String → Option DrainResponse → Type 0
  Heard required uid answer =
      (h : DrainResponse) × (answer ≡ some h)
      × (h.response_pod_uid ≡ uid)
      × ReportsNothing required h

  legacy_observation_empty-Heard :
      (uid : String) (answer : Option DrainResponse) (required : Bool)
      → legacy_observation_empty q uid answer required ≡ some true
      → Heard required uid answer
  unfolding legacy_observation_empty
  legacy_observation_empty-Heard uid none required e = absurd (cc e)
  legacy_observation_empty-Heard uid (some h) required e = (
    h,
    refl,
    ground (arith, eq_iff h.response_pod_uid uid),
    drain_response_empty-ReportsNothing h required (ground arith),
  )

  legacy-Reported :
      (t : Turn) (r : DrainResponse)
      → is_legacy_response r ≡ true
      → Heard (requires_resources t) t.pod.uid t.heartbeat
      → Reported t r
  legacy-Reported t r e (h, found, same, nothing) = inr (e, h, found, same, nothing)

  answer_of-Reported :
      (t : Turn) (r : DrainResponse) (legacy : Bool)
      → is_legacy_response r ≡ legacy
      → (if legacy
          then legacy_observation_empty q t.pod.uid t.heartbeat
              (resource_aware || is_protected_upgrade t)
          else some (drain_response_empty q r (resource_aware || is_protected_upgrade t)))
        ≡ some true
      → Reported t r
  answer_of-Reported t r true e empty = legacy-Reported t r e (
      legacy_observation_empty-Heard t.pod.uid t.heartbeat
        (resource_aware || is_protected_upgrade t) empty)
  answer_of-Reported t r false e empty = inl (
    e,
    drain_response_empty-ReportsNothing r (resource_aware || is_protected_upgrade t) (cc empty),
  )

  is_some_true_lem : (o : Option Bool) → is_some_true o ≡ true → o ≡ some true
  is_some_true_lem none h = absurd (cc h)
  is_some_true_lem (some b) h = ap some h

  is_empty_fastlet-Emptied :
      (t : Turn) (r : DrainResponse) → response t ≡ some r → is_empty_fastlet t ≡ true → Emptied t r
  is_empty_fastlet-Emptied t r e h = (
    answer_of-Reported t r (is_legacy_response r) refl
        (ap (answer_of t) (sym e) ∙ is_some_true_lem (drain_observation t) (ground arith)),
    ground arith,
    ground arith,
    ground arith,
  )

  act_on_drain-deletes :
      (timed_out empty scaling_down protected answered legacy : Bool)
      → act_on_drain timed_out empty scaling_down protected answered legacy ≡ deletes_pod
      → (answered ≡ true)
        × ((empty ≡ true)
            ⊎ ((timed_out ≡ true)
                × (scaling_down ≡ false)
                × (protected ≡ false)
                × (legacy ≡ false)))
  act_on_drain-deletes timed_out empty scaling_down protected answered legacy h = ground arith

  -- The Fastlet's answer is that it drains, and is for this Pod and drain, if it says for which.
  abbrev pub Accepted : Turn → DrainResponse → Type 0
  Accepted t r =
      (t.answer ≡ some r)
      × (r.is_draining ≡ true)
      × ((is_legacy_response r ≡ true)
          ⊎ ((r.response_pod_uid ≡ t.pod.uid) × (r.response_drain_id ≡ t.drain_id)))

  request_drain-answer :
      (pod_uid drain_id : String) (reachable id_saved ack_saved : Bool)
      (answer : Option DrainResponse) (r : DrainResponse)
      → request_drain pod_uid drain_id true reachable id_saved ack_saved answer ≡ some r
      → (a : DrainResponse) × (answer ≡ some a)
        × (a ≡ r)
        × (a.is_draining ≡ true)
        × ((is_legacy_response a ≡ true)
            ⊎ ((a.response_pod_uid ≡ pod_uid) × (a.response_drain_id ≡ drain_id)))
  unfolding request_drain
  request_drain-answer pod_uid drain_id reachable id_saved ack_saved none r e = absurd (cc e)
  request_drain-answer pod_uid drain_id reachable id_saved ack_saved (some a) r e = (
    a,
    refl,
    ground arith,
    ground arith,
    ground (arith, eq_iff a.response_pod_uid pod_uid, eq_iff a.response_drain_id drain_id),
  )

  response-Accepted : (t : Turn) (r : DrainResponse) → response t ≡ some r → Accepted t r
  response-Accepted t r e =
      let (a, found, same, drains, whose) =
        request_drain-answer t.pod.uid t.drain_id t.reachable t.id_saved t.ack_saved t.answer r e in
      subst (λ x. Accepted t x) same (found, drains, whose)

  answered-response :
      (t : Turn) (answer : Option DrainResponse)
      → has_answer (answer_of t answer) ≡ true
      → (r : DrainResponse) × (answer ≡ some r)
  answered-response t none h = absurd (cc h)
  answered-response t (some r) h = (r, refl)

  -- A Pod is deleted only if its Fastlet answered that it drains, for this Pod and drain if it says for
  -- which, and either it reports that nothing is left, neither a Sandbox nor, with resource admission or for
  -- a protected upgrade, any committed CPU or memory, with no reservation in the registry and no Sandbox
  -- that waits for it or is assigned to it, or the timeout has passed, the drain is no scale-down and no
  -- protected upgrade, and the Fastlet is no old one.
  pub follow_drain-Emptied :
      (t : Turn)
      → follow_drain t ≡ deletes_pod
      → (r : DrainResponse) × Accepted t r
        × (Emptied t r
            ⊎ ((has_timed_out timeout t.now t.pod ≡ true)
                × (t.pod.drain_reason ≢ scale_down_reason)
                × (is_protected_upgrade t ≡ false)
                × (is_legacy_response r ≡ false)))
  unfolding follow_drain
  follow_drain-Emptied t deleted =
      let (answered, why) =
        act_on_drain-deletes (has_timed_out timeout t.now t.pod) (is_empty_fastlet t)
          (t.pod.drain_reason == scale_down_reason) (is_protected_upgrade t)
          (has_answer (drain_observation t)) (legacy_answer (response t)) deleted in
      let (r, e) = answered-response t (response t) answered in
      (
        r,
        response-Accepted t r e,
        elim why [
          | inl empty ↦ inl (is_empty_fastlet-Emptied t r e empty)
          | inr (late, other, plain, current) ↦ inr (
            late,
            (λ same. ground (arith, eq_iff t.pod.drain_reason scale_down_reason)),
            plain,
            ap legacy_answer (sym e) ∙ current,
          )
        ],
      )
