-- ===== src/Placement/Closing.antt =====
-- placement/registry.go: the admission fence that a rejection raises, against heartbeats that were
-- under way when it was raised.
use fast_sandbox.Base.{
  ℕ, ◌≡◌, refl, Bool, true, false, ◌&&◌, Option, none, some, List, [], ◌∷◌, String, arith,
  text_equality, nat_equality, if◌then◌else◌, ◌∙◌, All,
}
use fast_sandbox.Placement.Quantity.{Quantities}
use fast_sandbox.Placement.Types.{
  FastletInfo, AdmissionStatus, AdmissionState, ResourceStatus, HeartbeatResponse, CacheSnapshot,
  admission_state_beq, open_state, blocked, unknown_state, other_state, Fence,
}
use fast_sandbox.Placement.Heartbeat.{
  apply_resources, apply_heartbeat_admission, apply_admission_resources, apply_cache,
  accepts_heartbeat, at_fence, repeats, received, with_facts, with_profile, stamped,
  accept_heartbeat, lift_rejection,
}
use fast_sandbox.Placement.Fencing.{ledger_of-kept, cache-kept}

abbrev pub state_open : Option ResourceStatus → Bool
state_open none = false
state_open (some r) = admission_state_beq r.state open_state

-- A heartbeat that tells nothing newer than the fence.
abbrev pub behind : Fence → Option ResourceStatus → Bool
behind f none = true
behind f (some r) = at_fence f r

same_state-closed :
    (c r : AdmissionState)
    → admission_state_beq c r ≡ true
    → admission_state_beq c open_state ≡ false
    → admission_state_beq r open_state ≡ false
same_state-closed c open_state same closed = cc
same_state-closed c blocked same closed = refl
same_state-closed c unknown_state same closed = refl
same_state-closed c (other_state s) same closed = refl

repeats-closed :
    (c : Option ResourceStatus) (r : ResourceStatus)
    → repeats c r ≡ true
    → state_open c ≡ false
    → admission_state_beq r.state open_state ≡ false
repeats-closed none r e closed = cc
repeats-closed (some c) r e closed = same_state-closed c.state r.state (ground arith) closed

pub and-false : (b : Bool) → (b && false) ≡ false
and-false true = refl
and-false false = refl

module _ (q : Quantities) where
  open q use {Quantity}

  abbrev pub Info : Type 0
  Info = FastletInfo Quantity

  -- The entry offers nothing and has the fence.
  abbrev pub Closed : Fence → Info → Type 0
  Closed f i = (state_open i.admission.resources ≡ false) × (i.resource_fence ≡ f)

  received-Closed :
      (f : Fence) (now : ℕ) (r : ResourceStatus) (i : Info)
      → Closed f i
      → Closed f (received q now r i)
  received-Closed f now r i = ground arith

  either-Closed :
      (f : Fence) (now : ℕ) (r : ResourceStatus) (i j : Info) (accepted : Bool)
      → (accepted ≡ true → Closed f i)
      → Closed f j
      → Closed f (received q now r (if accepted then i else j))
  either-Closed f now r i j true new old = received-Closed f now r i (new refl)
  either-Closed f now r i j false new old = received-Closed f now r j old

  accepts-repeats :
      (f : Fence) (c : Option ResourceStatus) (r : ResourceStatus)
      → at_fence f r ≡ true
      → accepts_heartbeat f c r ≡ true
      → repeats c r ≡ true
  unfolding accepts_heartbeat
  accepts-repeats f c r late e = cc (late, e)

  apply_resources-Closed :
      (a : AdmissionStatus) (now : ℕ) (f : Fence) (i : Info)
      → Closed f i
      → (o : Option ResourceStatus) → a.resources ≡ o
      → behind f o ≡ true
      → (c : Option ResourceStatus) → i.admission.resources ≡ c
      → Closed f (apply_resources q a now i c o)
  unfolding apply_resources
  apply_resources-Closed a now f i (closed, fenced) none e late none k = (rw (e) refl, fenced)
  apply_resources-Closed a now f i (closed, fenced) none e late (some c) k = (closed, fenced)
  apply_resources-Closed a now f i (closed, fenced) (some r) e late c k =
      either-Closed f now r (record i { admission = a }) i (accepts_heartbeat i.resource_fence c r)
        (λ ok. (
          rw (e) (
              repeats-closed c r (accepts-repeats i.resource_fence c r (rw (fenced) late) ok)
                (rw (← k) closed)),
          fenced,
        ))
        (closed, fenced)

  pub ledger-Closed : (f : Fence) (i : Info) → Closed f i → Closed f (apply_admission_resources q i)
  unfolding apply_admission_resources
  ledger-Closed f i (closed, fenced) =
      let (same, same_fence) = ledger_of-kept q i i.admission.resources in
      (rw (same) closed, same_fence ∙ fenced)

  cached-Closed :
      (normalize : List String → List String) (c : CacheSnapshot) (f : Fence) (i : Info)
      → Closed f i
      → Closed f (apply_cache q normalize c i)
  cached-Closed normalize c f i (closed, fenced) =
      let (same, same_fence, _, _) = cache-kept q normalize c i in
      (rw (same) closed, same_fence ∙ fenced)

  pub cleared-Closed : (f : Fence) (i : Info) → Closed f i → Closed f (lift_rejection q i)
  cleared-Closed f i = ground arith

  accept_heartbeat-Closed :
      (normalize : List String → List String) (h : HeartbeatResponse) (now : ℕ) (f : Fence)
      (i : Info)
      → behind f h.admission.resources ≡ true
      → Closed f i
      → Closed f (accept_heartbeat q normalize h now i)
  unfolding accept_heartbeat apply_heartbeat_admission
  accept_heartbeat-Closed normalize h now f i late closed =
      let ready = with_facts q h i in
      let admitted = apply_heartbeat_admission q h.admission now ready in
      let known = with_profile q h (apply_admission_resources q admitted) in
      let cached = apply_cache q normalize h.cache known in
      cleared-Closed f (stamped q h now cached) (
        cached-Closed normalize h.cache f known (
          ledger-Closed f admitted (
            apply_resources-Closed h.admission now f ready closed h.admission.resources refl late
              i.admission.resources refl)))

  unfoldable pub accept_heartbeats :
      (List String → List String) → List (HeartbeatResponse × ℕ) → Info → Info
  accept_heartbeats normalize [] i = i
  accept_heartbeats normalize ((h, now) ∷ hs) i =
      accept_heartbeats normalize hs (accept_heartbeat q normalize h now i)

  abbrev pub Behind : Fence → HeartbeatResponse × ℕ → Type 0
  Behind f (h, now) = behind f h.admission.resources ≡ true

  pub accept_heartbeats-Closed :
      (normalize : List String → List String) (hs : List (HeartbeatResponse × ℕ)) (f : Fence)
      (i : Info)
      → All (Behind f) hs
      → Closed f i
      → Closed f (accept_heartbeats normalize hs i)
  unfolding accept_heartbeats
  accept_heartbeats-Closed normalize [] f i late closed = closed
  accept_heartbeats-Closed normalize ((h, now) ∷ hs) f i (late, rest) closed =
      accept_heartbeats-Closed normalize hs f _ rest
        (accept_heartbeat-Closed normalize h now f i late closed)
