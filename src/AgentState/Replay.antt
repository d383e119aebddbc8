-- ===== src/AgentState/Replay.antt =====
-- leases.go `recover`, `replayApply` and `bumpPin`: the tables rebuilt from the journal.
use fast_sandbox.Base.{
  ◌≡◌, refl, Option, none, some, List, [], ◌∷◌, ◌++◌, String, Dict, lookup, insert, remove, ◌==◌,
  text_equality, if◌then◌else◌, ℤ, pos, negsuc, ◌+ℤ◌,
}
use fast_sandbox.AgentState.Leases.{
  Op, pin_image, unpin_image, lease_devices, release_devices, unknown, Entry, Args, no_args, Result,
  State, empty_state, ImageRefs, refs_or_new, clamp, record_lease, forget_lease, completed_entry,
}

pub record Recovering : Type 0 where
  pub intents : Dict Entry
  pub state : State

abbrev pub fresh : Recovering
unfolding empty_state
fresh = record { intents = []; state = empty_state }

abbrev pub or_no_args : Option Args → Args
or_no_args none = no_args
or_no_args (some a) = a

unfoldable pub bumped : String → ℤ → Dict ImageRefs → Dict ImageRefs
bumped image delta images =
    let refs = refs_or_new (lookup image images) in
    insert image (record refs { pin_count = clamp (refs.pin_count +ℤ delta) }) images

-- `none` is the error that stops recovery.
unfoldable pub bump_pin : String → ℤ → State → Option State
bump_pin image delta s =
    if image == "" then none else some (record s { images = bumped image delta s.images })

abbrev unclamped : ℤ → ℤ
unclamped c = c

-- The `switch` on the operation.
unfoldable pub replay_effect : Op → Args → Result → State → Option State
replay_effect pin_image args r s = bump_pin args.image (pos 1) s
replay_effect unpin_image args r s = bump_pin args.image (negsuc 0) s
replay_effect lease_devices args r s = some (record_lease r.lease s)
replay_effect release_devices args r s = some (forget_lease unclamped args.lease_id s)
replay_effect (unknown _) args r s = none

abbrev pub complete_as : Entry → Result → State → State
complete_as intent r s = record s {
  completed = insert intent.request_id (completed_entry intent.op intent.pod_uid r) s.completed;
}

abbrev pub then_complete : Entry → Result → Option State → Option State
then_complete intent r none = none
then_complete intent r (some s) = some (complete_as intent r s)

unfoldable pub replay_apply : Entry → Result → State → Option State
unfolding replay_effect
replay_apply intent r s =
    then_complete intent r (replay_effect intent.op (or_no_args intent.args) r s)

abbrev pub with_state : Dict Entry → Option State → Option Recovering
with_state intents none = none
with_state intents (some s) = some (record { intents = intents; state = s })

unfoldable pub visit_result : String → Result → Recovering → Option Entry → Option Recovering
unfolding replay_apply
visit_result request_id r v none = some (record v { intents = remove request_id v.intents })
visit_result request_id r v (some intent) =
    with_state (remove request_id v.intents) (replay_apply intent r v.state)

unfoldable pub visit_line : Entry → Recovering → Option Result → Option Recovering
unfolding visit_result
visit_line e v none =
    if e.request_id == ""
    then some v
    else some (record v { intents = insert e.request_id e v.intents })
visit_line e v (some r) = visit_result e.request_id r v (lookup e.request_id v.intents)

unfoldable pub visit : Entry → Recovering → Option Recovering
unfolding visit_line
visit e v = visit_line e v e.result

abbrev pub visit_next : Entry → Option Recovering → Option Recovering
visit_next e none = none
visit_next e (some v) = visit e v

unfoldable pub replay : List Entry → Option Recovering → Option Recovering
replay [] v = v
replay (e ∷ es) v = replay es (visit_next e v)

abbrev pub state_of : Option Recovering → Option State
state_of none = none
state_of (some v) = some v.state

unfoldable pub recover : List Entry → Option State
unfolding replay
recover es = state_of (replay es (some fresh))

-- The last line is visited last.
pub replay-snoc :
    (es : List Entry) (e : Entry) (v : Option Recovering)
    → replay (es ++ e ∷ []) v ≡ visit_next e (replay es v)
unfolding replay
replay-snoc [] e v = refl
replay-snoc (a ∷ es) e v = replay-snoc es e (visit_next a v)
