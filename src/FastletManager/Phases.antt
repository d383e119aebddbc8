-- ===== src/FastletManager/Phases.antt =====
-- internal/fastlet/sandbox/states.go, and what admission.go makes of each phase.
pub mod Observations
use fast_sandbox.Base.{ℕ, Bool, true, false, not, ◌&&◌, String, ◌==◌, text_equality, if◌then◌else◌}

pub data Phase : Type 0 where
  creating deleting action_pending action_unavailable create_failed create_cleanup : Phase
  create_cleanup_failed delete_failed runtime_failure_cleanup runtime_failed : Phase
  image_pending infra_pending initializing_infra infra_unavailable route_pending : Phase
  publishing_route route_unavailable running terminating unknown_phase : Phase
  -- A text that is none of the constants, as a recovered record may have.
  other_phase : String → Phase

pub data RuntimeState : Type 0 where
  runtime_unknown runtime_creating runtime_ready_state runtime_stopping : RuntimeState
  runtime_failed_state runtime_pending runtime_stopped runtime_unavailable : RuntimeState

pub data DataPlaneState : Type 0 where
  plane_unknown plane_pending plane_publishing plane_ready plane_unavailable : DataPlaneState
  plane_draining plane_failed : DataPlaneState

unfoldable pub runtime_created_phase : Phase → Bool
runtime_created_phase infra_pending = true
runtime_created_phase initializing_infra = true
runtime_created_phase infra_unavailable = true
runtime_created_phase route_pending = true
runtime_created_phase publishing_route = true
runtime_created_phase route_unavailable = true
runtime_created_phase action_pending = true
runtime_created_phase action_unavailable = true
runtime_created_phase running = true
runtime_created_phase _ = false

-- The column of the admission status that a Sandbox counts in.
pub data Column : Type 0 where
  column_creating column_deleting column_running column_none : Column

unfoldable pub column_of : Phase → Column
column_of creating = column_creating
column_of image_pending = column_creating
column_of infra_pending = column_creating
column_of initializing_infra = column_creating
column_of infra_unavailable = column_creating
column_of route_pending = column_creating
column_of publishing_route = column_creating
column_of route_unavailable = column_creating
column_of action_pending = column_creating
column_of action_unavailable = column_creating
column_of terminating = column_deleting
column_of deleting = column_deleting
column_of delete_failed = column_deleting
column_of create_cleanup = column_deleting
column_of create_cleanup_failed = column_deleting
column_of runtime_failure_cleanup = column_deleting
column_of create_failed = column_none
column_of runtime_failed = column_none
column_of _ = column_running

-- `Phase != create-failed && Phase != runtime-failed`
unfoldable pub occupies : Phase → Bool
occupies create_failed = false
occupies runtime_failed = false
occupies _ = true

unfoldable pub route_ready_for_phase : Phase → Bool
route_ready_for_phase running = true
route_ready_for_phase action_pending = true
route_ready_for_phase action_unavailable = true
route_ready_for_phase _ = false

-- The states of the switch in `observationsForPhase`; its messages are left out.
unfoldable pub states_of : Phase → RuntimeState × DataPlaneState
states_of creating = (runtime_creating, plane_pending)
states_of image_pending = (runtime_creating, plane_pending)
states_of create_failed = (runtime_failed_state, plane_failed)
states_of runtime_failure_cleanup = (runtime_failed_state, plane_failed)
states_of runtime_failed = (runtime_failed_state, plane_failed)
states_of infra_pending = (runtime_ready_state, plane_publishing)
states_of initializing_infra = (runtime_ready_state, plane_publishing)
states_of route_pending = (runtime_ready_state, plane_publishing)
states_of publishing_route = (runtime_ready_state, plane_publishing)
states_of infra_unavailable = (runtime_ready_state, plane_unavailable)
states_of route_unavailable = (runtime_ready_state, plane_unavailable)
states_of action_pending = (runtime_ready_state, plane_ready)
states_of action_unavailable = (runtime_ready_state, plane_ready)
states_of running = (runtime_ready_state, plane_ready)
states_of terminating = (runtime_stopping, plane_draining)
states_of deleting = (runtime_stopping, plane_draining)
states_of create_cleanup = (runtime_stopping, plane_draining)
states_of delete_failed = (runtime_failed_state, plane_failed)
states_of create_cleanup_failed = (runtime_failed_state, plane_failed)
states_of _ = (runtime_failed_state, plane_failed)

abbrev pub without_route : Bool → DataPlaneState → DataPlaneState
without_route false plane_ready = plane_unavailable
without_route _ state = state

unfoldable pub observations_for_phase : Phase → Bool → RuntimeState × DataPlaneState
unfolding states_of
observations_for_phase phase route_ready =
    let (runtime, plane) = states_of phase in (runtime, without_route route_ready plane)

-- What `sandboxStatusLocked` reports, where `published` is `m.routePublisher == nil || m.routeReady`.
unfoldable pub reported : Bool → Phase → RuntimeState × DataPlaneState
unfolding observations_for_phase route_ready_for_phase
reported published phase = observations_for_phase phase (published && route_ready_for_phase phase)
