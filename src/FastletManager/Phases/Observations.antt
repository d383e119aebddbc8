-- ===== src/FastletManager/Phases/Observations.antt =====
-- What a phase lets the outside see.
use fast_sandbox.Base.{◌≡◌, ◌↔◌, Bool, true, ◌&&◌, arith}
use fast_sandbox.FastletManager.Phases.{
  Phase, runtime_ready_state, plane_ready, runtime_created_phase, route_ready_for_phase, reported,
  observations_for_phase, states_of,
}

-- In the status of a Sandbox that `sandboxStatusLocked` builds, the runtime is ready in exactly the phases
-- that `runtimeCreatedPhase` lists, and the data plane in exactly those that `routeReadyForPhase` lists,
-- and then only while the Fastlet Proxy's routes are published. (`GetSandboxStatuses` then overrides it
-- for a runtime that has stopped.)
pub reported-ready :
    (published : Bool) (phase : Phase)
    → (((reported published phase).0 ≡ runtime_ready_state) ↔ (runtime_created_phase phase ≡ true))
      × (((reported published phase).1 ≡ plane_ready)
          ↔ ((published && route_ready_for_phase phase) ≡ true))
unfolding reported runtime_created_phase route_ready_for_phase observations_for_phase states_of
reported-ready published phase = ground arith
