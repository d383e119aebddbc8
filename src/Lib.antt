-- ===== src/Lib.antt =====
-- fast-sandbox: the control-plane and data-plane state machines that decide which Fastlet gets a Sandbox,
-- which runtime generation serves it, and what a node agent has promised.
--
-- A request for a Sandbox is placed by a FastPath replica, which ranks Fastlets by its own view of them
-- (Placement), records the choice in an annotation of the Sandbox (Assignment), reserves locally and
-- calls the Fastlet (Orchestrator), and after a definite rejection goes on to another (FastPath). The
-- Fastlet's manager (FastletManager) gives the Sandbox a place or refuses it, by its slots, its
-- resources, the tombstones of what it deleted, a drain, and the memory pressure that an observer
-- reports to it (Pressure). How many Fastlets a pool has, and which of them are drained and deleted, a
-- reconciler decides by what waits and by what the Fastlets report (PoolSizing). What a Fastlet runs or
-- ran lately it keeps from the image collector (Protection), and what a lost Fastlet left on its node
-- the Janitor deletes. The Fastlet's proxy serves the Sandbox by a route (RouteStore), which the control
-- plane replaces, drains and deletes by generation. On nodes with microVMs an agent keeps images pinned
-- and devices leased (AgentState), ordered by a journal from which it recovers.
--
-- Files and sources:
--   RouteStore: internal/dataplane/fastletproxy/store.go, internal/dataplane/contract/access.go. Routes
--     has the records and `validate`. Operations has `Apply` (apply_route), `MarkDraining`
--     (mark_draining), `Delete` (delete_route), `Lookup` (lookup_route), `Subscribe` (subscribe,
--     unsubscribe) and `publishLocked` (publish). Listing has `Snapshot` (snapshot_routes). Each is one
--     step, since writeMu serializes them. Cases, Invariant, Fence, Serving, Watch and Listing hold the
--     proofs.
--   AgentState: internal/runtime/firecracker/agent/state/leases.go and journal.go. Leases has the records
--     and the `apply` closures, Calls has `run` as the two critical sections before and after its side
--     effect (begin_run, end_run), `LeaseDevices` and `ReleaseDevices` before theirs, and
--     `rememberCompleted`. Replay has `recover`, `replayApply` and `bumpPin`. History lets the critical
--     sections of calls come in any order. Refs, Held, Tables, Effects, Mirror, Recoverable, Recovery,
--     ExactlyOnce and Ownership hold the proofs.
--   Placement: internal/controlplane/placement/registry.go, internal/protocol/fastlet/types.go. Types has
--     the records; Reserve has `ReserveLocal`, `ReleaseLocal`, `UpsertPod`, `RemoveIfPodUID` and the
--     reads; Heartbeat and ApplyHeartbeat have `ApplyHeartbeat`; Feedback has `RecordFeedback`; Capacity
--     has `ResourceSchedulability` and `EffectiveFreeCapacity`; TopK has `TopK`. Reservation, Fencing,
--     Closing, Rejection, Heartbeats, Headroom, Ranking and Selection hold the proofs.
--   ImageCache: internal/fastlet/cache/tracker.go, the inventory that a Fastlet tells its registries;
--     Agreement holds the proofs about a registry that polls it.
--   FastletManager: internal/fastlet/sandbox/admission.go, states.go, and of boot_lifecycle.go, manager.go
--     and actions.go what these call. Phases has the phases and `observationsForPhase`; Identity the
--     fences and tombstones; Records the manager's state and `admissionStatusLocked`; Resources
--     `resourceCapacityFailureLocked`; Create `createExistingLocked`; Reserve `reserveSandboxForCreate`
--     (reserve_sandbox), `commitRuntimeCreate`, what a failed creation leaves, and `parkForImageDelivery`;
--     Delete `DeleteSandboxContext` up to its handover, the end of `asyncDelete` and
--     `retryFailedCreateCleanup`; Drain `SetDraining` and `Ready`. Each is a step under the manager's
--     lock: a call that gives up the lock is several. The pointers that the code compares are addresses
--     into a store of objects, so an old worker finds that its Sandbox was replaced. History lets the
--     steps come in any order. Observations, Fences, Granted, Tombstones, Slots, Addresses and Draining
--     hold the proofs.
--   Pressure: internal/fastlet/resourceadmission/observer.go and `SetResourceAdmissionState`. Pressure has
--     the observer (observe, transition, run_observer); Counters, Windows and Mirror hold the proofs, in
--     which a history lists the latest observation first.
--   Assignment: internal/controlplane/assignment/assignment_annotation.go. Assignment has the envelope,
--     its checks and its annotation; Writes the client of the API server and `CASAssignmentAnnotation`,
--     Single `InitializeAssignmentAnnotationWithMetadata` and `RemoveAssignmentAnnotation`, each with what
--     others do between its read and its write. Annotations, Swap, Atomic and First hold the proofs.
--   Protection: internal/fastlet/cache/protection.go. Between two turns of a plan others may protect,
--     unprotect, keep hot and check images, but not replace a reason. Counts, Effects and Eviction hold
--     the proofs.
--   Janitor: internal/janitor/scanner.go, cleanup.go and controller.go. Janitor has `cleanupDecision`,
--     Worker `Scan`, `doCleanup`, `processNextItem` and `runWorker` on one item. Decision, and the end of
--     Worker, hold the proofs.
--   Ipam: internal/fastlet/network/ipam.go, the allocator of private addresses; Allocation holds the
--     proofs.
--   Orchestrator: internal/controlplane/orchestrator/orchestrator.go, of it `createRuntimeOnTarget`
--     (create_on_target) over the registry of Placement, `AssignmentForCandidate` and
--     `IsCandidateRejection`. Kept and InFlight hold the proofs.
--   FastPath: internal/controlplane/fastpath/server.go. Intent has `acceptCreateIntent`,
--     `loadExistingCreateIntent` and `CreateSandbox` from the selection of Fastlets on (create_sandbox);
--     FastPath itself `provisionRuntime` (provision_runtime) with
--     `advanceCreateAssignment`, `refreshCreateCandidates` and `finishRejectedCreate`. What it meets at
--     each Fastlet is given by the number tried before; it recurses on how many of the 32 attempts are
--     left, and a Fastlet that was tried is skipped without one. Budget, Attempts and Replay hold the proofs.
--   PoolSizing: internal/controlplane/reconciler/sandboxpool_controller.go. PoolSizing has
--     `additionalFastletsForDemands`; Scaling has `observeResourceAwareCapacity` (observe_capacity),
--     `planResourceAwareScaleWithDemand` (plan_scale) and `stabilizeResourceAwareScaleDown`; Selection has
--     `selectDrainTargets`; Draining has `reconcileDraining` up to its loop (decide_drains), `requestDrain`
--     and the tests of what a Fastlet reports, and Draining/Emptiness the body of the loop (follow_drain).
--     Calls of Kubernetes and of a Fastlet enter by their answers. Counts are integers: they are far below
--     the bounds of an int32. Packing, Excess, Shrinking, Stabilizing, Appending, both
--     Targets and Emptiness hold the proofs.
--   Base: tests, lists, dictionaries, integers and texts that all of these share.
--   Examples: the models at concrete inputs.
--
-- Parameters stand for code outside the repository: `is_ip` for `net.ParseIP`, Quantities for Kubernetes
-- quantities (QuantityLaws has what their documentation says of rounding), Floats, FloatOrder and Ratios
-- for `float64`, Codec for encoding/json, ApiServer for Kubernetes' API (ServerLaws has what it documents of
-- resource versions), Authority for what the janitor reads of it at one time, Limiter for client-go's rate
-- limiter, and, in the registry, the normalization of image names, which ImageCache models. `requests_of`
-- stands for `requestsForRuntimeConfig` of admission.go, what a configuration asks for. A Go map is an
-- association list, a time is a natural number whose zero is the zero time, and a deep copy is the value
-- itself. Every loop is structural recursion over a list, but for the walk over addresses, whose fuel is
-- the size of the prefix, and for the retries of a write, whose list of interferences has one entry for
-- each try.
--
-- Not modelled: HTTP and gRPC servers, Kubernetes clients, container and microVM drivers, the bytes of the
-- journal file, metrics and logs; of the manager its recovery at startup, its infra components, routes,
-- Action Bindings, snapshots and the revision of its resource ledger; of the pool's reconciler the sizing
-- by slots, the Pods it builds and the conditions it reports. `TopK` re-reads the chosen entries
-- after ranking; the model reads them once. The order in which Go visits a map is that of the list.
pub mod Base
pub mod RouteStore
pub mod AgentState
pub mod Placement
pub mod ImageCache
pub mod Ipam
pub mod Pressure
pub mod FastletManager
pub mod Assignment
pub mod Protection
pub mod Janitor
pub mod Orchestrator
pub mod FastPath
pub mod PoolSizing
pub mod Examples
