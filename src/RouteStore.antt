-- ===== src/RouteStore.antt =====
-- internal/dataplane/fastletproxy/store.go and internal/dataplane/contract/access.go: the
-- generation-fenced route store of the Fastlet Proxy. `writeMu` makes each operation one step.
pub mod Routes
pub mod Operations
pub mod Cases
pub mod Invariant
pub mod Fence
pub mod Serving
pub mod Watch
pub mod Listing
