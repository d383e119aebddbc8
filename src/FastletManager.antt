-- ===== src/FastletManager.antt =====
-- internal/fastlet/sandbox: the manager that admits, commits and deletes the Sandboxes of one Fastlet.
--
-- Each region under the manager's lock is one function from state to state; the calls between the regions
-- (runtime, route publisher, Action Handler) are their results, which are arguments. A `*SandboxMetadata`
-- is an address in a store of objects, so that a stale pointer is told from the one that the map holds.
pub mod Phases
pub mod Identity
pub mod Records
pub mod Resources
pub mod Create
pub mod Reserve
pub mod Delete
pub mod Drain
pub mod Granted
pub mod History
pub mod Tombstones
pub mod Slots
pub mod Addresses
pub mod Draining
