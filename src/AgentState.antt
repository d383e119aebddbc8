-- ===== src/AgentState.antt =====
-- internal/runtime/firecracker/agent/state/leases.go and journal.go: the lease table, reference counts
-- and idempotency cache of the node agent, ordered by a two-phase journal.
--
-- A journal line is modelled by the document that it holds; JSON gives a field that is absent its zero
-- value. Timestamps, which recovery does not read, are left out of the lines. `run` is two steps,
-- the critical sections before and after the side effect `do`, so that other calls can come between.
pub mod Leases
pub mod Calls
pub mod Refs
pub mod Held
pub mod Tables
pub mod Effects
pub mod History
pub mod Replay
pub mod Mirror
pub mod Recoverable
pub mod ExactlyOnce
pub mod Ownership
pub mod Recovery
