-- ===== src/Placement.antt =====
-- internal/controlplane/placement: the scheduling view of one FastPath replica.
pub mod Quantity
pub mod Types
pub mod Reserve
pub mod Heartbeat
pub mod ApplyHeartbeat
pub mod Feedback
pub mod Capacity
pub mod TopK
pub mod Reservation
pub mod Fencing
pub mod Closing
pub mod Rejection
pub mod Heartbeats
pub mod Ranking
pub mod Selection
pub mod Headroom
