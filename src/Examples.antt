-- ===== src/Examples.antt =====
-- Runs of the models at concrete inputs.
mod Routes
mod Agent
mod Samples
mod Fastlets
mod Images
mod Addresses
mod Memory
mod Sandboxes
mod Assignments
mod Protections
mod Orphans
mod Pools
mod Creates
