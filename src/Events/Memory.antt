-- ===== src/Events/Memory.antt =====
-- feishu/events/jobs.py: `InMemoryEventJobStore`. Each method holds the store's lock throughout, so
-- it is one step; a method that raises has changed nothing.
pub mod Store
pub mod Claim
pub mod Settle
pub mod Wakeup
pub mod Invariant
pub mod History
pub mod Claiming
pub mod Sleeping
