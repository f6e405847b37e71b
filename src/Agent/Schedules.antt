-- ===== src/Agent/Schedules.antt =====
-- feishu/agent/scheduled.py: tasks that an agent runs at given times, and their runs.
pub mod Owners
pub mod Calendar
pub mod Next
pub mod Tables
pub mod Rows
pub mod Runs
pub mod Waits
pub mod Deliveries
pub mod Drafts
pub mod Manage
pub mod Listing
pub mod Due
pub mod Lifecycle
pub mod Calls
pub mod Overlap
pub mod Finished
pub mod Claiming
pub mod Tests
