-- ===== src/Agent.antt =====
-- feishu/agent: the approvals that a user gives to what an agent would do.
pub mod Pending
pub mod Approvals
pub mod Authorizations
pub mod Sessions
pub mod Schedules
pub mod Tools
pub mod Turns
