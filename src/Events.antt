-- ===== src/Events.antt =====
-- feishu/events: the inbox of events and the stores that keep it.
pub mod Job
pub mod Memory
pub mod Dispatcher
pub mod Runner
pub mod Seen
pub mod Tests
