-- ===== src/Ws.antt =====
-- feishu/ws: the long connection, its frames, and the messages that come in several of them.
pub mod Wire
pub mod Frame
pub mod Client
pub mod Ack
pub mod Reconnect
pub mod Tests
