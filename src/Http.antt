-- ===== src/Http.antt =====
-- feishu/_transport.py and feishu/errors.py: requests, their retries, and the errors they end with.
pub mod Errors
pub mod Classify
pub mod Permission
pub mod Retry
pub mod Send
pub mod Request
pub mod Tests
