-- ===== src/Auth.antt =====
-- feishu/auth: the tokens of an application.
pub mod Identity
pub mod Tokens
pub mod UserTokens
