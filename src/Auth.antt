-- ===== src/Auth.antt =====
-- src/auth: the credentials of outbound calls.
pub mod AuthManager
