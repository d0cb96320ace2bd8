-- ===== src/Auth.antt =====
-- Authentication (src/auth): the guard against password guessing, and sessions.
pub mod Lockout
pub mod Session
