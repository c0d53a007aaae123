-- ===== src/Auth.antt =====
-- internal/auth: login throttling and sessions, one child each. `password.go` is left out: it only
-- calls argon2.
pub mod Limiter
pub mod Sessions
