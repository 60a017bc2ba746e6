-- ===== src/Auth.antt =====
-- internal/api/auth.go and internal/db/user.go: users, API tokens, sessions, and the middleware
-- that stands before every handler. bcrypt, SHA-256, new UUIDs and random bytes are parameters.
pub mod Users
pub mod Sessions
pub mod Access
pub mod Guarded
pub mod Lifetime
pub mod Limit
