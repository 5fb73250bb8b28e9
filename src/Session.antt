-- ===== src/Session.antt =====
-- session/storage.go: session storage in memory and in signed cookies, and the values of
-- internal/sessionvalue/value.go.
pub mod Values
pub mod Memory
pub mod Revocation
pub mod Cookie
pub mod Managed
pub mod Examples
