-- ===== src/Identity.antt =====
-- backend/app/identity: the throttle in front of a login, the revocation of tokens, and the
-- consent that support access needs.
pub mod RateLimit
pub mod Denylist
pub mod Tokens
pub mod Support
pub mod Users
pub mod Realm
pub mod Platform
pub mod Login
pub mod Session
pub mod Console
pub mod Hooks
pub mod Erasure
