-- ===== src/Access.antt =====
-- backend/app/access: who may retrieve an ingested message, and who may widen that.
pub mod Normalize
pub mod Grants
pub mod Email
pub mod Promotion
pub mod Projection
