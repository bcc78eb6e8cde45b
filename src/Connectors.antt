-- ===== src/Connectors.antt =====
-- backend/app/connectors
pub mod Connection
pub mod Policy
pub mod Board
pub mod Service
pub mod Me
