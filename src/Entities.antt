-- ===== src/Entities.antt =====
-- backend/app/entities: the people and the companies that a sync finds in the mail.
pub mod Cache
