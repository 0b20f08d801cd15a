-- ===== src/Message.antt =====
-- app/services/message: the write-behind queue to the database.
pub mod WriteQueue
