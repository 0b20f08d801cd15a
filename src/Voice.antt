-- ===== src/Voice.antt =====
-- app/services/voice: who is in which voice channel, the evidence of the reconciler, the keys of the
-- channels, the joins that are pending and the ids to resume with.
pub mod Sessions
pub mod Evidence
pub mod Keys
pub mod PendingJoin
pub mod Resume
