-- ===== src/Outbound.antt =====
-- net/outbound and net/connection: from the shared queue to the sockets.
pub mod Msg
pub mod Queue
pub mod Registry
pub mod Outbox
pub mod Worker
pub mod Heartbeat
