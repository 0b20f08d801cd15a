-- ===== src/Livekit.antt =====
-- livekit: the media servers, the rooms they hold, and the keys of the rooms.
pub mod Nodes
pub mod Keys
