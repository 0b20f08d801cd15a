-- ===== src/Voice/Keys/History.antt =====
-- Histories of calls of ChannelKeyService.cpp, those of other threads in the middle of a join
-- included, and the slots of the key ring they use.
use kergit_server.Base.{[]}
use kergit_server.Base.Map.{empty}
use kergit_server.Ids.{ChannelId, UserId}
use kergit_server.Livekit.Keys.{init}
use kergit_server.Redis.{Redis}
use kergit_server.Voice.Sessions.{VoiceSessionManager}
use kergit_server.Voice.Keys.{ChannelKeys, Setting, Meets, Replies, StorageKey}
use kergit_server.Voice.Keys.Calls.{
  acquire_for_join, rotate_and_broadcast, resync_to_user, clear_channel, restore_key_for_recovery,
}

-- The calls, first to last. A join has the calls that other threads make in its middle.
pub data Calls : Type 0 where
  done : Calls
  acquires : Meets → VoiceSessionManager → ChannelId → UserId → Calls → Calls → Calls
  rotates : Meets → ChannelId → Calls → Calls
  resyncs : Meets → VoiceSessionManager → UserId → Calls → Calls
  clears : Replies → ChannelId → Calls → Calls
  restores : Meets → ChannelId → Calls → Calls

-- The service as it is constructed, with what Redis holds.
unfoldable pub start : Redis StorageKey → ChannelKeys
start redis = record {
  e2ee_keys_ = init;
  redis_ = redis;
  join_rotate_seen_ = empty;
  published = [];
}

module _ (o : Setting) where
  unfoldable pub run : Calls → ChannelKeys → ChannelKeys
  unfolding acquire_for_join rotate_and_broadcast resync_to_user clear_channel
      restore_key_for_recovery
  run done s = s
  run (acquires e v c u between rest) s = run rest (acquire_for_join o e (run between) v c u s).1
  run (rotates e c rest) s = run rest (rotate_and_broadcast o e c s).1
  run (resyncs e v u rest) s = run rest (resync_to_user o e v u s)
  run (clears r c rest) s = run rest (clear_channel r c s)
  run (restores e c rest) s = run rest (restore_key_for_recovery o e c s)
