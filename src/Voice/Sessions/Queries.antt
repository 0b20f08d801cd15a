-- ===== src/Voice/Sessions/Queries.antt =====
-- app/services/voice/VoiceSessionManager.cpp: the queries on the channels, and that they agree.
use kergit_server.Base.{ℕ, ◌≡◌, Bool, not, List, arith, Option-cases, inl, inr}
use kergit_server.Base.Map.{is_empty, is_empty-empty, size, keys, find, elem, elem-keys}
use kergit_server.Ids.{ChannelId, UserId, channel_id_key, user_id_key}
use kergit_server.Voice.Sessions.{VoiceSessionManager, ParticipantState, or_new}
use kergit_server.Voice.Sessions.Invariant.{in_channel, IsConsistent}

unfoldable pub participants_in_channel :
    ChannelId → VoiceSessionManager → List (UserId × ParticipantState)
participants_in_channel channel m = (or_new (find channel m.channels_)).entries

unfoldable pub users_in_channel : ChannelId → VoiceSessionManager → List UserId
users_in_channel channel m = keys (or_new (find channel m.channels_))

unfoldable pub active_voice_user_count : VoiceSessionManager → ℕ
active_voice_user_count m = size m.user_to_channel_

unfoldable pub active_channels : VoiceSessionManager → List ChannelId
active_channels m = keys m.channels_

unfoldable pub is_channel_empty : ChannelId → VoiceSessionManager → Bool
is_channel_empty channel m = is_empty (or_new (find channel m.channels_))

module _ (m : VoiceSessionManager) (v : IsConsistent m) where
  empty_or_active : (c : ChannelId) → is_channel_empty c m ≡ not (elem c (active_channels m))
  unfolding is_channel_empty active_channels
  empty_or_active c = elim (Option-cases (find c m.channels_)) [
    | inl e ↦ ground (arith, e, elem-keys c m.channels_, is_empty-empty UserId ParticipantState)
    | inr (ps, e) ↦ ground (arith, e, elem-keys c m.channels_, v.inhabited.inhabited c ps e)
  ]

  -- When the maps agree, `users_in_channel` lists a user exactly if the user's mapping names the
  -- channel, and `active_channels` lists a channel exactly if `is_empty` denies that it is empty.
  pub queries_agree :
      (c : ChannelId) (u : UserId)
      → (elem u (users_in_channel c m) ≡ in_channel c (find u m.user_to_channel_))
        × (is_channel_empty c m ≡ not (elem c (active_channels m)))
  unfolding users_in_channel
  queries_agree c u =
      (ground (arith, elem-keys u (or_new (find c m.channels_)), v.agree c u), empty_or_active c)
