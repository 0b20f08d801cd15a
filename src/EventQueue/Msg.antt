-- ===== src/EventQueue/Msg.antt =====
-- app/queue/Msg.h, with the message types of proto/envelope.proto.
use kergit_server.Base.{ℕ, String}
use kergit_server.Ids.{GlobalConnId, UserId}

pub data EnvelopeType : Type 0 where
  unknown command_error ping pong ack : EnvelopeType
  auth auth_ok request_state_sync state_sync state_delta rt_signal : EnvelopeType
  typing active_channel voice_join voice_kick_participant voice_activity : EnvelopeType
  voice_token_issued voice_self_status voice_self_revoked voice_key_update : EnvelopeType
  message_send message_fetch_before : EnvelopeType
  hub_create hub_join hub_create_join_code hub_leave hub_remove hub_member_kick : EnvelopeType
  hub_update hub_member_role_update hub_invite_validate user_update : EnvelopeType
  channel_create channel_update channel_remove : EnvelopeType

-- The envelope's type, and the rest of the envelope with its parsed payload.
pub record Payload (P : Type 0) : Type 0 where
  pub env_type : EnvelopeType
  pub body : P

pub data Event (P : Type 0) : Type 0 where
  connection : GlobalConnId → UserId → Event P
  disconnection : GlobalConnId → ℕ → String → Event P
  message : GlobalConnId → Payload P → Event P

pub data EventPriority : Type 0 where
  high low : EventPriority

pub data PushResult : Type 0 where
  ok dropped_low dropped_high : PushResult

classify_type : EnvelopeType → EventPriority
classify_type typing = low
classify_type voice_activity = low
classify_type voice_join = high
classify_type _ = high

unfoldable pub classify_event : {P : Type 0} → Event P → EventPriority
unfolding classify_type
classify_event (message c p) = classify_type p.env_type
classify_event (connection c u) = high
classify_event (disconnection c code reason) = high
