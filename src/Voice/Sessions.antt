-- ===== src/Voice/Sessions.antt =====
-- app/services/voice/VoiceSessionManager: the source of truth for voice participation.
--
-- Each method of the class is one function; `mutex_` makes it one step. A method that changes the
-- state returns the new state and its result.
pub mod Participants
pub mod Queries
pub mod Invariant
pub mod Effects
mod Tests
use kergit_server.Base.{
  nat_key, ℕ, Bool, true, false, ◌||◌, Option, none, some, List, [], ◌∷◌, map, ite, dec_eq,
  if◌then◌else◌,
}
use mathlib.Core.Option
use kergit_server.Base.Map.{Map, empty, is_empty, size, keys, find, contains, put, emplace, erase}
use kergit_server.Ids.{ChannelId, UserId, channel_id_key, user_id_key}

abbrev pub SessionId : Type 0
SessionId = ℕ

pub record ParticipantState : Type 0 where
  pub muted : Bool
  pub deafened : Bool

pub record UserVoiceState : Type 0 where
  pub channel : ChannelId
  pub owner_session : SessionId

abbrev pub Participants : Type 0
Participants = Map UserId ParticipantState

abbrev pub Channels : Type 0
Channels = Map ChannelId Participants

pub record VoiceSessionManager : Type 0 where
  pub channels_ : Channels
  pub user_to_channel_ : Map UserId UserVoiceState

pub init : VoiceSessionManager
init = record { channels_ = empty; user_to_channel_ = empty }

abbrev pub no_state : ParticipantState
no_state = record { muted = false; deafened = false }

-- `channels_[channel]` on a channel that may be missing.
abbrev pub or_new : Option Participants → Participants
or_new none = empty
or_new (some ps) = ps

-- Erase the user from the participants of a channel, and the channel when it becomes empty.
unfoldable pub drop_participant : ChannelId → UserId → Participants → Channels → Channels × Bool
drop_participant channel user ps channels =
    let rest = erase user ps in
    if is_empty rest then (erase channel channels, true) else (put channel rest channels, false)

abbrev pub carried : Option ParticipantState → ParticipantState
carried none = no_state
carried (some s) = s

-- The first half of `join`: the state to carry over, and the channels without the user.
unfoldable pub leave_previous :
    Option UserVoiceState → UserId → SessionId → Channels → ParticipantState × Channels
unfolding drop_participant
leave_previous none user session channels = (no_state, channels)
leave_previous (some old) user session channels =
    let ps = or_new (find old.channel channels) in
    let carry = ite (dec_eq old.owner_session session) (carried (find user ps)) no_state in
    (carry, (drop_participant old.channel user ps channels).0)

unfoldable pub join :
    ChannelId → UserId → SessionId → VoiceSessionManager → VoiceSessionManager × Bool
unfolding leave_previous
join channel user session m =
    let (carry, channels) =
      leave_previous (find user m.user_to_channel_) user session m.channels_ in
    let ps = or_new (find channel channels) in
    (
      record {
        channels_ = put channel (emplace user carry ps) channels;
        user_to_channel_ =
            put user (record { channel = channel; owner_session = session }) m.user_to_channel_;
      },
      is_empty ps,
    )

-- The end of `leave`, once the user has no mapping to another channel.
unfoldable pub leave_channel : ChannelId → UserId → VoiceSessionManager → VoiceSessionManager × Bool
unfolding drop_participant
leave_channel channel user m = elim (find channel m.channels_) [
  | none ↦ (m, false)
  | some ps ↦
      let (channels, emptied) = drop_participant channel user ps m.channels_ in
      (record m { channels_ = channels }, emptied)
]

unfoldable pub leave : ChannelId → UserId → VoiceSessionManager → VoiceSessionManager × Bool
unfolding leave_channel
leave channel user m = elim (find user m.user_to_channel_) [
  | none ↦ leave_channel channel user m
  | some s ↦
      ite (dec_eq s.channel channel)
        (leave_channel channel user (record m { user_to_channel_ = erase user m.user_to_channel_ }))
        (m, false)
]

pub record LeaveResult : Type 0 where
  pub left : Option ChannelId
  pub became_empty : Bool

-- The common end of `leave_user` and `leave_if_owner`; a missing channel counts as emptied.
unfoldable pub leave_current :
    ChannelId → UserId → VoiceSessionManager → VoiceSessionManager × LeaveResult
unfolding drop_participant
leave_current channel user m =
    let users = erase user m.user_to_channel_ in
    elim (find channel m.channels_) [
      | none ↦ (
        record m { user_to_channel_ = users },
        record { left = some channel; became_empty = true },
      )
      | some ps ↦
          let (channels, emptied) = drop_participant channel user ps m.channels_ in
          (
            record { channels_ = channels; user_to_channel_ = users },
            record { left = some channel; became_empty = emptied },
          )
    ]

abbrev pub not_left : LeaveResult
not_left = record { left = none; became_empty = false }

unfoldable pub leave_user : UserId → VoiceSessionManager → VoiceSessionManager × LeaveResult
unfolding leave_current
leave_user user m = elim (find user m.user_to_channel_) [
  | none ↦ (m, not_left)
  | some s ↦ leave_current s.channel user m
]

-- `removed` of the source is `is_some` of `left`.
unfoldable pub leave_if_owner :
    UserId → SessionId → VoiceSessionManager → VoiceSessionManager × LeaveResult
unfolding leave_current
leave_if_owner user expected m = elim (find user m.user_to_channel_) [
  | none ↦ (m, not_left)
  | some s ↦ ite (dec_eq s.owner_session expected) (leave_current s.channel user m) (m, not_left)
]

-- The lookups that `set_muted` and `set_deafened` share; what is missing changes nothing.
unfoldable pub update_participant :
    UserId
    → (ParticipantState → ParticipantState × Bool)
    → VoiceSessionManager
    → VoiceSessionManager × Bool
update_participant user f m = elim (find user m.user_to_channel_) [
  | none ↦ (m, false)
  | some s ↦ elim (find s.channel m.channels_) [
    | none ↦ (m, false)
    | some ps ↦ elim (find user ps) [
      | none ↦ (m, false)
      | some p ↦
          let (p', changed) = f p in
          (record m { channels_ = put s.channel (put user p' ps) m.channels_ }, changed)
    ]
  ]
]

abbrev pub differ : Bool → Bool → Bool
differ true true = false
differ false false = false
differ _ _ = true

pub mute : Bool → ParticipantState → ParticipantState × Bool
mute muted p = (record p { muted = muted }, differ p.muted muted)

-- Deafening also mutes, and undeafening also unmutes.
pub deafen : Bool → ParticipantState → ParticipantState × Bool
deafen deafened p = (
  record { muted = deafened; deafened = deafened },
  differ p.deafened deafened || differ p.muted deafened,
)

unfoldable pub set_muted : UserId → Bool → VoiceSessionManager → VoiceSessionManager × Bool
unfolding update_participant mute
set_muted user muted = update_participant user (mute muted)

unfoldable pub set_deafened : UserId → Bool → VoiceSessionManager → VoiceSessionManager × Bool
unfolding update_participant deafen
set_deafened user deafened = update_participant user (deafen deafened)

abbrev pub user_channel : UserId → VoiceSessionManager → Option ChannelId
user_channel user m = Option.map (λ s. s.channel) (find user m.user_to_channel_)

abbrev pub user_session : UserId → VoiceSessionManager → Option SessionId
user_session user m = Option.map (λ s. s.owner_session) (find user m.user_to_channel_)

unfoldable pub transfer_owner_session :
    UserId → SessionId → SessionId → VoiceSessionManager → VoiceSessionManager × Bool
transfer_owner_session user expected next m = elim (find user m.user_to_channel_) [
  | none ↦ (m, false)
  | some s ↦
      ite (dec_eq s.owner_session expected)
        (
          record m {
            user_to_channel_ = put user (record s { owner_session = next }) m.user_to_channel_;
          },
          true,
        )
        (m, false)
]

-- One round of the loop of `clear_channel`.
unfoldable pub unmap : ChannelId → UserId → Map UserId UserVoiceState → Map UserId UserVoiceState
unmap channel user users = elim (find user users) [
  | none ↦ users
  | some s ↦ ite (dec_eq s.channel channel) (erase user users) users
]

unfoldable pub unmap_all :
    ChannelId → List UserId → Map UserId UserVoiceState → Map UserId UserVoiceState
unfolding unmap
unmap_all channel [] users = users
unmap_all channel (u ∷ us) users = unmap_all channel us (unmap channel u users)

unfoldable pub clear_channel : ChannelId → VoiceSessionManager → VoiceSessionManager × List UserId
unfolding unmap_all
clear_channel channel m = elim (find channel m.channels_) [
  | none ↦ (m, [])
  | some ps ↦ (
    record {
      channels_ = erase channel m.channels_;
      user_to_channel_ = unmap_all channel (keys ps) m.user_to_channel_;
    },
    keys ps,
  )
]

-- The calls that change the state.
pub data Call : Type 0 where
  joins : ChannelId → UserId → SessionId → Call
  leaves : ChannelId → UserId → Call
  leaves_any : UserId → Call
  leaves_if_owner : UserId → SessionId → Call
  mutes deafens : UserId → Bool → Call
  transfers : UserId → SessionId → SessionId → Call
  clears : ChannelId → Call

unfoldable pub step : Call → VoiceSessionManager → VoiceSessionManager
step (joins c u s) m = (join c u s m).0
step (leaves c u) m = (leave c u m).0
step (leaves_any u) m = (leave_user u m).0
step (leaves_if_owner u s) m = (leave_if_owner u s m).0
step (mutes u b) m = (set_muted u b m).0
step (deafens u b) m = (set_deafened u b m).0
step (transfers u s t) m = (transfer_owner_session u s t m).0
step (clears c) m = (clear_channel c m).0

unfoldable pub run : List Call → VoiceSessionManager → VoiceSessionManager
unfolding step
run [] m = m
run (c ∷ cs) m = run cs (step c m)
