-- ===== src/Voice/Evidence.antt =====
-- app/services/voice/ReconcileEvidenceTracker: a remote absence counts only when it is seen again
-- after `missing_ttl` seconds. Time is an argument, in the ticks of the steady clock.
pub mod Confirm
mod Tests
use kergit_server.Base.{
  ℕ, ◌+◌, Bool, true, false, not, ◌&&◌, Option, none, some, List, String, leb, ltb, ◌==◌,
  if◌then◌else◌,
}
use kergit_server.Base.Map.{Map, empty, is_empty, keys, find, put, erase}
use kergit_server.Ids.{ChannelId, UserId, channel_id_key, user_id_key}

pub record ReconcileQuerySummary : Type 0 where
  pub configured_queries : ℕ
  pub successful_queries : ℕ
  pub failed_queries : ℕ
  pub participant_count : ℕ

unfoldable pub all_queries_succeeded : ReconcileQuerySummary → Bool
all_queries_succeeded s =
    ltb 0 s.configured_queries
    && s.successful_queries == s.configured_queries
    && s.failed_queries == 0

unfoldable pub unanimously_absent : ReconcileQuerySummary → Bool
unfolding all_queries_succeeded
unanimously_absent s = all_queries_succeeded s && s.participant_count == 0

pub record MissingObservation : Type 0 where
  pub first_seen : ℕ
  pub reason : String

pub record ObservationResult : Type 0 where
  pub first_observation : Bool
  pub confirmed : Bool
  pub first_reason : String

abbrev pub ByUser : Type 0
ByUser = Map UserId MissingObservation

pub record Tracker : Type 0 where
  pub missing_ttl : ℕ
  pub missing_channels : Map ChannelId MissingObservation
  pub missing_participants : Map ChannelId ByUser

unfoldable pub init : ℕ → Tracker
init ttl = record { missing_ttl = ttl; missing_channels = empty; missing_participants = empty }

-- What an observation at `now` finds, given the entry that stood there.
unfoldable pub observe : ℕ → Option MissingObservation → String → ℕ → ObservationResult
observe ttl none reason now = record {
  first_observation = true;
  confirmed = false;
  first_reason = reason;
}
observe ttl (some o) reason now = record {
  first_observation = false;
  confirmed = leb (o.first_seen + ttl) now;
  first_reason = o.reason;
}

abbrev pub entry : Option MissingObservation → String → ℕ → MissingObservation
entry none reason now = record { first_seen = now; reason = reason }
entry (some o) reason now = o

unfoldable pub observe_channel_missing :
    ChannelId → String → ℕ → Tracker → Tracker × ObservationResult
unfolding observe
observe_channel_missing channel reason now t =
    let old = find channel t.missing_channels in
    let result = observe t.missing_ttl old reason now in
    if result.confirmed
    then (
      record t {
        missing_channels = erase channel t.missing_channels;
        missing_participants = erase channel t.missing_participants;
      },
      result,
    )
    else (
      record t { missing_channels = put channel (entry old reason now) t.missing_channels },
      result,
    )

abbrev pub or_new : Option ByUser → ByUser
or_new none = empty
or_new (some users) = users

-- Erase a user's entry, and the channel's table when it becomes empty.
unfoldable pub drop_user : ChannelId → UserId → ByUser → Map ChannelId ByUser → Map ChannelId ByUser
drop_user channel user users table =
    let rest = erase user users in
    if is_empty rest then erase channel table else put channel rest table

unfoldable pub observe_participant_missing :
    ChannelId → UserId → String → ℕ → Tracker → Tracker × ObservationResult
unfolding observe drop_user
observe_participant_missing channel user reason now t =
    let users = or_new (find channel t.missing_participants) in
    let old = find user users in
    let result = observe t.missing_ttl old reason now in
    if result.confirmed
    then (
      record t { missing_participants = drop_user channel user users t.missing_participants },
      result,
    )
    else (
      record t {
        missing_participants =
            put channel (put user (entry old reason now) users) t.missing_participants;
      },
      result,
    )

unfoldable pub clear_channel_missing : ChannelId → Tracker → Tracker
clear_channel_missing channel t = record t { missing_channels = erase channel t.missing_channels }

unfoldable pub clear_participant_missing : ChannelId → UserId → Tracker → Tracker
unfolding drop_user
clear_participant_missing channel user t = elim (find channel t.missing_participants) [
  | none ↦ t
  | some users ↦ record t {
    missing_participants = drop_user channel user users t.missing_participants;
  }
]

unfoldable pub reset_channel : ChannelId → Tracker → Tracker
reset_channel channel t = record t {
  missing_channels = erase channel t.missing_channels;
  missing_participants = erase channel t.missing_participants;
}

unfoldable pub reset_all : Tracker → Tracker
reset_all t = record t { missing_channels = empty; missing_participants = empty }

unfoldable pub tracked_missing_channels : Tracker → List ChannelId
tracked_missing_channels t = keys t.missing_channels
