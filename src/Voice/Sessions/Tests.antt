-- ===== src/Voice/Sessions/Tests.antt =====
-- Two users, two channels: a join, a switch that carries the mute, a takeover by another session.
use kergit_server.Base.{
  ◌≡◌, refl, ite, dec_eq, true, false, none, some, List, [], ◌∷◌, arith, ℕ_discrete,
}
use kergit_server.Base.Map.{find, put, emplace, erase, empty, is_empty}
use kergit_server.Ids.{
  ChannelId, UserId, channel_id_key, user_id_key, UserId_discrete, ChannelId_discrete,
}
use kergit_server.Voice.Sessions.{
  VoiceSessionManager, UserVoiceState, Call, init, join, leave, run, set_muted,
  transfer_owner_session, leave_if_owner, not_left,
}
use kergit_server.Voice.Sessions.Participants.{participant}
use kergit_server.Voice.Sessions.Invariant.{IsConsistent, init-IsConsistent, run-IsConsistent}
use kergit_server.Voice.Sessions.Effects.{state_at_join, participant-join, transfer_revokes}

abbrev alice : UserId
alice = record { value = "alice" }

abbrev bob : UserId
bob = record { value = "bob" }

abbrev lobby : ChannelId
lobby = record { value = "lobby" }

abbrev stage : ChannelId
stage = record { value = "stage" }

abbrev history : List Call
history = Call.joins lobby alice 7 ∷ Call.joins lobby bob 8 ∷ Call.mutes alice true ∷ []

abbrev talking : VoiceSessionManager
talking = run history init

talking-IsConsistent : IsConsistent talking
talking-IsConsistent = run-IsConsistent history init init-IsConsistent

computing : Unit {0}
unfolding run init join set_muted find put emplace erase empty is_empty UserId_discrete
    ChannelId_discrete ℕ_discrete transfer_owner_session leave_if_owner leave
computing = tt

-- Alice is muted in the lobby, and stays so when the same session moves to the stage.
carried_mute :
    (participant lobby alice talking.channels_ ≡ some (record { muted = true; deafened = false }))
    × (participant stage alice (join stage alice 7 talking).0.channels_
        ≡ some (record { muted = true; deafened = false }))
    × (participant stage alice (join stage alice 9 talking).0.channels_
        ≡ some (record { muted = false; deafened = false }))
unfolding computing
carried_mute = (refl, refl, refl)

run-IsConsistent_example : IsConsistent (run history init)
run-IsConsistent_example = run-IsConsistent history init init-IsConsistent

participant-join_example :
    (participant lobby bob (join stage alice 7 talking).0.channels_
      ≡ ite
          (dec_eq alice bob)
          (ite
            (dec_eq stage lobby)
            (some (state_at_join (find alice talking.user_to_channel_) alice 7 talking))
            none)
          (participant lobby bob talking.channels_))
    × (find bob (join stage alice 7 talking).0.user_to_channel_
        ≡ ite
            (dec_eq alice bob)
            (some (record { channel = stage; owner_session = 7 }))
            (find bob talking.user_to_channel_))
participant-join_example = participant-join talking talking-IsConsistent stage alice 7 lobby bob

abbrev in_lobby : UserVoiceState
in_lobby = record { channel = lobby; owner_session = 7 }

abbrev taken_over : VoiceSessionManager
taken_over = (transfer_owner_session alice 7 9 talking).0

transfer_revokes_example :
    (leave_if_owner alice 7 taken_over ≡ (taken_over, not_left))
    × ((leave_if_owner alice 9 taken_over).1.left ≡ some lobby)
    × (participant lobby alice (leave_if_owner alice 9 taken_over).0.channels_
        ≡ ite (dec_eq alice alice) none (participant lobby alice talking.channels_))
    × (find alice (leave_if_owner alice 9 taken_over).0.user_to_channel_
        ≡ ite (dec_eq alice alice) none (find alice talking.user_to_channel_))
unfolding computing
transfer_revokes_example =
    transfer_revokes talking talking-IsConsistent alice in_lobby 9 lobby alice refl (omega arith)
