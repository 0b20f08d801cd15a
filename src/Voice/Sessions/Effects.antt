-- ===== src/Voice/Sessions/Effects.antt =====
-- What each method does to the participation that the two maps describe, and what it answers.
use kergit_server.Base.{
  ◌≡◌, refl, ◌≢◌, ◌↔◌, inl, inr, true, false, Option, none, some, arith, ite, dec_eq, nat_key,
  if◌then◌else◌, Bool-cases,
}
use kergit_server.Base.Map.{
  is_empty, find, put, erase, emplace, find-put, find-erase, find-empty, find-emplace,
  find_of_is_empty, nonempty_of_find, some_entry,
}
use kergit_server.Ids.{ChannelId, UserId, channel_id_key, user_id_key}
use kergit_server.Voice.Sessions.{
  VoiceSessionManager, SessionId, UserVoiceState, ParticipantState, Participants, or_new, no_state,
  drop_participant, leave_previous, join, leave_channel, leave, leave_current, leave_if_owner,
  transfer_owner_session, not_left, carried,
}
use kergit_server.Voice.Sessions.Participants.{participant, participant-put, participant-drop}
use kergit_server.Voice.Sessions.Invariant.{in_channel, IsConsistent}

-- The state that a user brings into a channel.
abbrev pub state_at_join :
    Option UserVoiceState → UserId → SessionId → VoiceSessionManager → ParticipantState
state_at_join none u s m = no_state
state_at_join (some o) u s m =
    ite (dec_eq o.owner_session s) (carried (participant o.channel u m.channels_)) no_state

-- Nobody but the user is in the channel.
abbrev pub NobodyElse : VoiceSessionManager → ChannelId → UserId → Type 0
NobodyElse m d u = (w : UserId) → u ≢ w → in_channel d (find w m.user_to_channel_) ≡ false

module _ (m : VoiceSessionManager) (v : IsConsistent m) where
  open m use {channels_ as channels, user_to_channel_ as users}

  others_stay :
      (old : Option UserVoiceState) (u : UserId) (s : SessionId) (c : ChannelId) (w : UserId)
      → find u users ≡ old
      → participant c w (leave_previous old u s channels).1
        ≡ ite (dec_eq u w) none (participant c w channels)
  unfolding leave_previous
  others_stay none u s c w e = ground (arith, v.agree c w)
  others_stay (some o) u s c w e = ground (
    arith,
    v.agree c w,
    participant-drop o.channel u channels (or_new (find o.channel channels)) c w refl,
  )

  carried_state :
      (old : Option UserVoiceState) (u : UserId) (s : SessionId)
      → (leave_previous old u s channels).0 ≡ state_at_join old u s m
  unfolding leave_previous
  carried_state none u s = refl
  carried_state (some o) u s = refl

  -- After `join` on a manager whose maps agree, the user is a participant of that channel and of
  -- no other, mapped to it and to the session; mute and deafen are kept if the same session had
  -- owned the user's voice, and are off otherwise. All other participants stay as they were.
  pub participant-join :
      (d : ChannelId) (u : UserId) (s : SessionId) (c : ChannelId) (w : UserId)
      → (participant c w (join d u s m).0.channels_
          ≡ ite
              (dec_eq u w)
              (ite (dec_eq d c) (some (state_at_join (find u users) u s m)) none)
              (participant c w channels))
        × (find w (join d u s m).0.user_to_channel_
            ≡ ite (dec_eq u w) (some (record { channel = d; owner_session = s })) (find w users))
  unfolding join
  participant-join d u s c w =
      let before = leave_previous (find u users) u s channels in
      let ps = or_new (find d before.1) in
      (
        ground (
          arith,
          others_stay (find u users) u s c w refl,
          others_stay (find u users) u s d u refl,
          carried_state (find u users) u s,
          participant-put d u before.1 (emplace u before.0 ps) c w,
          find-emplace u w before.0 ps,
        ),
        find-put u w (record { channel = d; owner_session = s }) users,
      )

  alone_if_empty :
      (d : ChannelId) (u : UserId) (s : SessionId) → (join d u s m).1 ≡ true → NobodyElse m d u
  unfolding join
  alone_if_empty d u s h w n =
      let before = leave_previous (find u users) u s channels in
      ground (
        arith,
        v.agree d w,
        others_stay (find u users) u s d w refl,
        find_of_is_empty w (or_new (find d before.1)),
      )

  empty_if_alone :
      (d : ChannelId) (u : UserId) (s : SessionId) → NobodyElse m d u → (join d u s m).1 ≡ true
  unfolding join
  empty_if_alone d u s alone =
      let before = leave_previous (find u users) u s channels in
      let ps = or_new (find d before.1) in
      elim (Bool-cases (is_empty ps)) [
        | inl e ↦ e
        | inr e ↦
            let (w, p, found) = some_entry ps e in
            absurd
              (ground (arith, found, v.agree d w, others_stay (find u users) u s d w refl, alone w))
      ]

  -- On a manager whose maps agree, `join` answers true exactly if no other user is in the channel.
  pub join_first :
      (d : ChannelId) (u : UserId) (s : SessionId) → ((join d u s m).1 ≡ true) ↔ NobodyElse m d u
  join_first d u s = (alone_if_empty d u s, empty_if_alone d u s)

  -- On a manager whose maps agree, `leave` removes the user, mapping and participant, exactly if
  -- the user is in that channel; a leave of another channel changes no participation.
  pub participant-leave :
      (d : ChannelId) (u : UserId) (c : ChannelId) (w : UserId)
      → (participant c w (leave d u m).0.channels_ ≡ (
          if in_channel d (find u users)
          then ite (dec_eq u w) none (participant c w channels)
          else participant c w channels))
        × (find w (leave d u m).0.user_to_channel_ ≡ (
            if in_channel d (find u users)
            then ite (dec_eq u w) none (find w users)
            else find w users))
  unfolding leave leave_channel
  participant-leave d u c w =
      let ps = or_new (find d channels) in
      (
        ground (
          arith,
          v.agree c w,
          v.agree d u,
          find-empty {V = ParticipantState} u,
          participant-drop d u channels ps c w refl,
        ),
        ground (arith, find-erase u w users),
      )

  -- After a transfer of the voice of a user from one session to another, the old session can no
  -- longer take the user out of voice: its call changes nothing. The new one takes the user out of
  -- the same channel: then the user has no mapping and is a participant of no channel, and nobody
  -- else's participation or mapping changes.
  pub transfer_revokes :
      (u : UserId) (o : UserVoiceState) (t : SessionId) (c : ChannelId) (w : UserId)
      → find u users ≡ some o
      → o.owner_session ≢ t
      → let m' = (transfer_owner_session u o.owner_session t m).0 in
        (leave_if_owner u o.owner_session m' ≡ (m', not_left))
        × ((leave_if_owner u t m').1.left ≡ some o.channel)
        × (participant c w (leave_if_owner u t m').0.channels_
            ≡ ite (dec_eq u w) none (participant c w channels))
        × (find w (leave_if_owner u t m').0.user_to_channel_ ≡ ite (dec_eq u w) none (find w users))
  unfolding transfer_owner_session leave_if_owner leave_current
  transfer_revokes u o t c w e n =
      let next : UserVoiceState = record o { owner_session = t } in
      let ps = or_new (find o.channel channels) in
      (
        ground (arith, e, find-put u u next users, n),
        ground (arith, e, find-put u u next users),
        ground (
          arith,
          e,
          find-put u u next users,
          v.agree c w,
          v.agree o.channel u,
          find-empty {V = ParticipantState} u,
          participant-drop o.channel u channels ps c w refl,
        ),
        ground (
          arith,
          e,
          find-put u u next users,
          find-put u w next users,
          find-erase u w (put u next users),
        ),
      )

  -- Erasing somebody who is not there empties nothing.
  stray_erase :
      (d : ChannelId) (u : UserId) (ps : Participants)
      → find d channels ≡ some ps
      → find u ps ≡ none
      → is_empty (erase u ps) ≡ false
  stray_erase d u ps e n =
      let (w, p, found) = some_entry ps (v.inhabited.inhabited d ps e) in
      nonempty_of_find w (erase u ps) (ground (arith, found, find-erase u w ps))

  left_if_emptied :
      (d : ChannelId) (u : UserId) → (leave d u m).1 ≡ true → in_channel d (find u users) ≡ true
  unfolding leave leave_channel drop_participant
  left_if_emptied d u h = ground (arith, v.agree d u, stray_erase d u (or_new (find d channels)))

  alone_if_emptied : (d : ChannelId) (u : UserId) → (leave d u m).1 ≡ true → NobodyElse m d u
  unfolding leave leave_channel drop_participant
  alone_if_emptied d u h w n =
      let ps = or_new (find d channels) in
      ground (arith, v.agree d w, find_of_is_empty w (erase u ps), find-erase u w ps)

  emptied_if_alone :
      (d : ChannelId) (u : UserId)
      → in_channel d (find u users) ≡ true
      → NobodyElse m d u
      → (leave d u m).1 ≡ true
  unfolding leave leave_channel drop_participant
  emptied_if_alone d u h alone =
      let ps = or_new (find d channels) in
      elim (Bool-cases (is_empty (erase u ps))) [
        | inl e ↦ ground (arith, v.agree d u, find-empty {V = ParticipantState} u)
        | inr e ↦
            let (w, p, found) = some_entry (erase u ps) e in
            absurd (ground (arith, found, v.agree d w, alone w, find-erase u w ps))
      ]

  -- On a manager whose maps agree, `leave` answers that the channel became empty exactly if the
  -- user was in it and nobody else was.
  pub leave_emptied :
      (d : ChannelId) (u : UserId)
      → ((leave d u m).1 ≡ true) ↔ ((in_channel d (find u users) ≡ true) × NobodyElse m d u)
  leave_emptied d u =
      (λ h. (left_if_emptied d u h, alone_if_emptied d u h), λ h. emptied_if_alone d u h.0 h.1)
