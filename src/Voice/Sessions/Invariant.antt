-- ===== src/Voice/Sessions/Invariant.antt =====
-- The two maps of the manager describe the same participation.
use kergit_server.Base.{
  ◌≡◌, refl, Bool, true, false, Option, none, some, List, [], ◌∷◌, arith, ite, dec_eq, is_some, inl,
  inr, nat_key, if◌then◌else◌, ◌&&◌, Option-cases,
}
use kergit_server.Base.Map.{
  Map, find, put, erase, emplace, keys, find-put, find-erase, find-empty, find-emplace,
  nonempty-emplace, nonempty-put, elem, elem-keys,
}
use kergit_server.Ids.{ChannelId, UserId, channel_id_key, user_id_key}
use kergit_server.Voice.Sessions.{
  VoiceSessionManager, SessionId, UserVoiceState, ParticipantState, Participants, or_new,
  leave_previous, join, leave_channel, leave, leave_current, leave_user, leave_if_owner,
  update_participant, mute, deafen, set_muted, set_deafened, transfer_owner_session, clear_channel,
  unmap, unmap_all, Call, joins, leaves, leaves_any, leaves_if_owner, mutes, deafens, transfers,
  clears, step, run, init,
}
use kergit_server.Voice.Sessions.Participants.{
  participant, NoEmpty, participant-put, participant-drop, NoEmpty-drop, NoEmpty-put,
}

abbrev pub in_channel : ChannelId → Option UserVoiceState → Bool
in_channel c none = false
in_channel c (some s) = ite (dec_eq s.channel c) true false

pub record IsConsistent (m : VoiceSessionManager) : Type 0 where
  pub agree :
      (c : ChannelId) (u : UserId)
      → is_some (participant c u m.channels_) ≡ in_channel c (find u m.user_to_channel_)
  pub inhabited : NoEmpty m.channels_

module _ (m : VoiceSessionManager) (v : IsConsistent m) where
  open m use {channels_ as channels, user_to_channel_ as users}

  -- After `leave_previous` the user is in no channel, and the others stay.
  participant-leave_previous :
      (old : Option UserVoiceState) (u : UserId) (s : SessionId) (c : ChannelId) (w : UserId)
      → find u users ≡ old
      → is_some (participant c w (leave_previous old u s channels).1)
        ≡ ite (dec_eq u w) false (in_channel c (find w users))
  unfolding leave_previous
  participant-leave_previous none u s c w e = ground (arith, v.agree c w)
  participant-leave_previous (some o) u s c w e = ground (
    arith,
    v.agree c w,
    participant-drop o.channel u channels (or_new (find o.channel channels)) c w refl,
  )

  NoEmpty-leave_previous :
      (old : Option UserVoiceState) (u : UserId) (s : SessionId)
      → NoEmpty (leave_previous old u s channels).1
  unfolding leave_previous
  NoEmpty-leave_previous none u s = v.inhabited
  NoEmpty-leave_previous (some o) u s = NoEmpty-drop o.channel u channels _ v.inhabited

  pub join-IsConsistent :
      (d : ChannelId) (u : UserId) (s : SessionId) → IsConsistent (join d u s m).0
  unfolding join
  join-IsConsistent d u s =
      let before = leave_previous (find u users) u s channels in
      let ps = or_new (find d before.1) in
      record {
        agree = λ c w. ground (
          arith,
          participant-leave_previous (find u users) u s c w refl,
          participant-put d u before.1 (emplace u before.0 ps) c w,
          find-emplace u w before.0 ps,
          find-put u w (record { channel = d; owner_session = s }) users,
        );
        inhabited =
            NoEmpty-put d u before.1 (emplace u before.0 ps) (nonempty-emplace u before.0 ps)
              (NoEmpty-leave_previous (find u users) u s);
      }

  abbrev unmapped : UserId → VoiceSessionManager
  unmapped u = record m { user_to_channel_ = erase u users }

  leave_channel-IsConsistent :
      (d : ChannelId) (u : UserId)
      → in_channel d (find u users) ≡ true
      → IsConsistent (leave_channel d u (unmapped u)).0
  unfolding leave_channel
  leave_channel-IsConsistent d u h =
      let ps = or_new (find d channels) in
      let left : NoEmpty (leave_channel d u (unmapped u)).0.channels_ =
        ground (arith, NoEmpty-drop d u channels ps v.inhabited, v.inhabited) in
      record {
        agree = λ c w. ground (
          arith,
          v.agree c w,
          v.agree d u,
          find-empty {V = ParticipantState} u,
          find-erase u w users,
          participant-drop d u channels ps c w refl,
        );
        inhabited = left;
      }

  -- A user with no mapping stands in no channel, so `leave` finds nobody to erase.
  leave_stray-IsConsistent :
      (d : ChannelId) (u : UserId) → find u users ≡ none → IsConsistent (leave_channel d u m).0
  unfolding leave_channel
  leave_stray-IsConsistent d u h =
      let ps = or_new (find d channels) in
      let left : NoEmpty (leave_channel d u m).0.channels_ =
        ground (arith, NoEmpty-drop d u channels ps v.inhabited, v.inhabited) in
      record {
        agree = λ c w.
            ground
              (arith, v.agree c w, find-erase u w users, participant-drop d u channels ps c w refl);
        inhabited = left;
      }

  leave-IsConsistent : (d : ChannelId) (u : UserId) → IsConsistent (leave d u m).0
  unfolding leave
  leave-IsConsistent d u =
      ground (arith, v, leave_stray-IsConsistent d u, leave_channel-IsConsistent d u)

  leave_current-IsConsistent :
      (d : ChannelId) (u : UserId)
      → in_channel d (find u users) ≡ true
      → IsConsistent (leave_current d u m).0
  unfolding leave_current
  leave_current-IsConsistent d u h =
      let ps = or_new (find d channels) in
      let left : NoEmpty (leave_current d u m).0.channels_ =
        ground (arith, NoEmpty-drop d u channels ps v.inhabited, v.inhabited) in
      record {
        agree = λ c w. ground (
          arith,
          v.agree c w,
          v.agree d u,
          find-empty {V = ParticipantState} u,
          find-erase u w users,
          participant-drop d u channels ps c w refl,
        );
        inhabited = left;
      }

  leave_user-IsConsistent : (u : UserId) → IsConsistent (leave_user u m).0
  unfolding leave_user
  leave_user-IsConsistent u = elim (Option-cases (find u users)) [
    | inl e ↦ rw (e, leave_user) v
    | inr (s, e) ↦ rw (e, leave_user) (leave_current-IsConsistent s.channel u (ground arith))
  ]

  leave_if_owner-IsConsistent : (u : UserId) (t : SessionId) → IsConsistent (leave_if_owner u t m).0
  unfolding leave_if_owner
  leave_if_owner-IsConsistent u t = elim (Option-cases (find u users)) [
    | inl e ↦ rw (e, leave_if_owner) v
    | inr (s, e) ↦
        rw (e, leave_if_owner)
          (ground (arith, v, leave_current-IsConsistent s.channel u (ground arith)))
  ]

  replaced-IsConsistent :
      (d : ChannelId) (u : UserId) (ps : Participants) (p q : ParticipantState)
      → find d channels ≡ some ps
      → find u ps ≡ some p
      → IsConsistent (record m { channels_ = put d (put u q ps) channels })
  replaced-IsConsistent d u ps p q e h = record {
    agree = λ c w.
        ground
          (arith, v.agree c w, participant-put d u channels (put u q ps) c w, find-put u w q ps);
    inhabited = NoEmpty-put d u channels (put u q ps) (nonempty-put u q ps) v.inhabited;
  }

  update_participant-IsConsistent :
      (u : UserId) (f : ParticipantState → ParticipantState × Bool)
      → IsConsistent (update_participant u f m).0
  unfolding update_participant
  update_participant-IsConsistent u f = elim (Option-cases (find u users)) [
    | inl e ↦ rw (e, update_participant) v
    | inr (s, e) ↦ elim (Option-cases (find s.channel channels)) [
      | inl e' ↦ rw (e, e', update_participant) v
      | inr (ps, e') ↦ elim (Option-cases (find u ps)) [
        | inl e'' ↦ rw (e, e', e'', update_participant) v
        | inr (p, e'') ↦
            rw (e, e', e'', update_participant)
              (replaced-IsConsistent s.channel u ps p (f p).0 e' e'')
      ]
    ]
  ]

  transfer-IsConsistent :
      (u : UserId) (s t : SessionId) → IsConsistent (transfer_owner_session u s t m).0
  unfolding transfer_owner_session
  transfer-IsConsistent u s t = elim (Option-cases (find u users)) [
    | inl e ↦ rw (e, transfer_owner_session) v
    | inr (o, e) ↦ rw (e, transfer_owner_session) (ground (arith, v, moved o e))
  ]
    where
      moved :
          (o : UserVoiceState)
          → find u users ≡ some o
          → IsConsistent
              (record m { user_to_channel_ = put u (record o { owner_session = t }) users })
      moved o e = record {
        agree =
            λ c w. ground (arith, v.agree c w, find-put u w (record o { owner_session = t }) users);
        inhabited = v.inhabited;
      }

  find-unmap_all :
      (d : ChannelId) (us : List UserId) (w : UserId) (table : Map UserId UserVoiceState)
      → find w (unmap_all d us table)
        ≡ (if elem w us && in_channel d (find w table) then none else find w table)
  unfolding unmap_all elem
  find-unmap_all d [] w table = refl
  find-unmap_all d (u ∷ us) w table =
      ground (arith, find-unmap_all d us w (unmap d u table), find-erase u w table)

  clear_channel-IsConsistent : (d : ChannelId) → IsConsistent (clear_channel d m).0
  unfolding clear_channel
  clear_channel-IsConsistent d = elim (Option-cases (find d channels)) [
    | inl e ↦ rw (e, clear_channel) v
    | inr (ps, e) ↦
        rw (e, clear_channel)
          (record {
            agree = λ c w. ground (
              arith,
              v.agree c w,
              find-erase d c channels,
              find-empty {V = ParticipantState} w,
              find-unmap_all d (keys ps) w users,
              elem-keys w ps,
            );
            inhabited = record {
              inhabited =
                  λ c qs h. ground (arith, find-erase d c channels, v.inhabited.inhabited c qs);
            };
          })
  ]

pub init-IsConsistent : IsConsistent init
unfolding init
init-IsConsistent = record {
  agree = λ c u. ground (
    arith,
    find-empty {V = Participants} c,
    find-empty {V = UserVoiceState} u,
    find-empty {V = ParticipantState} u,
  );
  inhabited = record {
    inhabited = λ c ps h. absurd (ground (arith, find-empty {V = Participants} c));
  };
}

pub step-IsConsistent :
    (m : VoiceSessionManager) (c : Call) → IsConsistent m → IsConsistent (step c m)
unfolding step set_muted set_deafened
step-IsConsistent m (joins c u s) v = join-IsConsistent m v c u s
step-IsConsistent m (leaves c u) v = leave-IsConsistent m v c u
step-IsConsistent m (leaves_any u) v = leave_user-IsConsistent m v u
step-IsConsistent m (leaves_if_owner u s) v = leave_if_owner-IsConsistent m v u s
step-IsConsistent m (mutes u b) v = update_participant-IsConsistent m v u (mute b)
step-IsConsistent m (deafens u b) v = update_participant-IsConsistent m v u (deafen b)
step-IsConsistent m (transfers u s t) v = transfer-IsConsistent m v u s t
step-IsConsistent m (clears c) v = clear_channel-IsConsistent m v c

-- After any calls on a manager whose maps agree, a user is among the participants of a channel
-- exactly if the user's mapping names that channel, and no channel is kept without participants.
pub run-IsConsistent :
    (cs : List Call) (m : VoiceSessionManager) → IsConsistent m → IsConsistent (run cs m)
unfolding run
run-IsConsistent [] m v = v
run-IsConsistent (c ∷ cs) m v = run-IsConsistent cs (step c m) (step-IsConsistent m c v)
