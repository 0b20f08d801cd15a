-- ===== src/Voice/Sessions/Participants.antt =====
-- The table of channels as one map from a channel and a user to a state.
use kergit_server.Base.{◌≡◌, false, Option, none, some, arith, ite, dec_eq}
use kergit_server.Base.Map.{
  is_empty, find, put, erase, find-put, find-erase, find-empty, find_of_is_empty,
}
use kergit_server.Ids.{ChannelId, UserId, channel_id_key, user_id_key}
use kergit_server.Voice.Sessions.{
  ParticipantState, Participants, Channels, or_new, drop_participant,
}

abbrev pub participant : ChannelId → UserId → Channels → Option ParticipantState
participant c u channels = find u (or_new (find c channels))

-- No channel is kept without participants.
pub record NoEmpty (channels : Channels) : Type 0 where
  pub inhabited :
      (c : ChannelId) (ps : Participants) → find c channels ≡ some ps → is_empty ps ≡ false

module _ (d : ChannelId) (v : UserId) (channels : Channels) where
  pub participant-put :
      (ps : Participants) (c : ChannelId) (u : UserId)
      → participant c u (put d ps channels)
        ≡ ite (dec_eq d c) (find u ps) (participant c u channels)
  participant-put ps c u = ground (arith, find-put d c ps channels)

  pub participant-drop :
      (ps : Participants) (c : ChannelId) (u : UserId)
      → or_new (find d channels) ≡ ps
      → participant c u (drop_participant d v ps channels).0
        ≡ ite
            (dec_eq d c)
            (ite (dec_eq v u) none (participant c u channels))
            (participant c u channels)
  unfolding drop_participant
  participant-drop ps c u h = ground (
    arith,
    find-put d c (erase v ps) channels,
    find-erase d c channels,
    find-erase v u ps,
    find-empty {V = ParticipantState} u,
    find_of_is_empty u (erase v ps),
  )

  pub NoEmpty-drop :
      (ps : Participants) → NoEmpty channels → NoEmpty (drop_participant d v ps channels).0
  unfolding drop_participant
  NoEmpty-drop ps n = record {
    inhabited = λ c qs h.
        ground
          (arith, find-put d c (erase v ps) channels, find-erase d c channels, n.inhabited c qs);
  }

  pub NoEmpty-put :
      (ps : Participants) → is_empty ps ≡ false → NoEmpty channels → NoEmpty (put d ps channels)
  NoEmpty-put ps e n = record {
    inhabited = λ c qs h. ground (arith, find-put d c ps channels, n.inhabited c qs);
  }
