-- ===== src/Voice/Keys/Slots/Runs.antt =====
-- The slots of the key ring over histories of calls of ChannelKeyService.cpp.
use kergit_server.Base.{◌≡◌, ◌∙◌, sym, ap, inl, inr, arith, true, some, Option-cases, Bool-cases}
use kergit_server.Ids.{ChannelId, UserId}
use kergit_server.Livekit.Keys.{get_key}
use kergit_server.Livekit.Keys.Ring.{
  fits, IsInRing-init, fits-held, fits-get_key, IsInRing-clear_key,
}
use kergit_server.Redis.{Redis}
use kergit_server.Voice.Sessions.{VoiceSessionManager, user_channel}
use kergit_server.Voice.Keys.{ChannelKeys, Setting, Meets, Replies, to_user, StorageKey}
use kergit_server.Voice.Keys.Calls.{
  rotate_and_broadcast, key_for_joiner, key_for_first, record_join_and_should_debounce_rotation,
  acquire_for_join, resync_to_user, clear_channel, restore_key_for_recovery,
  is_channel_effectively_empty, other_members_present,
}
use kergit_server.Voice.Keys.History.{
  Calls, done, acquires, rotates, resyncs, clears, restores, start, run,
}
use kergit_server.Voice.Keys.Slots.{
  HasSlots, Slotted, HasSlots-persist, HasSlots-sent, HasSlots-rotate, Slotted-first_key,
  HasSlots-restore,
}

HasSlots-clear :
    (r : Replies) (c : ChannelId) (s : ChannelKeys) → HasSlots s → HasSlots (clear_channel r c s)
unfolding clear_channel
HasSlots-clear r c s h = record {
  in_memory = IsInRing-clear_key c s.e2ee_keys_ h.in_memory;
  sent = h.sent;
}

module _ (o : Setting) (e : Meets) where
  HasSlots-resync :
      (v : VoiceSessionManager) (u : UserId) (s : ChannelKeys)
      → HasSlots s
      → HasSlots (resync_to_user o e v u s)
  unfolding resync_to_user
  HasSlots-resync v u s h = elim (Option-cases (user_channel u v)) [
    | inl x ↦ ground (arith, x, h)
    | inr (c, x) ↦ elim (Option-cases (get_key c s.e2ee_keys_)) [
      | inl y ↦ ground (arith, x, y, h)
      | inr (k, y) ↦ elim (Option-cases (e.hub_of c)) [
        | inl z ↦ ground (arith, x, y, z, h)
        | inr (hub, z) ↦ ground (
          arith,
          x,
          y,
          z,
          HasSlots-sent o e c (to_user hub c u k) s h
              (ap fits (sym y) ∙ fits-get_key c s.e2ee_keys_ h.in_memory),
        )
      ]
    ]
  ]

  module _ (c : ChannelId) (u : UserId) where
    HasSlots-record :
        (s : ChannelKeys)
        → HasSlots s
        → HasSlots (record_join_and_should_debounce_rotation o e c u s).1
    unfolding record_join_and_should_debounce_rotation
    HasSlots-record s h = record { in_memory = h.in_memory; sent = h.sent }

    HasSlots-joiner :
        (s : ChannelKeys)
        → HasSlots s
        → HasSlots (key_for_joiner o e c u s).1 × (fits (some (key_for_joiner o e c u s).0) ≡ true)
    unfolding key_for_joiner
    HasSlots-joiner s h =
        let after = (record_join_and_should_debounce_rotation o e c u s).1 in
        let kept = HasSlots-record s h in
        ground (
          arith,
          kept,
          HasSlots-rotate o e c after kept,
          fits-get_key c after.e2ee_keys_ kept.in_memory,
        )

    module _ (meanwhile : ChannelKeys → ChannelKeys) (v : VoiceSessionManager) (s : ChannelKeys)
        (h : HasSlots s) (g : HasSlots (meanwhile s)) where
      Slotted-first : Slotted (key_for_first o e meanwhile v c s)
      unfolding key_for_first
      Slotted-first =
          let empty_state = is_channel_effectively_empty e v c in
          elim (Option-cases (get_key c s.e2ee_keys_)) [
            | inl x ↦ ground (arith, x, Slotted-first_key o e c empty_state (meanwhile s) g)
            | inr (k, x) ↦ ground (
              arith,
              x,
              fits-get_key c s.e2ee_keys_ h.in_memory,
              HasSlots-persist o e c k (meanwhile s) g,
            )
          ]

      Slotted-acquire : Slotted (acquire_for_join o e meanwhile v c u s)
      unfolding acquire_for_join
      Slotted-acquire = elim (Bool-cases (other_members_present v c u)) [
        | inl x ↦ ground (
          arith,
          x,
          HasSlots-joiner s h,
          fits-held (some (key_for_joiner o e c u s).0) (HasSlots-joiner s h).1,
        )
        | inr x ↦ ground (
          arith,
          x,
          Slotted-first,
          fits-held (key_for_first o e meanwhile v c s).0 Slotted-first.1,
        )
      ]

module _ (o : Setting) where
  HasSlots-run : (calls : Calls) (s : ChannelKeys) → HasSlots s → HasSlots (run o calls s)
  unfolding run
  HasSlots-run done s h = h
  HasSlots-run (acquires e v c u between rest) s h =
      HasSlots-run rest (acquire_for_join o e (run o between) v c u s).1
        (Slotted-acquire o e c u (run o between) v s h (HasSlots-run between s h)).0
  HasSlots-run (rotates e c rest) s h =
      HasSlots-run rest (rotate_and_broadcast o e c s).1 (HasSlots-rotate o e c s h).0
  HasSlots-run (resyncs e v u rest) s h =
      HasSlots-run rest (resync_to_user o e v u s) (HasSlots-resync o e v u s h)
  HasSlots-run (clears r c rest) s h =
      HasSlots-run rest (clear_channel r c s) (HasSlots-clear r c s h)
  HasSlots-run (restores e c rest) s h =
      HasSlots-run rest (restore_key_for_recovery o e c s) (HasSlots-restore o e c s h)

  slots_of_history :
      (calls : Calls) (redis : Redis StorageKey) → HasSlots (run o calls (start redis))
  unfolding start
  slots_of_history calls redis =
      HasSlots-run calls (start redis) (record { in_memory = IsInRing-init; sent = tt })

  -- After any history of calls since the start, whatever Redis holds and whatever other threads do
  -- in the middle of a join: each key in memory and each key sent has an index below 16, and so has
  -- the key that a further join is given.
  pub keys_have_slots :
      (calls between : Calls) (redis : Redis StorageKey) (e : Meets) (v : VoiceSessionManager)
      → (c : ChannelId) (u : UserId)
      → HasSlots (run o calls (start redis))
        × (fits (acquire_for_join o e (run o between) v c u (run o calls (start redis))).0 ≡ true)
  keys_have_slots calls between redis e v c u =
      let h = slots_of_history calls redis in
      (
        h,
        (Slotted-acquire o e c u (run o between) v (run o calls (start redis)) h
            (HasSlots-run between (run o calls (start redis)) h)).1,
      )
