-- ===== src/Voice/Keys/Slots.antt =====
-- Every key of ChannelKeyService.cpp has an index in the key ring: in memory, sent and returned.
pub mod Runs
use kergit_server.Base.{
  ℕ, ◌≡◌, ◌∙◌, sym, inl, inr, refl, arith, ap, Bool, true, false, Option, none, some, List, [], ◌∷◌,
  ◌++◌, All, All-append, Option-cases, is_some,
}
use kergit_server.Base.Map.{empty}
use kergit_server.Ids.{ChannelId, UserId, HubId}
use kergit_server.Livekit.Keys.{
  ChannelKey, KeyManager, held, get_key, rotate_key, get_or_create_key, set_key, clear_key,
}
use kergit_server.Livekit.Keys.Ring.{
  fits, IsInRing, IsInRing-init, fits-held, fits-get_key, IsInRing-get_or_create_key,
  IsInRing-rotate_key, IsInRing-set_key, IsInRing-clear_key,
}
use kergit_server.Redis.{Redis, get}
use kergit_server.Voice.Sessions.{VoiceSessionManager, user_channel}
use kergit_server.Voice.Keys.{
  ChannelKeys, Setting, Meets, Replies, Update, to_channel, to_user, StorageKey, index_read,
  load_from_storage,
}
use kergit_server.Voice.Keys.Decimal.{stoul}
use kergit_server.Voice.Keys.Calls.{
  persist, broadcast, rotate_and_broadcast, mint, recover_key, first_key, key_for_joiner,
  key_for_first, record_join_and_should_debounce_rotation, acquire_for_join, resync_to_user,
  clear_channel, restore_key_for_recovery, is_channel_effectively_empty, other_members_present,
}
use kergit_server.Voice.Keys.History.{
  Calls, done, acquires, rotates, resyncs, clears, restores, start, run,
}

abbrev pub sent_key : Update → ChannelKey
sent_key (to_channel hub channel k) = k
sent_key (to_user hub channel user k) = k

-- The keys in memory and the keys sent have an index in the ring.
pub record HasSlots (s : ChannelKeys) : Type 0 where
  pub in_memory : IsInRing s.e2ee_keys_
  pub sent : All (λ u. fits (some (sent_key u)) ≡ true) s.published

-- A step that keeps the slots and gives a key in one.
abbrev pub Slotted : Option ChannelKey × ChannelKeys → Type 0
Slotted r = HasSlots r.1 × (fits r.0 ≡ true)

fits-load :
    (o : Setting) (r : Replies) (c : ChannelId) (m : Redis StorageKey)
    → fits (load_from_storage o r c m).0 ≡ true
unfolding load_from_storage
fits-load o r c m = ground arith

module _ (o : Setting) (e : Meets) (c : ChannelId) where
  pub HasSlots-persist :
      (k : ChannelKey) (s : ChannelKeys) → HasSlots s → HasSlots (persist o e c k s)
  HasSlots-persist k s h = record { in_memory = h.in_memory; sent = h.sent }

  pub HasSlots-sent :
      (u : Update) (s : ChannelKeys)
      → HasSlots s
      → fits (some (sent_key u)) ≡ true
      → HasSlots (record s { published = s.published ++ u ∷ [] })
  HasSlots-sent u s h l = record {
    in_memory = h.in_memory;
    sent = All-append _ s.published (u ∷ []) h.sent (l, tt);
  }

  HasSlots-broadcast :
      (k : ChannelKey) (s : ChannelKeys)
      → HasSlots s
      → fits (some k) ≡ true
      → HasSlots (broadcast o e c k s)
  HasSlots-broadcast k s h l = elim (Option-cases (e.hub_of c)) [
    | inl none_found ↦ ground (arith, none_found, h)
    | inr (hub, found) ↦ ground (arith, found, HasSlots-sent (to_channel hub c k) s h l)
  ]

  HasSlots-redis :
      (m : Redis StorageKey) (s : ChannelKeys) → HasSlots s → HasSlots (record s { redis_ = m })
  HasSlots-redis m s h = record { in_memory = h.in_memory; sent = h.sent }

  HasSlots-keys :
      (m : KeyManager) (s : ChannelKeys)
      → HasSlots s
      → IsInRing m
      → HasSlots (record s { e2ee_keys_ = m })
  HasSlots-keys m s h l = record { in_memory = l; sent = h.sent }

  pub HasSlots-rotate :
      (s : ChannelKeys)
      → HasSlots s
      → HasSlots (rotate_and_broadcast o e c s).1
        × (fits (some (rotate_and_broadcast o e c s).0) ≡ true)
  unfolding rotate_and_broadcast
  HasSlots-rotate s h =
      let (ring, slot) = IsInRing-rotate_key c s.e2ee_keys_ h.in_memory e.fresh in
      let keys = (rotate_key c e.fresh s.e2ee_keys_).1 in
      elim (Option-cases (rotate_key c e.fresh s.e2ee_keys_).0) [
        | inl x ↦ ground (arith, x, HasSlots-keys keys s h ring)
        | inr (k, x) ↦ ground (
          arith,
          x,
          slot,
          HasSlots-broadcast k (persist o e c k (record s { e2ee_keys_ = keys }))
              (HasSlots-persist k (record s { e2ee_keys_ = keys }) (HasSlots-keys keys s h ring))
              (ap fits (sym x) ∙ slot),
        )
      ]

  Slotted-mint : (s : ChannelKeys) → HasSlots s → Slotted (mint o e c s)
  unfolding mint
  Slotted-mint s h =
      let (ring, slot) = IsInRing-get_or_create_key c s.e2ee_keys_ h.in_memory e.fresh in
      let keys = (get_or_create_key c e.fresh s.e2ee_keys_).1 in
      elim (Option-cases (get_or_create_key c e.fresh s.e2ee_keys_).0) [
        | inl x ↦ ground (arith, x, HasSlots-keys keys s h ring)
        | inr (k, x) ↦ ground (
          arith,
          x,
          slot,
          HasSlots-persist k (record s { e2ee_keys_ = keys }) (HasSlots-keys keys s h ring),
        )
      ]

  -- The key that was loaded is in memory and stored again.
  HasSlots-loaded :
      (k : ChannelKey) (m : Redis StorageKey) (s : ChannelKeys)
      → HasSlots s
      → HasSlots (persist o e c k (record s { redis_ = m; e2ee_keys_ = set_key c k s.e2ee_keys_ }))
  HasSlots-loaded k m s h = record {
    in_memory = IsInRing-set_key c s.e2ee_keys_ h.in_memory k;
    sent = h.sent;
  }

  Slotted-recover : (s : ChannelKeys) → HasSlots s → Slotted (recover_key o e c s)
  unfolding recover_key
  Slotted-recover s h =
      let m = (load_from_storage o e.loading c s.redis_).1 in
      let slot = fits-load o e.loading c s.redis_ in
      elim (Option-cases (load_from_storage o e.loading c s.redis_).0) [
        | inl x ↦
            let (kept, fit) = Slotted-mint (record s { redis_ = m }) (HasSlots-redis m s h) in
            elim (Option-cases (mint o e c (record s { redis_ = m })).0) [
              | inl y ↦ ground (arith, x, y, kept)
              | inr (k, y) ↦ ground (
                arith,
                x,
                y,
                fit,
                HasSlots-broadcast k (mint o e c (record s { redis_ = m })).1 kept
                    (ap fits (sym y) ∙ fit),
              )
            ]
        | inr (k, x) ↦ ground (arith, x, slot, HasSlots-loaded k m s h)
      ]

  pub Slotted-first_key :
      (empty_state : Option Bool) (s : ChannelKeys)
      → HasSlots s
      → Slotted (first_key o e empty_state c s)
  unfolding first_key
  Slotted-first_key empty_state s h = elim (Option-cases (get_key c s.e2ee_keys_)) [
    | inl x ↦ ground (arith, x, Slotted-mint s h, Slotted-recover s h)
    | inr (k, x) ↦
        ground (arith, x, fits-get_key c s.e2ee_keys_ h.in_memory, HasSlots-persist k s h)
  ]

  pub HasSlots-restore :
      (s : ChannelKeys) → HasSlots s → HasSlots (restore_key_for_recovery o e c s)
  unfolding restore_key_for_recovery
  HasSlots-restore s h =
      let m = (load_from_storage o e.loading c s.redis_).1 in
      elim (Option-cases (load_from_storage o e.loading c s.redis_).0) [
        | inl x ↦ ground (arith, x, HasSlots-redis m s h)
        | inr (k, x) ↦ ground (arith, x, HasSlots-loaded k m s h)
      ]
