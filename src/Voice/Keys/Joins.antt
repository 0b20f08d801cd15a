-- ===== src/Voice/Keys/Joins.antt =====
-- What acquire_for_join of ChannelKeyService.cpp gives a joiner, and what it leaves in memory.
use kergit_server.Base.{
  ℕ, ◌⊎◌, ◌+◌, ◌≤◌, ◌<◌, ◌≡◌, ◌≢◌, inl, inr, arith, Bool, true, false, Option, none, some, List, [],
  ◌∷◌, ◌++◌, Option-cases, Bool-cases,
}
use mathlib.Core.List.{append-nil}
use kergit_server.Base.Map.{is_nil, find, put, find-put}
use kergit_server.Ids.{ChannelId, UserId, HubId, channel_id_key, user_id_key}
use kergit_server.Livekit.Keys.{
  Bytes, ChannelKey, KeyManager, state_of, next_index, held, assign, get_key, replace_key,
  rotate_key,
}
use kergit_server.Voice.Sessions.{VoiceSessionManager}
use kergit_server.Voice.Keys.{ChannelKeys, Setting, Meets, Update, to_channel}
use kergit_server.Voice.Keys.Calls.{
  persist, broadcast, seen_in, is_recent, rotate_and_broadcast, key_for_joiner,
  record_join_and_should_debounce_rotation, acquire_for_join, other_members_present,
}

-- The updates that a new key of a channel adds.
abbrev pub update_for : Option HubId → ChannelId → ChannelKey → List Update
update_for none channel k = []
update_for (some hub) channel k = to_channel hub channel k ∷ []

-- The key that follows the one of the channel.
abbrev pub next_key : Bytes → ChannelId → ChannelKeys → ChannelKey
next_key key c s = record {
  key = key;
  key_index = next_index (state_of (find c s.e2ee_keys_.channels_));
}

pub nonempty_key :
    (c : ChannelId) (k : ChannelKey) (m : KeyManager) → get_key c m ≡ some k → is_nil k.key ≡ false
unfolding get_key
nonempty_key c k m h = ground (arith, h)

pub get_key-assign :
    (c : ChannelId) (k : ChannelKey) (m : KeyManager) → get_key c (assign c k m) ≡ held (some k)
unfolding get_key
get_key-assign c k m = ground (arith, find-put c c k m.channels_)

module _ (o : Setting) (e : Meets) (c : ChannelId) where
  pub keys-broadcast :
      (k : ChannelKey) (s : ChannelKeys)
      → ((broadcast o e c k s).e2ee_keys_ ≡ s.e2ee_keys_)
        × ((broadcast o e c k s).published ≡ s.published ++ update_for (e.hub_of c) c k)
        × ((broadcast o e c k s).join_rotate_seen_ ≡ s.join_rotate_seen_)
  keys-broadcast k s = elim (Option-cases (e.hub_of c)) [
    | inl x ↦ ground (arith, x, append-nil s.published)
    | inr (hub, x) ↦ ground (arith, x)
  ]

  module _ (key : Bytes) (made : e.fresh ≡ some key) (s : ChannelKeys) where
    pub rotate_lem :
        ((rotate_and_broadcast o e c s).0 ≡ next_key key c s)
        × ((rotate_and_broadcast o e c s).1.e2ee_keys_ ≡ assign c (next_key key c s) s.e2ee_keys_)
        × ((rotate_and_broadcast o e c s).1.published
            ≡ s.published ++ update_for (e.hub_of c) c (next_key key c s))
        × ((rotate_and_broadcast o e c s).1.join_rotate_seen_ ≡ s.join_rotate_seen_)
    unfolding rotate_and_broadcast rotate_key replace_key
    rotate_lem =
        let k = next_key key c s in
        ground (
          arith,
          made,
          keys-broadcast k (persist o e c k (record s { e2ee_keys_ = assign c k s.e2ee_keys_ })),
        )

  -- What no key is made of changes no key and sends nothing.
  pub rotate_failed :
      e.fresh ≡ none → (s : ChannelKeys) → is_nil (rotate_and_broadcast o e c s).0.key ≡ true
  unfolding rotate_and_broadcast rotate_key replace_key
  rotate_failed h s = ground (arith, h)

  seen-rotate :
      (s : ChannelKeys) → (rotate_and_broadcast o e c s).1.join_rotate_seen_ ≡ s.join_rotate_seen_
  unfolding rotate_and_broadcast rotate_key replace_key
  seen-rotate s = elim (Option-cases e.fresh) [
    | inl x ↦ ground (arith, x)
    | inr (key, x) ↦ (rotate_lem key x s).3
  ]

  -- The key that a rotation gives is the one in memory.
  current-rotate :
      (s : ChannelKeys) (k : ChannelKey)
      → held (some (rotate_and_broadcast o e c s).0) ≡ some k
      → get_key c (rotate_and_broadcast o e c s).1.e2ee_keys_ ≡ some k
  current-rotate s k h = elim (Option-cases e.fresh) [
    | inl x ↦ ground (arith, h, rotate_failed x s)
    | inr (key, x) ↦
        ground (arith, h, rotate_lem key x s, get_key-assign c (next_key key c s) s.e2ee_keys_)
  ]

module _ (o : Setting) (e : Meets) (c : ChannelId) (u : UserId) (s : ChannelKeys) where
  -- Whether the user's last attempt at the channel was within the window.
  abbrev pub recent : Bool
  recent =
      is_recent (find u (seen_in (find c s.join_rotate_seen_))) o.join_rotate_debounce_ttl_ e.now

  abbrev pub recorded : ChannelKeys
  recorded = (record_join_and_should_debounce_rotation o e c u s).1

  pub record_lem :
      ((record_join_and_should_debounce_rotation o e c u s).0 ≡ recent)
      × (recorded.e2ee_keys_ ≡ s.e2ee_keys_)
      × (recorded.published ≡ s.published)
      × (recorded.redis_ ≡ s.redis_)
      × (find u (seen_in (find c recorded.join_rotate_seen_)) ≡ some e.now)
  unfolding record_join_and_should_debounce_rotation
  record_lem =
      let seen = seen_in (find c s.join_rotate_seen_) in
      ground (arith, find-put c c (put u e.now seen) s.join_rotate_seen_, find-put u u e.now seen)

  -- The key that the joiner of a channel with members is given is the one in memory.
  current-joiner :
      (k : ChannelKey)
      → held (some (key_for_joiner o e c u s).0) ≡ some k
      → get_key c (key_for_joiner o e c u s).1.e2ee_keys_ ≡ some k
  unfolding key_for_joiner
  current-joiner k h = elim (Bool-cases (record_join_and_should_debounce_rotation o e c u s).0) [
    | inl x ↦ elim (Option-cases (get_key c recorded.e2ee_keys_)) [
      | inl y ↦ ground (arith, x, y, h, current-rotate o e c recorded k)
      | inr (j, y) ↦ ground (arith, x, y, h, nonempty_key c j recorded.e2ee_keys_)
    ]
    | inr x ↦ ground (arith, x, h, current-rotate o e c recorded k)
  ]

-- When the last recorded attempt of a user lets the key rotate again: there is none, it is the time 0,
-- or the window from it is over.
abbrev pub HasLapsed : Option ℕ → ℕ → ℕ → Type 0
HasLapsed none ttl now = Unit
HasLapsed (some last) ttl now = (last ≡ 0) ⊎ (last + ttl ≤ now)

is_recent-HasLapsed :
    (last : Option ℕ) (ttl now : ℕ) → HasLapsed last ttl now → is_recent last ttl now ≡ false
is_recent-HasLapsed none ttl now h = ground arith
is_recent-HasLapsed (some last) ttl now h = ground (arith, h)

module _ (o : Setting) (c : ChannelId) (u : UserId) where
  -- A join of a channel that has other members, by a user whose last such attempt, whether it
  -- rotated the key or was held back, is not recorded or is at least the window ago: when a key is
  -- made that is not empty, the joiner is given that key with the index after the one of the old
  -- key, or 0, it is the key in memory, and it is sent to the channel when the hub is found. The
  -- argument `meanwhile` is not used by such a join.
  pub joiner_rotates :
      (e : Meets) (meanwhile : ChannelKeys → ChannelKeys) (v : VoiceSessionManager)
      → (s : ChannelKeys) (key : Bytes) → other_members_present v c u ≡ true
      → HasLapsed (find u (seen_in (find c s.join_rotate_seen_))) o.join_rotate_debounce_ttl_ e.now
      → e.fresh ≡ some key
      → is_nil key ≡ false
      → ((acquire_for_join o e meanwhile v c u s).0 ≡ some (next_key key c s))
        × (get_key c (acquire_for_join o e meanwhile v c u s).1.e2ee_keys_
            ≡ some (next_key key c s))
        × ((acquire_for_join o e meanwhile v c u s).1.published
            ≡ s.published ++ update_for (e.hub_of c) c (next_key key c s))
  unfolding acquire_for_join key_for_joiner
  joiner_rotates e meanwhile v s key present lapsed made full =
      let fresh : recent o e c u s ≡ false = is_recent-HasLapsed _ _ _ lapsed in
      let r = recorded o e c u s in
      ground (
        arith,
        present,
        fresh,
        full,
        record_lem o e c u s,
        rotate_lem o e c key made r,
        get_key-assign c (next_key key c r) r.e2ee_keys_,
      )

  joined :
      (e : Meets) (meanwhile : ChannelKeys → ChannelKeys) (v : VoiceSessionManager)
      → (s : ChannelKeys) → other_members_present v c u ≡ true
      → acquire_for_join o e meanwhile v c u s
        ≡ (held (some (key_for_joiner o e c u s).0), (key_for_joiner o e c u s).1)
  unfolding acquire_for_join
  joined e meanwhile v s present = ground (arith, present)

  seen-joiner :
      (e : Meets) (s : ChannelKeys)
      → find u (seen_in (find c (key_for_joiner o e c u s).1.join_rotate_seen_)) ≡ some e.now
  unfolding key_for_joiner
  seen-joiner e s =
      let r = recorded o e c u s in ground (arith, record_lem o e c u s, seen-rotate o e c r)

  -- A user who is given a key of a channel that has other members, and asks again within the window
  -- after it, still outside the channel and with no other call on the keys in between, is given the
  -- same key: no key in memory or storage changes and nothing is sent. The clock is not at its epoch at the first join.
  pub retry_reuses_key :
      (e f : Meets) (meanwhile then_meanwhile : ChannelKeys → ChannelKeys)
      → (v w : VoiceSessionManager) (s : ChannelKeys) (k : ChannelKey)
      → other_members_present v c u ≡ true
      → other_members_present w c u ≡ true
      → e.now ≢ 0
      → f.now < e.now + o.join_rotate_debounce_ttl_
      → (acquire_for_join o e meanwhile v c u s).0 ≡ some k
      → (let after = (acquire_for_join o e meanwhile v c u s).1 in
          let again = acquire_for_join o f then_meanwhile w c u after in
          (again.0 ≡ some k)
          × (again.1.e2ee_keys_ ≡ after.e2ee_keys_)
          × (again.1.redis_ ≡ after.redis_)
          × (again.1.published ≡ after.published))
  unfolding key_for_joiner
  retry_reuses_key e f meanwhile then_meanwhile v w s k present still clock window given =
      let after = (key_for_joiner o e c u s).1 in
      ground (
        arith,
        clock,
        window,
        given,
        joined e meanwhile v s present,
        joined f then_meanwhile w after still,
        seen-joiner e s,
        record_lem o f c u after,
        current-joiner o e c u s k,
      )
