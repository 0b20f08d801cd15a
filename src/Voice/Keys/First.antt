-- ===== src/Voice/Keys/First.antt =====
-- What acquire_for_join of ChannelKeyService.cpp gives the first in a channel, and one who returns.
use kergit_server.Base.{
  ◌<◌, ◌≡◌, inl, inr, arith, Bool, true, false, Option, none, some, Option-cases, is_some,
}
use kergit_server.Base.Map.{is_nil}
use kergit_server.Ids.{ChannelId, UserId, channel_id_key}
use kergit_server.Livekit.Keys.{
  Bytes, ChannelKey, keyring_size, held, assign, get_key, replace_key, get_or_create_key,
}
use kergit_server.Redis.{arrives}
use kergit_server.Voice.Sessions.{VoiceSessionManager}
use kergit_server.Voice.Keys.{ChannelKeys, Setting, Meets, Replies, load_from_storage}
use kergit_server.Voice.Keys.Storage.{OpensUp, load-persist}
use kergit_server.Voice.Keys.Calls.{
  rotate_and_broadcast, mint, recover_key, first_key, key_for_joiner, key_for_first,
  acquire_for_join, is_channel_effectively_empty, other_members_present,
}
use kergit_server.Voice.Keys.Joins.{next_key, nonempty_key, get_key-assign, rotate_lem, recorded}

module _ (o : Setting) (e : Meets) (c : ChannelId) (key : Bytes) (made : e.fresh ≡ some key)
    (full : is_nil key ≡ false) where
  abbrev first : ChannelKey
  first = record { key = key; key_index = 0 }

  mint_lem :
      (s : ChannelKeys)
      → get_key c s.e2ee_keys_ ≡ none
      → ((mint o e c s).0 ≡ some first)
        × ((mint o e c s).1.e2ee_keys_ ≡ assign c first s.e2ee_keys_)
        × ((mint o e c s).1.published ≡ s.published)
  unfolding mint get_or_create_key replace_key
  mint_lem s h = ground (arith, h, made)

  -- Someone comes to a channel of which no other member is known, it has no key in memory before or
  -- after the nodes are asked, and every node answers that its room is empty: when a key is made
  -- that is not empty, that key is given, with the index 0, and kept in memory, whatever Redis
  -- holds, and nothing is sent.
  pub empty_room_gets_new_key :
      (meanwhile : ChannelKeys → ChannelKeys) (v : VoiceSessionManager) (u : UserId)
      → (s : ChannelKeys) → other_members_present v c u ≡ false
      → is_channel_effectively_empty e v c ≡ some true
      → get_key c s.e2ee_keys_ ≡ none
      → get_key c (meanwhile s).e2ee_keys_ ≡ none
      → ((acquire_for_join o e meanwhile v c u s).0 ≡ some (record { key = key; key_index = 0 }))
        × (get_key c (acquire_for_join o e meanwhile v c u s).1.e2ee_keys_
            ≡ some (record { key = key; key_index = 0 }))
        × ((acquire_for_join o e meanwhile v c u s).1.published ≡ (meanwhile s).published)
  unfolding acquire_for_join key_for_first first_key
  empty_room_gets_new_key meanwhile v u s alone quiet before after = ground (
    arith,
    alone,
    quiet,
    before,
    after,
    full,
    mint_lem (meanwhile s) after,
    get_key-assign c first (meanwhile s).e2ee_keys_,
  )

  given-rotate : (s : ChannelKeys) → is_nil (rotate_and_broadcast o e c s).0.key ≡ false
  given-rotate s = ground (arith, full, rotate_lem o e c key made s)

  given-joiner : (u : UserId) (s : ChannelKeys) → is_nil (key_for_joiner o e c u s).0.key ≡ false
  unfolding key_for_joiner
  given-joiner u s = elim (Option-cases (get_key c (recorded o e c u s).e2ee_keys_)) [
    | inl x ↦ ground (arith, x, given-rotate (recorded o e c u s))
    | inr (k, x) ↦ ground (
      arith,
      x,
      given-rotate (recorded o e c u s),
      nonempty_key c k (recorded o e c u s).e2ee_keys_ x,
    )
  ]

  given-recover :
      (s : ChannelKeys)
      → get_key c s.e2ee_keys_ ≡ none
      → held (load_from_storage o e.loading c s.redis_).0
        ≡ (load_from_storage o e.loading c s.redis_).0
      → is_some (held (recover_key o e c s).0) ≡ true
  unfolding recover_key
  given-recover s h stored = ground (
    arith,
    full,
    stored,
    mint_lem (record s { redis_ = (load_from_storage o e.loading c s.redis_).1 }) h,
  )

  given-first_key :
      (empty_state : Option Bool) (s : ChannelKeys)
      → held (load_from_storage o e.loading c s.redis_).0
        ≡ (load_from_storage o e.loading c s.redis_).0
      → is_some (held (first_key o e empty_state c s).0) ≡ true
  unfolding first_key
  given-first_key empty_state s stored = elim (Option-cases (get_key c s.e2ee_keys_)) [
    | inl x ↦ ground (arith, x, full, mint_lem s x, given-recover s x stored)
    | inr (k, x) ↦ ground (arith, x, nonempty_key c k s.e2ee_keys_ x)
  ]

  -- A join never ends in "voice_key_unavailable" when a key can be made that is not empty and what
  -- is stored for the channel is not the blob of an empty key: in an empty channel or among members,
  -- with or without answers of Redis and of the nodes, and whatever happens in its middle.
  pub join_gives_key :
      (meanwhile : ChannelKeys → ChannelKeys) (v : VoiceSessionManager) (u : UserId)
      → (s : ChannelKeys)
      → held (load_from_storage o e.loading c (meanwhile s).redis_).0
        ≡ (load_from_storage o e.loading c (meanwhile s).redis_).0
      → is_some (acquire_for_join o e meanwhile v c u s).0 ≡ true
  unfolding acquire_for_join key_for_first
  join_gives_key meanwhile v u s stored =
      let asked = is_channel_effectively_empty e v c in
      elim (Option-cases (get_key c s.e2ee_keys_)) [
        | inl x ↦ ground (arith, x, given-joiner u s, given-first_key asked (meanwhile s) stored)
        | inr (k, x) ↦ ground (arith, x, given-joiner u s, nonempty_key c k s.e2ee_keys_ x)
      ]

-- A member who comes back to a channel reads its key, another join makes the key new, and then the
-- member's call stores the key it read: the key in memory is the new one, and the one a restarted
-- server loads is the old one. So it is when no other member is known or the user is a member, the
-- old key is in memory with an index below 16 and the new one is not empty, storage has a master
-- key, OpenSSL opens what it sealed, and the replies to the last two writes and to the two reads
-- arrive.
pub return_stores_old_key :
    (o : Setting) (e f : Meets) (v : VoiceSessionManager) (c : ChannelId) (u : UserId)
    → (s : ChannelKeys) (k : ChannelKey) (key nonce : Bytes) (r : Replies)
    → other_members_present v c u ≡ false
    → get_key c s.e2ee_keys_ ≡ some k
    → k.key_index < keyring_size
    → f.fresh ≡ some key
    → is_nil key ≡ false
    → o.storage_key_ready_ ≡ true
    → e.nonce ≡ some nonce
    → OpensUp o.crypto nonce k.key
    → e.storing.wrote ≡ arrives
    → e.storing.wrote_index ≡ arrives
    → r.got ≡ arrives
    → r.got_index ≡ arrives
    → (let rotated : ChannelKeys → ChannelKeys = λ t. (rotate_and_broadcast o f c t).1 in
        let after = (acquire_for_join o e rotated v c u s).1 in
        (get_key c after.e2ee_keys_ ≡ some (next_key key c s))
        × ((load_from_storage o r c after.redis_).0 ≡ some k))
unfolding acquire_for_join key_for_first
return_stores_old_key o e f v c u s k key nonce r alone has slot made full ready drawn opens a b g
      h =
    let after = (rotate_and_broadcast o f c s).1 in
    (
      ground (
        arith,
        alone,
        has,
        full,
        rotate_lem o f c key made s,
        get_key-assign c (next_key key c s) s.e2ee_keys_,
      ),
      ground (
        arith,
        alone,
        has,
        drawn,
        load-persist o e.storing r c k nonce after.redis_ ready opens
            (nonempty_key c k s.e2ee_keys_ has) slot a b g h,
      ),
    )
