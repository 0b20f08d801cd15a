-- ===== src/Voice/Keys/Calls.antt =====
-- app/services/voice/ChannelKeyService.cpp: the calls of the service.
use kergit_server.Base.{
  ℕ, ◌+◌, Bool, true, false, not, ◌&&◌, Option, none, some, List, [], ◌∷◌, ◌++◌, dec_eq, ite, ltb,
  length, ◌==◌, if◌then◌else◌,
}
use kergit_server.Base.Map.{Map, empty, is_nil, find, put, erase}
use kergit_server.Ids.{ChannelId, UserId, channel_id_key, user_id_key}
use kergit_server.Livekit.Nodes.{LivekitNode}
use kergit_server.Livekit.Keys.{
  ChannelKey, no_key, held, get_key, get_or_create_key, set_key, rotate_key, clear_key,
}
use kergit_server.Voice.Sessions.{VoiceSessionManager, user_channel}
use kergit_server.Voice.Sessions.Queries.{is_channel_empty}
use kergit_server.Voice.Keys.{
  ChannelKeys, Setting, Meets, Replies, to_channel, to_user, load_from_storage, persist_to_storage,
  clear_storage,
}

-- How many nodes answered, unless one has participants.
unfoldable pub sweep : (LivekitNode → Option (List UserId)) → List LivekitNode → ℕ → Option ℕ
sweep ask [] successful_queries = some successful_queries
sweep ask (node ∷ nodes) successful_queries = elim (ask node) [
  | none ↦ sweep ask nodes successful_queries
  | some participants ↦
      if is_nil participants then sweep ask nodes (successful_queries + 1) else none
]

-- `none`: not every node answered.
unfoldable pub is_channel_effectively_empty : Meets → VoiceSessionManager → ChannelId → Option Bool
unfolding sweep is_channel_empty
is_channel_effectively_empty e v channel =
    if is_channel_empty channel v
    then (if is_nil e.configured_nodes
        then some true
        else elim (sweep (λ node. e.list_participants node channel) e.configured_nodes 0) [
          | none ↦ some false
          | some n ↦ if n == length e.configured_nodes then some true else none
        ])
    else some false

-- `join_rotate_seen_[channel]`
abbrev pub seen_in : Option (Map UserId ℕ) → Map UserId ℕ
seen_in none = empty
seen_in (some seen) = seen

-- A time that is missing is the epoch, 0.
abbrev pub is_recent : Option ℕ → ℕ → ℕ → Bool
is_recent none ttl now = false
is_recent (some last) ttl now = not (last == 0) && ltb now (last + ttl)

module _ (o : Setting) (e : Meets) where
  unfoldable pub record_join_and_should_debounce_rotation :
      ChannelId → UserId → ChannelKeys → Bool × ChannelKeys
  record_join_and_should_debounce_rotation channel user s =
      let seen = seen_in (find channel s.join_rotate_seen_) in
      (
        is_recent (find user seen) o.join_rotate_debounce_ttl_ e.now,
        record s { join_rotate_seen_ = put channel (put user e.now seen) s.join_rotate_seen_ },
      )

  abbrev pub persist : ChannelId → ChannelKey → ChannelKeys → ChannelKeys
  persist channel k s = record s {
    redis_ = (persist_to_storage o e.storing e.nonce channel k s.redis_).1;
  }

  -- The end of a new key: it is sent to the channel, unless the hub is not found.
  abbrev pub broadcast : ChannelId → ChannelKey → ChannelKeys → ChannelKeys
  broadcast channel k s = elim (e.hub_of channel) [
    | none ↦ s
    | some hub ↦ record s { published = s.published ++ to_channel hub channel k ∷ [] }
  ]

  -- `no_key` when no key can be made.
  unfoldable pub rotate_and_broadcast : ChannelId → ChannelKeys → ChannelKey × ChannelKeys
  unfolding rotate_key persist_to_storage
  rotate_and_broadcast channel s =
      let (rotated, keys) = rotate_key channel e.fresh s.e2ee_keys_ in
      elim rotated [
        | none ↦ (no_key, record s { e2ee_keys_ = keys })
        | some k ↦ (k, broadcast channel k (persist channel k (record s { e2ee_keys_ = keys })))
      ]

  -- The attempt to make a key, and to store it, of the two places that share it.
  unfoldable pub mint : ChannelId → ChannelKeys → Option ChannelKey × ChannelKeys
  unfolding get_or_create_key persist_to_storage
  mint channel s =
      let (made, keys) = get_or_create_key channel e.fresh s.e2ee_keys_ in
      elim made [
        | none ↦ (none, record s { e2ee_keys_ = keys })
        | some k ↦ (some k, persist channel k (record s { e2ee_keys_ = keys }))
      ]

  -- A room that may be active: the stored key, or a new one for all that are in it.
  unfoldable pub recover_key : ChannelId → ChannelKeys → Option ChannelKey × ChannelKeys
  unfolding load_from_storage persist_to_storage set_key mint
  recover_key channel s =
      let (loaded, redis) = load_from_storage o e.loading channel s.redis_ in
      elim loaded [
        | some k ↦ (
          some k,
          persist channel k
              (record s { redis_ = redis; e2ee_keys_ = set_key channel k s.e2ee_keys_ }),
        )
        | none ↦
            let (made, after) = mint channel (record s { redis_ = redis }) in
            elim made [ none ↦ (none, after) | some k ↦ (some k, broadcast channel k after) ]
      ]

  -- What acquire_for_join does under the lock when there was no key before.
  unfoldable pub first_key : Option Bool → ChannelId → ChannelKeys → Option ChannelKey × ChannelKeys
  unfolding get_key persist_to_storage mint recover_key
  first_key empty_state channel s = elim (get_key channel s.e2ee_keys_) [
    | some k ↦ (some k, persist channel k s)
    | none ↦ elim empty_state [ some true ↦ mint channel s | _ ↦ recover_key channel s ]
  ]

  unfoldable pub restore_key_for_recovery : ChannelId → ChannelKeys → ChannelKeys
  unfolding load_from_storage persist_to_storage set_key
  restore_key_for_recovery channel s =
      let (recovered, redis) = load_from_storage o e.loading channel s.redis_ in
      elim recovered [
        | none ↦ record s { redis_ = redis }
        | some k ↦
            persist channel k
              (record s { redis_ = redis; e2ee_keys_ = set_key channel k s.e2ee_keys_ })
      ]

  unfoldable pub resync_to_user : VoiceSessionManager → UserId → ChannelKeys → ChannelKeys
  unfolding get_key
  resync_to_user v user s = elim (user_channel user v) [
    | none ↦ s
    | some channel ↦ elim (get_key channel s.e2ee_keys_) [
      | none ↦ s
      | some k ↦ elim (e.hub_of channel) [
        | none ↦ s
        | some hub ↦ record s { published = s.published ++ to_user hub channel user k ∷ [] }
      ]
    ]
  ]

-- The clear of the key and the clear of the times are two steps under two locks.
unfoldable pub clear_channel : Replies → ChannelId → ChannelKeys → ChannelKeys
unfolding clear_key clear_storage
clear_channel r channel s = record s {
  e2ee_keys_ = clear_key channel s.e2ee_keys_;
  redis_ = clear_storage r channel s.redis_;
  join_rotate_seen_ = erase channel s.join_rotate_seen_;
}

-- `*current_channel == channel` when there is one.
abbrev pub is_member_of : Option ChannelId → ChannelId → Bool
is_member_of none channel = false
is_member_of (some c) channel = ite (dec_eq c channel) true false

unfoldable pub other_members_present : VoiceSessionManager → ChannelId → UserId → Bool
unfolding is_channel_empty
other_members_present v channel user =
    not (is_member_of (user_channel user v) channel) && not (is_channel_empty channel v)

module _ (o : Setting) (e : Meets) where
  -- A join into a channel with members: the key in use again, or a new one.
  unfoldable pub key_for_joiner : ChannelId → UserId → ChannelKeys → ChannelKey × ChannelKeys
  unfolding record_join_and_should_debounce_rotation get_key rotate_and_broadcast
  key_for_joiner channel user s =
      let (debounce, after) = record_join_and_should_debounce_rotation o e channel user s in
      if debounce
      then elim (get_key channel after.e2ee_keys_) [
        | some k ↦ (k, after)
        | none ↦ rotate_and_broadcast o e channel after
      ]
      else rotate_and_broadcast o e channel after

  -- A first join or a return: the key in memory, which is stored again, or a first key.
  unfoldable pub key_for_first :
      (ChannelKeys → ChannelKeys)
      → VoiceSessionManager
      → ChannelId
      → ChannelKeys
      → Option ChannelKey × ChannelKeys
  unfolding get_key persist_to_storage first_key is_channel_effectively_empty
  key_for_first meanwhile v channel s = elim (get_key channel s.e2ee_keys_) [
    | some k ↦ (some k, persist o e channel k (meanwhile s))
    | none ↦ first_key o e (is_channel_effectively_empty e v channel) channel (meanwhile s)
  ]

  -- The key, or `none` for the error "voice_key_unavailable".
  unfoldable pub acquire_for_join :
      (ChannelKeys → ChannelKeys)
      → VoiceSessionManager
      → ChannelId
      → UserId
      → ChannelKeys
      → Option ChannelKey × ChannelKeys
  unfolding other_members_present key_for_joiner key_for_first
  acquire_for_join meanwhile v channel user s =
      if other_members_present v channel user
      then (let (k, after) = key_for_joiner channel user s in (held (some k), after))
      else let (k, after) = key_for_first meanwhile v channel s in (held k, after)
