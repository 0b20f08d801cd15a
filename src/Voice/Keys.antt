-- ===== src/Voice/Keys.antt =====
-- app/services/voice/ChannelKeyService.{h,cpp}: the key of each voice channel, in memory and storage.
--
-- The state is what the service keeps, Redis, and the key updates published so far. What comes from
-- outside is an argument: the cipher, the clock, the fresh key and nonce, the replies of Redis, the
-- participants that each LiveKit node reports, and the hub that HubService::getChannel gives for a
-- channel. A call is one step, except that what other threads do while acquire_for_join of a first
-- or returning member holds no lock is the argument `meanwhile`. For the calls in which the source
-- lets go of a lock in between (a join among members, clear_channel) or holds none
-- (restore_key_for_recovery) the interleavings within the call are left out. A name in Redis is its
-- prefix with the channel; neither prefix continues the other.
pub mod Blob
pub mod Calls
pub mod Decimal
pub mod Storage
pub mod History
pub mod Slots
pub mod Joins
pub mod First
mod Tests
use kergit_server.Base.{
  ℕ, ◌+◌, ◌*◌, ◌%◌, ◌^◌, Bool, true, false, not, ◌&&◌, Option, none, some, List, [], ◌∷◌, ◌++◌,
  String, Key, String_discrete, discrete_by₂, dec_eq, ite, ltb, ◌==◌, if◌then◌else◌,
}
use kergit_server.Base.Map.{Map, empty, is_nil, is_empty, find, put, erase}
use kergit_server.Ids.{ChannelId, UserId, HubId, ChannelId_discrete, channel_id_key, user_id_key}
use kergit_server.Livekit.Keys.{
  Bytes, ChannelKey, KeyManager, keyring_size, get_key, get_or_create_key, set_key, rotate_key,
  clear_key,
}
use kergit_server.Livekit.Nodes.{LivekitNode}
use kergit_server.Redis.{Redis, Reply, setex, get, del}
use kergit_server.Voice.Sessions.{VoiceSessionManager, user_channel}
use kergit_server.Voice.Sessions.Queries.{is_channel_empty}
use Blob.{Crypto, encrypt_key_blob, decrypt_key_blob}
use Decimal.{to_string, stoul}

pub record StorageKey : Type 0 where
  pub prefix : String
  pub channel : ChannelId

unfoldable pub StorageKey_discrete : Discrete StorageKey
unfolding String_discrete ChannelId_discrete
StorageKey_discrete =
    discrete_by₂ (λ k. k.prefix) (λ k. k.channel)
      (λ a b e f. λ i. record { prefix = e i; channel = f i }) String_discrete ChannelId_discrete

instance abbrev pub storage_key_key : Key StorageKey
storage_key_key = record { dec = StorageKey_discrete }

abbrev pub key_storage_key : ChannelId → StorageKey
key_storage_key c = record { prefix = "voice:e2ee:channel:"; channel = c }

abbrev pub index_storage_key : ChannelId → StorageKey
index_storage_key c = record { prefix = "voice:e2ee_idx:channel:"; channel = c }

-- A key update, for the participants of the channel or for one user.
pub data Update : Type 0 where
  to_channel : HubId → ChannelId → ChannelKey → Update
  to_user : HubId → ChannelId → UserId → ChannelKey → Update

pub record ChannelKeys : Type 0 where
  pub e2ee_keys_ : KeyManager
  pub redis_ : Redis StorageKey
  pub join_rotate_seen_ : Map ChannelId (Map UserId ℕ)
  pub published : List Update

-- The replies to the two names of a channel, for the kinds of request.
pub record Replies : Type 0 where
  pub got : Reply
  pub got_index : Reply
  pub wrote : Reply
  pub wrote_index : Reply
  pub erased : Reply
  pub erased_index : Reply

-- What a service has for its whole life, and what one call meets.
pub record Setting : Type 0 where
  pub crypto : Crypto
  pub storage_key_ready_ : Bool
  pub key_ttl_ : ℕ
  pub join_rotate_debounce_ttl_ : ℕ

pub record Meets : Type 0 where
  pub fresh : Option Bytes
  pub nonce : Option Bytes
  pub loading : Replies
  pub storing : Replies
  pub hub_of : ChannelId → Option HubId
  pub configured_nodes : List LivekitNode
  pub list_participants : LivekitNode → ChannelId → Option (List UserId)
  pub now : ℕ

module _ (o : Setting) where
  -- The index that is read, 0 when it is missing or no number.
  abbrev pub index_read : Option Bytes → ℕ
  index_read none = 0
  index_read (some raw) =
      if is_nil raw then 0 else elim (stoul raw) [ none ↦ 0 | some n ↦ n % 2 ^ 32 % keyring_size ]

  -- The end of load_from_storage: what was read is stored again for another lifetime.
  abbrev pub reload :
      Replies → ChannelId → Bytes → Bytes → Redis StorageKey → Option ChannelKey × Redis StorageKey
  reload r c raw key m =
      let index = index_read (get r.got_index (index_storage_key c) m) in
      (
        some (record { key = key; key_index = index }),
        setex r.wrote_index (index_storage_key c) o.key_ttl_ (to_string index)
            (setex r.wrote (key_storage_key c) o.key_ttl_ raw m),
      )

  unfoldable pub load_from_storage :
      Replies → ChannelId → Redis StorageKey → Option ChannelKey × Redis StorageKey
  load_from_storage r c m =
      if o.storage_key_ready_
      then elim (get r.got (key_storage_key c) m) [
        | none ↦ (none, m)
        | some raw ↦ if is_nil raw then (none, m) else elim (decrypt_key_blob o.crypto raw) [
          | none ↦ (none, m)
          | some key ↦ reload r c raw key m
        ]
      ]
      else (none, m)

  unfoldable pub persist_to_storage :
      Replies → Option Bytes → ChannelId → ChannelKey → Redis StorageKey → Bool × Redis StorageKey
  persist_to_storage r nonce c k m =
      if o.storage_key_ready_ && not (is_nil k.key)
      then elim (encrypt_key_blob o.crypto nonce k.key) [
        | none ↦ (false, m)
        | some blob ↦ (
          true,
          setex r.wrote_index (index_storage_key c) o.key_ttl_ (to_string k.key_index)
              (setex r.wrote (key_storage_key c) o.key_ttl_ blob m),
        )
      ]
      else (false, m)

unfoldable pub clear_storage : Replies → ChannelId → Redis StorageKey → Redis StorageKey
clear_storage r c m = del r.erased_index (index_storage_key c) (del r.erased (key_storage_key c) m)
