-- ===== src/Livekit/Keys.antt =====
-- livekit/crypto/E2EEKeyManager.{h,cpp}: the key of each voice channel, in memory.
--
-- `mutex_` makes each method one step. The argument `fresh` is what `generate_key` makes of
-- RAND_bytes and the base64 of the JWT library: `none` is its exception.
pub mod Ring
use kergit_server.Base.{ℕ, ◌+◌, ◌%◌, Bool, true, false, Option, none, some, List, [], if◌then◌else◌}
use kergit_server.Base.Map.{Map, empty, is_nil, find, put, erase}
use kergit_server.Ids.{ChannelId, channel_id_key}

-- The bytes of a `std::string`.
abbrev pub Bytes : Type 0
Bytes = List ℕ

abbrev pub keyring_size : ℕ
keyring_size = 16

-- ChannelKey, and ChannelState with the same fields.
pub record ChannelKey : Type 0 where
  pub key : Bytes
  pub key_index : ℕ

pub record KeyManager : Type 0 where
  pub channels_ : Map ChannelId ChannelKey

unfoldable pub init : KeyManager
init = record { channels_ = empty }

abbrev pub no_key : ChannelKey
no_key = record { key = []; key_index = 0 }

-- `channels_[channel]`
abbrev pub state_of : Option ChannelKey → ChannelKey
state_of none = no_key
state_of (some state) = state

-- A state that is there and has a key.
abbrev pub held : Option ChannelKey → Option ChannelKey
held none = none
held (some state) = if is_nil state.key then none else some state

unfoldable pub get_key : ChannelId → KeyManager → Option ChannelKey
get_key channel m = held (find channel m.channels_)

abbrev pub assign : ChannelId → ChannelKey → KeyManager → KeyManager
assign channel state m = record { channels_ = put channel state m.channels_ }

-- When `generate_key` throws, the state that `channels_[channel]` made stays.
unfoldable pub replace_key :
    ChannelId → Option Bytes → ℕ → KeyManager → Option ChannelKey × KeyManager
replace_key channel none index m = (none, assign channel (state_of (find channel m.channels_)) m)
replace_key channel (some key) index m =
    let state : ChannelKey = record { key = key; key_index = index } in
    (some state, assign channel state m)

unfoldable pub get_or_create_key :
    ChannelId → Option Bytes → KeyManager → Option ChannelKey × KeyManager
unfolding get_key replace_key
get_or_create_key channel fresh m = elim (get_key channel m) [
  | some state ↦ (some state, m)
  | none ↦ replace_key channel fresh 0 m
]

unfoldable pub set_key : ChannelId → ChannelKey → KeyManager → KeyManager
set_key channel k m = assign channel (record k { key_index = k.key_index % keyring_size }) m

-- The index after the one of a state.
abbrev pub next_index : ChannelKey → ℕ
next_index state = if is_nil state.key then 0 else (state.key_index + 1) % keyring_size

unfoldable pub rotate_key : ChannelId → Option Bytes → KeyManager → Option ChannelKey × KeyManager
unfolding replace_key
rotate_key channel fresh m =
    replace_key channel fresh (next_index (state_of (find channel m.channels_))) m

unfoldable pub clear_key : ChannelId → KeyManager → KeyManager
clear_key channel m = record { channels_ = erase channel m.channels_ }
