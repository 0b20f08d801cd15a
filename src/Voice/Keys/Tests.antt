-- ===== src/Voice/Keys/Tests.antt =====
-- Tests of app/services/voice/ChannelKeyService.cpp.
use kergit_server.Base.{
  ℕ, ℕ_discrete, ◌≡◌, refl, arith, String_discrete, true, Option, some, [], ◌∷◌, ◌++◌, replicate,
  pop_back, is_some,
}
use kergit_server.Base.Map.{empty, is_empty, find, put}
use kergit_server.Ids.{
  ChannelId, UserId, HubId, ChannelId_discrete, UserId_discrete, channel_id_key, user_id_key,
}
use kergit_server.Livekit.Keys.{ChannelKey, get_key, init}
use kergit_server.Livekit.Keys.Ring.{fits}
use kergit_server.Livekit.Nodes.{LivekitNode}
use kergit_server.Redis.{arrives, get}
use kergit_server.Voice.Sessions.{VoiceSessionManager, join, leave_previous}
use kergit_server.Voice.Sessions as Sessions
use kergit_server.Voice.Sessions.Queries.{is_channel_empty}
use kergit_server.Voice.Keys.{
  ChannelKeys, Setting, Meets, Replies, StorageKey_discrete, load_from_storage, persist_to_storage,
}
use kergit_server.Voice.Keys.Blob.{Crypto}
use kergit_server.Voice.Keys.Storage.{OpensUp, load-persist}
use kergit_server.Voice.Keys.Calls.{
  acquire_for_join, rotate_and_broadcast, other_members_present, is_channel_effectively_empty,
  sweep,
}
use kergit_server.Voice.Keys.History.{Calls, done, acquires, rotates, clears, restores, start, run}
use kergit_server.Voice.Keys.Slots.{HasSlots}
use kergit_server.Voice.Keys.Slots.Runs.{keys_have_slots}
use kergit_server.Voice.Keys.Joins.{next_key, update_for, joiner_rotates, retry_reuses_key}
use kergit_server.Voice.Keys.First.{empty_room_gets_new_key, join_gives_key, return_stores_old_key}

abbrev lobby : ChannelId
lobby = record { value = "lobby" }

abbrev ann : UserId
ann = record { value = "ann" }

abbrev bob : UserId
bob = record { value = "bob" }

abbrev garden : HubId
garden = record { value = "garden" }

-- A cipher that hides nothing, and blocks of text that end in two zeros.
abbrev plain : Crypto
plain = record {
  seal = λ nonce key. some (key, replicate 16 0);
  open_sealed = λ nonce ciphertext tag. some ciphertext;
  encode_block = λ s. s ++ 0 ∷ 0 ∷ [];
  decode_block = λ s. some (pop_back (pop_back s));
}

abbrev all_arrive : Replies
all_arrive = record {
  got = arrives;
  got_index = arrives;
  wrote = arrives;
  wrote_index = arrives;
  erased = arrives;
  erased_index = arrives;
}

abbrev setting : Setting
setting = record {
  crypto = plain;
  storage_key_ready_ = true;
  key_ttl_ = 86400;
  join_rotate_debounce_ttl_ = 15;
}

abbrev node : LivekitNode
node = record {
  node_id = "one";
  public_host = "one.example";
  private_host = "10.0.0.1";
  active_rooms = 0;
  active_users = 0;
  load_score = 0;
}

-- A call at a time, with a fresh key of one byte.
abbrev at : ℕ → ℕ → Meets
at time byte = record {
  fresh = some (byte ∷ []);
  nonce = some (replicate 12 5);
  loading = all_arrive;
  storing = all_arrive;
  hub_of = λ c. some garden;
  configured_nodes = node ∷ [];
  list_participants = λ n c. some [];
  now = time;
}

abbrev nobody : VoiceSessionManager
nobody = record { channels_ = empty; user_to_channel_ = empty }

abbrev ann_there : VoiceSessionManager
ann_there = record {
  channels_ = put lobby (put ann Sessions.no_state empty) empty;
  user_to_channel_ = put ann (record { channel = lobby; owner_session = 1 }) empty;
}

abbrev fresh_start : ChannelKeys
fresh_start = start empty

abbrev alone : ChannelKeys → ChannelKeys
alone s = s

plain-OpensUp : (byte : ℕ) → OpensUp plain (replicate 12 5) (byte ∷ [])
plain-OpensUp byte = record {
  ciphertext = byte ∷ [];
  tag = replicate 16 0;
  padding = [];
  nonce_size = refl;
  tag_size = refl;
  sealed = refl;
  opened = refl;
  is_text = refl;
  aligned = refl;
  decoded = refl;
  filled = refl;
}

abbrev seven : ChannelKey
seven = record { key = 7 ∷ []; key_index = 3 }

load-persist_example :
    (load_from_storage setting all_arrive lobby
      (persist_to_storage setting all_arrive (some (replicate 12 5)) lobby seven empty).1).0
    ≡ some seven
load-persist_example =
    load-persist setting all_arrive all_arrive lobby seven (replicate 12 5) empty refl
      (plain-OpensUp 7) refl (ground arith) refl refl refl refl

-- Ann's call makes the first key of the lobby.
abbrev first_call : Option ChannelKey × ChannelKeys
first_call = acquire_for_join setting (at 100 1) alone nobody lobby ann fresh_start

computing : Unit {0}
unfolding start other_members_present is_channel_empty is_channel_effectively_empty sweep get_key
    find put get empty is_empty init acquire_for_join String_discrete ChannelId_discrete
    UserId_discrete ℕ_discrete StorageKey_discrete load_from_storage run
computing = tt

empty_room_gets_new_key_example :
    (first_call.0 ≡ some (record { key = 1 ∷ []; key_index = 0 }))
    × (get_key lobby first_call.1.e2ee_keys_ ≡ some (record { key = 1 ∷ []; key_index = 0 }))
    × (first_call.1.published ≡ [])
unfolding computing
empty_room_gets_new_key_example =
    empty_room_gets_new_key setting (at 100 1) lobby (1 ∷ []) refl refl alone nobody ann fresh_start
      refl refl refl refl

abbrev with_key : ChannelKeys
with_key = first_call.1

-- Bob comes to Ann's channel, and asks again 10 seconds later.
abbrev bobs_call : Option ChannelKey × ChannelKeys
bobs_call = acquire_for_join setting (at 200 2) alone ann_there lobby bob with_key

joiner_rotates_example :
    (bobs_call.0 ≡ some (next_key (2 ∷ []) lobby with_key))
    × (get_key lobby bobs_call.1.e2ee_keys_ ≡ some (next_key (2 ∷ []) lobby with_key))
    × (bobs_call.1.published
        ≡ with_key.published ++ update_for (some garden) lobby (next_key (2 ∷ []) lobby with_key))
unfolding computing
joiner_rotates_example =
    joiner_rotates setting lobby bob (at 200 2) alone ann_there with_key (2 ∷ []) refl tt refl refl

retry_reuses_key_example :
    (let again = acquire_for_join setting (at 210 3) alone ann_there lobby bob bobs_call.1 in
      (again.0 ≡ some (record { key = 2 ∷ []; key_index = 1 }))
      × (again.1.e2ee_keys_ ≡ bobs_call.1.e2ee_keys_)
      × (again.1.redis_ ≡ bobs_call.1.redis_)
      × (again.1.published ≡ bobs_call.1.published))
unfolding computing
retry_reuses_key_example =
    retry_reuses_key setting lobby bob (at 200 2) (at 210 3) alone alone ann_there ann_there
      with_key (record { key = 2 ∷ []; key_index = 1 }) refl refl (λ e. ground (arith, e))
      (ground arith) refl

join_gives_key_example :
    is_some (acquire_for_join setting (at 300 4) alone ann_there lobby bob fresh_start).0 ≡ true
unfolding computing
join_gives_key_example =
    join_gives_key setting (at 300 4) lobby (4 ∷ []) refl refl alone ann_there bob fresh_start refl

return_stores_old_key_example :
    (let rotated : ChannelKeys → ChannelKeys =
        λ t. (rotate_and_broadcast setting (at 301 5) lobby t).1 in
      let after = (acquire_for_join setting (at 300 4) rotated ann_there lobby ann with_key).1 in
      (get_key lobby after.e2ee_keys_ ≡ some (next_key (5 ∷ []) lobby with_key))
      × ((load_from_storage setting all_arrive lobby after.redis_).0
          ≡ some (record { key = 1 ∷ []; key_index = 0 })))
unfolding computing
return_stores_old_key_example =
    return_stores_old_key setting (at 300 4) (at 301 5) ann_there lobby ann with_key
      (record { key = 1 ∷ []; key_index = 0 }) (5 ∷ []) (replicate 12 5) all_arrive refl refl
      (ground arith) refl refl refl refl (plain-OpensUp 1) refl refl refl refl

-- Bob joins while the lobby is cleared and its key restored.
abbrev calls : Calls
calls = acquires (at 100 1) nobody lobby ann done (
    acquires (at 200 2) ann_there lobby bob (clears all_arrive lobby done)
      (rotates (at 300 3) lobby (restores (at 400 4) lobby done)))

keys_have_slots_example :
    HasSlots (run setting calls (start empty))
    × (fits
          (acquire_for_join setting
            (at 500 5)
            (run setting (clears all_arrive lobby done))
            ann_there
            lobby
            ann
            (run setting calls (start empty))).0
        ≡ true)
keys_have_slots_example =
    keys_have_slots setting calls (clears all_arrive lobby done) empty (at 500 5) ann_there lobby
      ann
