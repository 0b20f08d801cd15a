-- ===== src/Livekit/Keys/Ring.antt =====
-- The indexes of livekit/crypto/E2EEKeyManager.cpp are slots of the key ring.
use kergit_server.Base.{ℕ, ◌%◌, ◌<◌, ◌≡◌, refl, arith, Bool, true, Option, none, some, ltb}
use kergit_server.Base.Map.{find, find-put, find-erase, find-empty}
use kergit_server.Ids.{ChannelId, channel_id_key}
use kergit_server.Livekit.Keys.{
  Bytes, ChannelKey, KeyManager, init, keyring_size, state_of, next_index, held, assign, get_key,
  replace_key, get_or_create_key, set_key, rotate_key, clear_key,
}

abbrev pub fits : Option ChannelKey → Bool
fits none = true
fits (some k) = ltb k.key_index keyring_size

pub record IsInRing (m : KeyManager) : Type 0 where
  pub slot : (c : ChannelId) → fits (find c m.channels_) ≡ true

pub IsInRing-init : IsInRing init
unfolding init
IsInRing-init = record { slot = λ c. ground (arith, find-empty {V = ChannelKey} c) }

pub fits-held : (k : Option ChannelKey) → fits k ≡ true → fits (held k) ≡ true
fits-held none h = refl
fits-held (some k) h = ground (arith, h)

module _ (channel : ChannelId) (m : KeyManager) (h : IsInRing m) where
  pub fits-get_key : fits (get_key channel m) ≡ true
  unfolding get_key
  fits-get_key = fits-held (find channel m.channels_) (h.slot channel)

  IsInRing-assign : (k : ChannelKey) → fits (some k) ≡ true → IsInRing (assign channel k m)
  IsInRing-assign k l = record {
    slot = λ c. ground (arith, l, h.slot c, find-put channel c k m.channels_);
  }

  fits-state_of : fits (some (state_of (find channel m.channels_))) ≡ true
  fits-state_of = ground (arith, h.slot channel)

  -- The state after a new key, and the key.
  pub IsInRing-replace_key :
      (fresh : Option Bytes) (index : ℕ)
      → index < keyring_size
      → IsInRing (replace_key channel fresh index m).1
        × (fits (replace_key channel fresh index m).0 ≡ true)
  unfolding replace_key
  IsInRing-replace_key none index l =
      (IsInRing-assign (state_of (find channel m.channels_)) fits-state_of, refl)
  IsInRing-replace_key (some key) index l = (
    IsInRing-assign (record { key = key; key_index = index }) (ground (arith, l)),
    ground (arith, l),
  )

  pub IsInRing-get_or_create_key :
      (fresh : Option Bytes)
      → IsInRing (get_or_create_key channel fresh m).1
        × (fits (get_or_create_key channel fresh m).0 ≡ true)
  unfolding get_or_create_key
  IsInRing-get_or_create_key fresh =
      ground (arith, h, fits-get_key, IsInRing-replace_key fresh 0 (omega arith))

  pub IsInRing-rotate_key :
      (fresh : Option Bytes)
      → IsInRing (rotate_key channel fresh m).1 × (fits (rotate_key channel fresh m).0 ≡ true)
  unfolding rotate_key
  IsInRing-rotate_key fresh =
      IsInRing-replace_key fresh (next_index (state_of (find channel m.channels_))) (ground arith)

  pub IsInRing-set_key : (k : ChannelKey) → IsInRing (set_key channel k m)
  unfolding set_key
  IsInRing-set_key k =
      IsInRing-assign (record k { key_index = k.key_index % keyring_size }) (ground arith)

  pub IsInRing-clear_key : IsInRing (clear_key channel m)
  unfolding clear_key
  IsInRing-clear_key = record {
    slot = λ c. ground (arith, h.slot c, find-erase channel c m.channels_);
  }
