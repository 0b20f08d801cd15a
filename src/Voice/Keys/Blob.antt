-- ===== src/Voice/Keys/Blob.antt =====
-- app/services/voice/ChannelKeyService.cpp: how a key is written to storage and read from it.
--
-- OpenSSL is a parameter: the cipher AES-256-GCM under the master key, and the base64 blocks. `none`
-- is a call that fails.
use kergit_server.Base.{
  ℕ, zero, suc, ◌+◌, ◌-◌, ◌%◌, Option, none, some, [], ◌∷◌, ◌++◌, length, ltb, ◌==◌, if◌then◌else◌,
}
use kergit_server.Base.Map.{is_nil}
use kergit_server.Livekit.Keys.{Bytes}

pub record Crypto : Type 0 where
  -- The nonce and the plaintext to the ciphertext and the tag, and back.
  pub seal : Bytes → Bytes → Option (Bytes × Bytes)
  pub open_sealed : Bytes → Bytes → Bytes → Option Bytes
  -- EVP_EncodeBlock and EVP_DecodeBlock
  pub encode_block : Bytes → Bytes
  pub decode_block : Bytes → Option Bytes

abbrev pub take : ℕ → Bytes → Bytes
take zero xs = []
take (suc n) [] = []
take (suc n) (x ∷ xs) = x ∷ take n xs

abbrev pub drop : ℕ → Bytes → Bytes
drop zero xs = xs
drop (suc n) [] = []
drop (suc n) (x ∷ xs) = drop n xs

-- 1 for the byte `=`, which fills up the last block.
abbrev pub is_fill : ℕ → ℕ
is_fill c = if c == 61 then 1 else 0

-- How many of the last two bytes are `=`.
abbrev pub fill_of : Bytes → ℕ
fill_of [] = 0
fill_of (c ∷ []) = is_fill c
fill_of (b ∷ c ∷ []) = is_fill b + is_fill c
fill_of (a ∷ b ∷ c ∷ s) = fill_of (b ∷ c ∷ s)

module _ (x : Crypto) where
  unfoldable pub base64_encode : Bytes → Option Bytes
  base64_encode input =
      if is_nil input
      then some []
      else let out = x.encode_block input in if is_nil out then none else some out

  unfoldable pub base64_decode : Bytes → Option Bytes
  base64_decode input =
      if is_nil input
      then some []
      else if length input % 4 == 0
      then elim (x.decode_block input) [
        | none ↦ none
        | some decoded ↦ some (take (length decoded - fill_of input) decoded)
      ]
      else none

  abbrev pub version : ℕ
  version = 1

  abbrev pub nonce_len : ℕ
  nonce_len = 12

  abbrev pub tag_len : ℕ
  tag_len = 16

  abbrev pub pack : Bytes → Bytes → Bytes → Bytes
  pack nonce ciphertext tag = version ∷ (nonce ++ (ciphertext ++ tag))

  -- The nonce is what RAND_bytes gives, `none` if it fails.
  unfoldable pub encrypt_key_blob : Option Bytes → Bytes → Option Bytes
  unfolding base64_encode
  encrypt_key_blob none plaintext = none
  encrypt_key_blob (some nonce) plaintext = elim (x.seal nonce plaintext) [
    | none ↦ none
    | some (ciphertext, tag) ↦ base64_encode (pack nonce ciphertext tag)
  ]

  -- The part of decrypt_key_blob after the base64.
  unfoldable pub unpack : Bytes → Option Bytes
  unpack [] = none
  unpack (first ∷ packed) =
      if ltb (length (first ∷ packed)) (1 + nonce_len + tag_len)
      then none
      else if first == version
      then (let ciphertext_len = length (first ∷ packed) - (1 + nonce_len + tag_len) in
          let rest = drop nonce_len packed in
          x.open_sealed (take nonce_len packed) (take ciphertext_len rest)
            (drop ciphertext_len rest))
      else none

  unfoldable pub decrypt_key_blob : Bytes → Option Bytes
  unfolding base64_decode unpack
  decrypt_key_blob encoded = elim (base64_decode encoded) [
    | none ↦ none
    | some packed ↦ unpack packed
  ]
