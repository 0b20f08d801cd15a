-- ===== src/Voice/Keys/Storage.antt =====
-- The blobs of ChannelKeyService.cpp, and what is stored and loaded: encrypt_key_blob and
-- decrypt_key_blob, persist_to_storage and load_from_storage.
use kergit_server.Base.{
  ℕ, zero, suc, ◌+◌, ◌-◌, ◌%◌, ◌<◌, ◌≡◌, sym, ap, subst, refl, arith, Bool, true, false, Option,
  some, [], ◌∷◌, ◌++◌, length, length-append, ite, dec_eq, ◌≢◌, String_discrete,
}
use kergit_server.Base.Map.{is_nil, find, find-put}
use kergit_server.Ids.{ChannelId}
use kergit_server.Livekit.Keys.{Bytes, ChannelKey, keyring_size}
use kergit_server.Redis.{Redis, Reply, arrives, value_of, setex, get}
use kergit_server.Voice.Keys.{
  Setting, Replies, StorageKey, storage_key_key, key_storage_key, index_storage_key, index_read,
  load_from_storage, persist_to_storage,
}
use kergit_server.Voice.Keys.Blob.{
  Crypto, take, drop, fill_of, pack, base64_encode, base64_decode, unpack, encrypt_key_blob,
  decrypt_key_blob,
}
use kergit_server.Voice.Keys.Decimal.{to_string, stoul-to_string}

take-append : (xs ys : Bytes) (n : ℕ) → n ≡ length xs → take n (xs ++ ys) ≡ xs
take-append [] ys zero h = refl
take-append [] ys (suc n) h = absurd (omega (arith, h))
take-append (x ∷ xs) ys zero h = absurd (omega (arith, h))
take-append (x ∷ xs) ys (suc n) h = ap (λ l. x ∷ l) (take-append xs ys n (omega (arith, h)))

drop-append : (xs ys : Bytes) (n : ℕ) → n ≡ length xs → drop n (xs ++ ys) ≡ ys
drop-append [] ys zero h = refl
drop-append [] ys (suc n) h = absurd (omega (arith, h))
drop-append (x ∷ xs) ys zero h = absurd (omega (arith, h))
drop-append (x ∷ xs) ys (suc n) h = drop-append xs ys n (omega (arith, h))

-- What OpenSSL makes of a key under a nonce: the tag has its length and opens the ciphertext, and
-- the base64 blocks come back with as many bytes more as there are fill bytes.
pub record OpensUp (x : Crypto) (nonce key : Bytes) : Type 0 where
  pub ciphertext : Bytes
  pub tag : Bytes
  pub padding : Bytes
  pub nonce_size : length nonce ≡ 12
  pub tag_size : length tag ≡ 16
  pub sealed : x.seal nonce key ≡ some (ciphertext, tag)
  pub opened : x.open_sealed nonce ciphertext tag ≡ some key
  pub is_text : is_nil (x.encode_block (pack x nonce ciphertext tag)) ≡ false
  pub aligned : length (x.encode_block (pack x nonce ciphertext tag)) % 4 ≡ 0
  pub decoded :
      x.decode_block (x.encode_block (pack x nonce ciphertext tag))
      ≡ some (pack x nonce ciphertext tag ++ padding)
  pub filled : length padding ≡ fill_of (x.encode_block (pack x nonce ciphertext tag))

module _ (x : Crypto) (nonce key : Bytes) (h : OpensUp x nonce key) where
  abbrev blob : Bytes
  blob = x.encode_block (pack x nonce h.ciphertext h.tag)

  abbrev packed : Bytes
  packed = pack x nonce h.ciphertext h.tag

  encrypt_lem : encrypt_key_blob x (some nonce) key ≡ some blob
  unfolding encrypt_key_blob base64_encode
  encrypt_lem = ground (arith, h.sealed, h.is_text)

  decode_lem : base64_decode x blob ≡ some packed
  unfolding base64_decode
  decode_lem = ground (
    arith,
    h.is_text,
    h.aligned,
    h.decoded,
    h.filled,
    length-append packed h.padding,
    take-append packed h.padding (length (packed ++ h.padding) - fill_of blob)
        (omega (arith, h.filled, length-append packed h.padding)),
  )

  length-packed : length packed ≡ 29 + length h.ciphertext
  length-packed = omega (
    arith,
    h.nonce_size,
    h.tag_size,
    length-append nonce (h.ciphertext ++ h.tag),
    length-append h.ciphertext h.tag,
  )

  unpack_lem : unpack x packed ≡ some key
  unfolding unpack
  unpack_lem = ground (
    arith,
    length-packed,
    h.opened,
    take-append nonce (h.ciphertext ++ h.tag) 12 (sym h.nonce_size),
    drop-append nonce (h.ciphertext ++ h.tag) 12 (sym h.nonce_size),
    take-append h.ciphertext h.tag (length packed - 29) (omega (arith, length-packed)),
    drop-append h.ciphertext h.tag (length packed - 29) (omega (arith, length-packed)),
  )

  -- A key that was encrypted is decrypted again.
  pub decrypt-encrypt :
      (b : Bytes) × (encrypt_key_blob x (some nonce) key ≡ some b)
      × (is_nil b ≡ false)
      × (decrypt_key_blob x b ≡ some key)
  unfolding decrypt_key_blob
  decrypt-encrypt = (blob, encrypt_lem, h.is_text, ground (arith, decode_lem, unpack_lem))

is_key_name : StorageKey → Bool
unfolding String_discrete
is_key_name n = ite (String_discrete n.prefix "voice:e2ee:channel:") true false

names_differ : (c : ChannelId) → key_storage_key c ≢ index_storage_key c
unfolding is_key_name String_discrete
names_differ c h = ground (arith, ap is_key_name h)

find-setex :
    (r : Reply) (k j : StorageKey) (ttl : ℕ) (v : Bytes) (m : Redis StorageKey)
    → r ≡ arrives
    → value_of (find j (setex r k ttl v m)) ≡ ite (dec_eq k j) (some v) (value_of (find j m))
unfolding setex
find-setex r k j ttl v m h =
    ground (arith, h, find-put k j (record { value = v; seconds = some ttl }) m)

module _ (o : Setting) (ready : o.storage_key_ready_ ≡ true) where
  -- What the two stored values make of a load when the replies to its reads arrive.
  load_of :
      (r : Replies)
      → r.got ≡ arrives
      → r.got_index ≡ arrives
      → (c : ChannelId) (raw text key : Bytes) (n : ℕ) (m : Redis StorageKey)
      → value_of (find (key_storage_key c) m) ≡ some raw
      → value_of (find (index_storage_key c) m) ≡ some text
      → is_nil raw ≡ false
      → decrypt_key_blob o.crypto raw ≡ some key
      → index_read o (some text) ≡ n
      → (load_from_storage o r c m).0 ≡ some (record { key = key; key_index = n })
  unfolding load_from_storage get
  load_of r g i c raw text key n m a b e d t = ground (arith, ready, g, i, a, b, e, d, t)

  index_text : (n : ℕ) → n < 16 → index_read o (some (to_string n)) ≡ n
  index_text n b =
      ground (
        arith,
        b,
        (stoul-to_string n (omega (arith, b))).0,
        (stoul-to_string n (omega (arith, b))).1,
      )

  persist_lem :
      (w : Replies) (c : ChannelId) (k : ChannelKey) (drawn : Option Bytes) (b : Bytes)
      → (m : Redis StorageKey) → is_nil k.key ≡ false
      → encrypt_key_blob o.crypto drawn k.key ≡ some b
      → persist_to_storage o w drawn c k m ≡ (
        true,
        setex w.wrote_index
            (index_storage_key c)
            o.key_ttl_
            (to_string k.key_index)
            (setex w.wrote (key_storage_key c) o.key_ttl_ b m),
      )
  unfolding persist_to_storage
  persist_lem w c k drawn b m e s = ground (arith, ready, e, s)

module _ (o : Setting) (w : Replies) (a : w.wrote ≡ arrives) (i : w.wrote_index ≡ arrives)
    (c : ChannelId) (b text : Bytes) (m : Redis StorageKey) where
  abbrev written : Redis StorageKey
  written =
      setex w.wrote_index (index_storage_key c) o.key_ttl_ text
        (setex w.wrote (key_storage_key c) o.key_ttl_ b m)

  written_key : value_of (find (key_storage_key c) written) ≡ some b
  written_key = ground (
    arith,
    names_differ c,
    find-setex w.wrote_index (index_storage_key c) (key_storage_key c) o.key_ttl_ text
        (setex w.wrote (key_storage_key c) o.key_ttl_ b m) i,
    find-setex w.wrote (key_storage_key c) (key_storage_key c) o.key_ttl_ b m a,
  )

  written_index : value_of (find (index_storage_key c) written) ≡ some text
  written_index = ground (
    arith,
    find-setex w.wrote_index (index_storage_key c) (index_storage_key c) o.key_ttl_ text
        (setex w.wrote (key_storage_key c) o.key_ttl_ b m) i,
  )

-- A key that is stored is loaded as it was, with its index, when the replies to the two writes and
-- to the two reads arrive, OpenSSL opens what it sealed, the key is not empty, its index is below
-- the size of the key ring, and storage has a master key.
pub load-persist :
    (o : Setting) (w r : Replies) (c : ChannelId) (k : ChannelKey) (nonce : Bytes)
    → (m : Redis StorageKey) → o.storage_key_ready_ ≡ true
    → OpensUp o.crypto nonce k.key
    → is_nil k.key ≡ false
    → k.key_index < keyring_size
    → w.wrote ≡ arrives
    → w.wrote_index ≡ arrives
    → r.got ≡ arrives
    → r.got_index ≡ arrives
    → (load_from_storage o r c (persist_to_storage o w (some nonce) c k m).1).0 ≡ some k
load-persist o w r c k nonce m ready h e l a i g j =
    let (b, encrypted, text, decrypted) = decrypt-encrypt o.crypto nonce k.key h in
    subst (λ p. (load_from_storage o r c p.1).0 ≡ some k)
      (sym (persist_lem o ready w c k (some nonce) b m e encrypted))
      (load_of o ready r g j c b (to_string k.key_index) k.key k.key_index
        (written o w a i c b (to_string k.key_index) m)
        (written_key o w a i c b (to_string k.key_index) m)
        (written_index o w a i c b (to_string k.key_index) m) text decrypted
        (index_text o ready k.key_index l))
