-- ===== src/Voice/PendingJoin/Laws.antt =====
-- What PendingJoinIntentStore.cpp stages, updates and reads again.
use kergit_server.Base.{
  ℕ, ◌<◌, ◌≡◌, refl, ap, arith, Bool, true, false, not, ◌||◌, String, some, String_discrete,
  if◌then◌else◌,
}
use kergit_server.Base.Map.{find, put, empty, find-put_self}
use kergit_server.Ids.{UserId, user_id_key}
use kergit_server.Livekit.Keys.{Bytes}
use kergit_server.Redis.{Redis, arrives, Entry, setex, get, ttl}
use kergit_server.Voice.PendingJoin.{
  PendingJoinIntent, JsonLib, doc_of, intent_of, is_blank, lifetime, ends_at, stage, read, update,
}

-- The intent with another end, and with no channel to come from when it does not have one.
abbrev pub as_read : PendingJoinIntent → ℕ → PendingJoinIntent
as_read i expires_at_unix = record i {
  from_channel = record { value = if i.has_from_channel then i.from_channel.value else "" };
  expires_at_unix = expires_at_unix;
}

has_kept : (b : Bool) (s : String) → (not (is_blank (if b then s else "")) || b) ≡ b
unfolding String_discrete
has_kept false s = refl
has_kept true s = ground arith

intent_of-doc_of :
    (user : UserId) (i : PendingJoinIntent) (n : ℕ)
    → intent_of (doc_of user i n) ≡ some (as_read i n)
unfolding intent_of doc_of find put empty String_discrete
intent_of-doc_of user i n =
    ap (λ b. some (record (as_read i n) { has_from_channel = b }))
      (has_kept i.has_from_channel i.from_channel.value)

-- The JSON library writes the document of an intent and reads it back.
pub record ReadsBack (j : JsonLib) (user : UserId) (i : PendingJoinIntent) (n : ℕ) : Type 0 where
  pub raw : Bytes
  pub dumped : j.dump (doc_of user i n) ≡ some raw
  pub parsed : j.parse raw ≡ some (doc_of user i n)

module _ (j : JsonLib) (user : UserId) where
  read_of :
      (i : PendingJoinIntent) (n seconds : ℕ) (m : Redis UserId)
      → (h : ReadsBack j user i n)
      → read j arrives user (setex arrives user seconds h.raw m) ≡ some (as_read i n)
  unfolding read get setex
  read_of i n seconds m h =
      let e : Entry = record { value = h.raw; seconds = some seconds } in
      ground (arith, find-put_self user e m, h.parsed, intent_of-doc_of user i n)

  ttl-setex :
      (seconds : ℕ) (value : Bytes) (m : Redis UserId)
      → ttl arrives user (setex arrives user seconds value m) ≡ some seconds
  unfolding ttl setex
  ttl-setex seconds value m =
      let e : Entry = record { value = value; seconds = some seconds } in
      ground (arith, find-put_self user e m)

  -- An intent that is staged, and then updated by a webhook, is read as it was updated, and until
  -- the end of the lifetime that it was staged with: of a channel to come from only when it has
  -- one. Before the update it is read as it was staged, with the end that its lifetime gives. So it
  -- is when the replies of Redis arrive, no time passes in between, the lifetime is not 0, and the
  -- JSON library writes and reads back the two documents.
  pub read-update-stage :
      (now expires_in_seconds : ℕ) (i next : PendingJoinIntent) (m : Redis UserId)
      → 0 < lifetime expires_in_seconds
      → ReadsBack j user i (ends_at now expires_in_seconds)
      → ReadsBack j user next next.expires_at_unix
      → (let staged = (stage j arrives now user i expires_in_seconds m).1 in
          let updated = update j arrives arrives user next staged in
          (read j arrives user staged ≡ some (as_read i (ends_at now expires_in_seconds)))
          × (updated.0 ≡ true)
          × (read j arrives user updated.1 ≡ some (as_read next next.expires_at_unix))
          × (ttl arrives user updated.1 ≡ some (lifetime expires_in_seconds)))
  unfolding stage update
  read-update-stage now expires_in_seconds i next m alive h g =
      let seconds = lifetime expires_in_seconds in
      let staged = setex arrives user seconds h.raw m in
      ground (
        arith,
        alive,
        read_of i (ends_at now expires_in_seconds) seconds m h,
        h.dumped,
        g.dumped,
        ttl-setex seconds h.raw m,
        read_of next next.expires_at_unix seconds staged g,
        ttl-setex seconds g.raw staged,
      )
