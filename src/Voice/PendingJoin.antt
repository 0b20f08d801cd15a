-- ===== src/Voice/PendingJoin.antt =====
-- app/services/voice/PendingJoinIntentStore.{h,cpp}: a user's staged join, as JSON in Redis.
--
-- A document is a map of its fields. The JSON library is a parameter: `dump`, whose
-- exception is `none`, and `parse`, which gives `none` for what is not an object. Of the values, those the code tells apart are written out.
-- A user's name in Redis is the user. A `Meets` is what the requests of one call come to.
pub mod Laws
mod Tests
use kergit_server.Base.{
  ℕ, ◌+◌, ◌%◌, ◌^◌, Bool, true, false, ◌||◌, not, Option, none, some, String, String_discrete,
  string_key, dec_eq, ite, if◌then◌else◌, ltb,
}
use kergit_server.Base.Map.{Map, empty, find, put}
use kergit_server.Ids.{ChannelId, UserId, user_id_key}
use kergit_server.Livekit.Keys.{Bytes}
use kergit_server.Redis.{Redis, Reply, setex, get, ttl, del}
use kergit_server.Hub.Names.{codes}
use kergit_server.Voice.Sessions.{SessionId}
use kergit_server.Voice.Keys.Decimal.{stoul}

pub record PendingJoinIntent : Type 0 where
  pub session_id : SessionId
  pub intent_nonce : String
  pub to_channel : ChannelId
  pub from_channel : ChannelId
  pub has_from_channel : Bool
  pub muted : Bool
  pub deafened : Bool
  pub old_leave_seen : Bool
  pub new_join_seen : Bool
  pub expires_at_unix : ℕ

-- `number` is an unsigned one; `other` is any other value.
pub data Json : Type 0 where
  text : String → Json
  number : ℕ → Json
  boolean : Bool → Json
  other : Json

abbrev pub Doc : Type 0
Doc = Map String Json

pub record JsonLib : Type 0 where
  pub dump : Doc → Option Bytes
  pub parse : Bytes → Option Doc

unfoldable pub doc_of : UserId → PendingJoinIntent → ℕ → Doc
doc_of user i expires_at_unix = put "expires_at_unix" (number expires_at_unix) (
    put "new_join_seen" (boolean i.new_join_seen) (
      put "old_leave_seen" (boolean i.old_leave_seen) (
        put "deafened" (boolean i.deafened) (
          put "muted" (boolean i.muted) (
            put "has_from_channel" (boolean i.has_from_channel) (
              put "from_channel" (text (if i.has_from_channel then i.from_channel.value else "")) (
                put "to_channel" (text i.to_channel.value) (
                  put "intent_nonce" (text i.intent_nonce) (
                    put "session_id" (number i.session_id)
                      (put "user_id" (text user.value) empty))))))))))

abbrev pub text_or : String → Option Json → String
text_or default (some (text s)) = s
text_or default _ = default

abbrev pub boolean_or : Bool → Option Json → Bool
boolean_or default (some (boolean b)) = b
boolean_or default _ = default

abbrev pub number_or : ℕ → Option Json → ℕ
number_or default (some (number n)) = n
number_or default _ = default

-- A number, or a text that `std::stoull` reads, whose exception is `none`.
abbrev pub session_of : Option Json → Option SessionId
session_of (some (number n)) = some n
session_of (some (text s)) = stoul (codes s)
session_of _ = some 0

abbrev pub text_of : Option Json → Option String
text_of (some (text s)) = some s
text_of _ = none

abbrev pub is_blank : String → Bool
is_blank s = ite (dec_eq s "") true false

unfoldable pub intent_of : Doc → Option PendingJoinIntent
intent_of doc = elim (session_of (find "session_id" doc)) [
  | none ↦ none
  | some session ↦ elim (text_of (find "to_channel" doc)) [
    | none ↦ none
    | some to ↦
        let from = text_or "" (find "from_channel" doc) in
        some (record {
          session_id = session;
          intent_nonce = text_or "" (find "intent_nonce" doc);
          to_channel = record { value = to };
          from_channel = record { value = from };
          has_from_channel = not (is_blank from) || boolean_or false (find "has_from_channel" doc);
          muted = boolean_or false (find "muted" doc);
          deafened = boolean_or false (find "deafened" doc);
          old_leave_seen = boolean_or false (find "old_leave_seen" doc);
          new_join_seen = boolean_or false (find "new_join_seen" doc);
          expires_at_unix = number_or 0 (find "expires_at_unix" doc);
        })
  ]
]

-- The lifetime of a staged intent, and the time it is written to end at.
abbrev pub lifetime : ℕ → ℕ
lifetime expires_in_seconds = (expires_in_seconds + 10) % 2 ^ 64

abbrev pub ends_at : ℕ → ℕ → ℕ
ends_at now expires_in_seconds = (now + lifetime expires_in_seconds) % 2 ^ 64

module _ (j : JsonLib) where
  unfoldable pub stage :
      Reply → ℕ → UserId → PendingJoinIntent → ℕ → Redis UserId → Bool × Redis UserId
  unfolding doc_of
  stage r now user i expires_in_seconds m =
      elim (j.dump (doc_of user i (ends_at now expires_in_seconds))) [
        | none ↦ (false, m)
        | some raw ↦ (true, setex r user (lifetime expires_in_seconds) raw m)
      ]

  unfoldable pub read : Reply → UserId → Redis UserId → Option PendingJoinIntent
  unfolding intent_of
  read r user m = elim (get r user m) [
    | none ↦ none
    | some raw ↦ elim (j.parse raw) [ none ↦ none | some doc ↦ intent_of doc ]
  ]

  -- The replies to TTL and to SETEX.
  unfoldable pub update :
      Reply → Reply → UserId → PendingJoinIntent → Redis UserId → Bool × Redis UserId
  unfolding doc_of
  update asked wrote user i m = elim (ttl asked user m) [
    | none ↦ (false, m)
    | some seconds ↦
        if ltb 0 seconds
        then elim (j.dump (doc_of user i i.expires_at_unix)) [
          | none ↦ (false, m)
          | some raw ↦ (true, setex wrote user seconds raw m)
        ]
        else (false, m)
  ]

unfoldable pub clear : Reply → UserId → Redis UserId → Redis UserId
clear r user m = del r user m
