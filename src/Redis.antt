-- ===== src/Redis.antt =====
-- infra/redis/RedisClient.cpp: the client of Redis and what it makes of an outage.
--
-- Redis is a map to values with the seconds they are kept; that time passes is `expire`. The keys
-- are of any type with a decision. Each request comes with what becomes of it: a `Reply`.
use kergit_server.Base.{ℕ, Bool, true, false, Option, none, some, Key}
use kergit_server.Base.Map.{Map, find, put, erase}
use kergit_server.Livekit.Keys.{Bytes}

-- An exception is thrown before the request is carried out (`refused`) or after it (`lost`).
pub data Reply : Type 0 where
  arrives refused lost : Reply

pub record Entry : Type 0 where
  pub value : Bytes
  pub seconds : Option ℕ

abbrev pub Redis : Type 0 → Type 0
Redis K = Map K Entry

abbrev pub carried_out : Reply → Bool
carried_out refused = false
carried_out _ = true

abbrev pub value_of : Option Entry → Option Bytes
value_of none = none
value_of (some e) = some e.value

abbrev pub seconds_of : Option Entry → Option ℕ
seconds_of none = none
seconds_of (some e) = e.seconds

module _ {K : Type 0} ⦃key : Key K⦄ where
  unfoldable pub setex : Reply → K → ℕ → Bytes → Redis K → Redis K
  setex refused k ttl value m = m
  setex _ k ttl value m = put k (record { value = value; seconds = some ttl }) m

  -- SETNX, then EXPIRE, each with its reply.
  unfoldable pub setnxex : Reply → Reply → K → ℕ → Bytes → Redis K → Option Bool × Redis K
  setnxex arrives e k ttl value m = elim (find k m) [
    | some old ↦ (some false, m)
    | none ↦ elim e [
      | arrives ↦ (some true, put k (record { value = value; seconds = some ttl }) m)
      | refused ↦ (none, put k (record { value = value; seconds = none }) m)
      | lost ↦ (none, put k (record { value = value; seconds = some ttl }) m)
    ]
  ]
  setnxex refused e k ttl value m = (none, m)
  setnxex lost e k ttl value m = elim (find k m) [
    | some old ↦ (none, m)
    | none ↦ (none, put k (record { value = value; seconds = none }) m)
  ]

  unfoldable pub get : Reply → K → Redis K → Option Bytes
  get arrives k m = value_of (find k m)
  get _ k m = none

  unfoldable pub del : Reply → K → Redis K → Redis K
  del refused k m = m
  del _ k m = erase k m

  -- A key that is missing and a key that is kept for ever have no time to live.
  unfoldable pub ttl : Reply → K → Redis K → Option ℕ
  ttl arrives k m = seconds_of (find k m)
  ttl _ k m = none

  unfoldable pub expire : K → Redis K → Redis K
  expire k m = erase k m
