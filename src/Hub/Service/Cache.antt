-- ===== src/Hub/Service/Cache.antt =====
-- app/services/hub: HubSnapshot.h, HubCache.cpp and ChannelCache.h.
use kergit_server.Base.{
  ℕ, ℕ_discrete, nat_key, String, String_discrete, Key, discrete_by₂, dec_eq, ite, List, Option,
  none, some, ◌⊎◌, inl, inr, ◌≡◌, refl, arith,
}
use kergit_server.Base.Map.{Map, find, put, erase, find-put, find-erase}
use kergit_server.Ids.{HubId, ChannelId, UserId, hub_id_key, channel_id_key}
use kergit_server.Cache
use kergit_server.Cache.{OnMemoryCache}
use kergit_server.Hub.RolePolicy.{Role}
use kergit_server.Hub.Domain.{Channel}

pub record HubSnapshot : Type 0 where
  pub hub_id : HubId
  pub owner_id : UserId
  pub name : String
  pub avatar_seed : String
  pub channel_ids : List ChannelId
  pub member_roles : Map UserId Role

-- The `std::any` of an entry: a pointer to a snapshot, or anything else.
pub data Any : Type 0 where
  snapshot : HubSnapshot → Any
  other : Any

pub data HubCacheError : Type 0 where
  not_found corrupted_entry : HubCacheError

-- core/cache/AnyKey.h: a key is the name of its type and its hash, and no more.
pub record AnyKey : Type 0 where
  pub type : String
  pub hash : ℕ

unfoldable pub AnyKey_discrete : Discrete AnyKey
unfolding String_discrete ℕ_discrete
AnyKey_discrete =
    discrete_by₂ (λ k. k.type) (λ k. k.hash) (λ a b e f. λ i. record { type = e i; hash = f i })
      String_discrete ℕ_discrete

instance abbrev pub any_key : Key AnyKey
any_key = record { dec = AnyKey_discrete }

-- The cache, with `std::hash<HubId>`, which nothing changes.
pub record HubCache : Type 0 where
  pub hash : HubId → ℕ
  pub cache_ : OnMemoryCache AnyKey Any

-- `AnyKey::make`
abbrev pub make_key : (HubId → ℕ) → HubId → AnyKey
make_key hash hub_id = record { type = "HubId"; hash = hash hub_id }

unfoldable pub get : HubId → HubCache → (HubSnapshot ⊎ HubCacheError) × HubCache
unfolding Cache.get Cache.discard
get hub_id c = elim (Cache.get (make_key c.hash hub_id) c.cache_) [
  | none ↦ (inr not_found, c)
  | some (snapshot s) ↦ (inl s, c)
  | some other ↦
      (inr corrupted_entry, record c { cache_ = Cache.discard (make_key c.hash hub_id) c.cache_ })
]

unfoldable pub put_snapshot : HubSnapshot → HubCache → HubCache
unfolding Cache.store
put_snapshot s c = record c {
  cache_ = Cache.store (make_key c.hash s.hub_id) (snapshot s) c.cache_;
}

unfoldable pub invalidate : HubId → HubCache → HubCache
unfolding Cache.discard
invalidate hub_id c = record c { cache_ = Cache.discard (make_key c.hash hub_id) c.cache_ }

-- What a lookup of the hub finds.
abbrev pub lookup : HubId → HubCache → Option Any
lookup hub_id c = find (make_key c.hash hub_id) c.cache_.map

pub lookup-put_snapshot :
    (s : HubSnapshot) (i : HubId) (c : HubCache)
    → lookup i (put_snapshot s c)
      ≡ ite (dec_eq (c.hash s.hub_id) (c.hash i)) (some (snapshot s)) (lookup i c)
unfolding put_snapshot Cache.store
lookup-put_snapshot s i c =
    ground
      (arith, find-put (make_key c.hash s.hub_id) (make_key c.hash i) (snapshot s) c.cache_.map)

pub lookup-invalidate :
    (hub_id i : HubId) (c : HubCache)
    → lookup i (invalidate hub_id c) ≡ ite (dec_eq (c.hash hub_id) (c.hash i)) none (lookup i c)
unfolding invalidate Cache.discard
lookup-invalidate hub_id i c =
    ground (arith, find-erase (make_key c.hash hub_id) (make_key c.hash i) c.cache_.map)

pub hash-put_snapshot : (s : HubSnapshot) (c : HubCache) → (put_snapshot s c).hash ≡ c.hash
unfolding put_snapshot
hash-put_snapshot s c = refl

pub hash-invalidate : (hub_id : HubId) (c : HubCache) → (invalidate hub_id c).hash ≡ c.hash
unfolding invalidate
hash-invalidate hub_id c = refl

pub record ChannelCache : Type 0 where
  pub cache : Map ChannelId Channel

unfoldable pub get_channel : ChannelId → ChannelCache → Option Channel
get_channel channel_id c = find channel_id c.cache

unfoldable pub put_channel : Channel → ChannelCache → ChannelCache
put_channel channel c = record { cache = put channel.id channel c.cache }

unfoldable pub invalidate_channel : ChannelId → ChannelCache → ChannelCache
invalidate_channel channel_id c = record { cache = erase channel_id c.cache }
