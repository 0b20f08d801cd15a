-- ===== src/Cache.antt =====
-- core/cache/OnMemoryCache.cpp: the cache of `std::any` values. The locks make each operation one
-- step.
use kergit_server.Base.{ℕ, Bool, true, false, Option, none, some, Key}
use kergit_server.Base.Map.{Map, empty, find, put, erase, contains as has, size}

pub record OnMemoryCache (K A : Type 0) : Type 0 where
  pub map : Map K A

module _ {K A : Type 0} where
  unfoldable pub init : OnMemoryCache K A
  init = record { map = empty }

  unfoldable pub clear : OnMemoryCache K A → OnMemoryCache K A
  clear c = record { map = empty }

  unfoldable pub entries : OnMemoryCache K A → ℕ
  entries c = size c.map

module _ {K A : Type 0} ⦃key : Key K⦄ where
  unfoldable pub contains : K → OnMemoryCache K A → Bool
  contains k c = has k c.map

  -- `none` is the CacheError "Key not found".
  unfoldable pub get : K → OnMemoryCache K A → Option A
  get k c = find k c.map

  unfoldable pub store : K → A → OnMemoryCache K A → OnMemoryCache K A
  store k value c = record { map = put k value c.map }

  unfoldable pub discard : K → OnMemoryCache K A → OnMemoryCache K A
  discard k c = record { map = erase k c.map }

  unfoldable pub update : K → (A → A) → OnMemoryCache K A → Bool × OnMemoryCache K A
  update k fn c = elim (find k c.map) [
    | none ↦ (false, c)
    | some value ↦ (true, record { map = put k (fn value) c.map })
  ]
