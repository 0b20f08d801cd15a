-- ===== src/Base/Map.antt =====
-- `std::unordered_map` as an association list, and `std::unordered_set` as a map to `Unit`. The
-- order of the entries stands for the unspecified order of iteration.
mod Entries
pub mod Tally
pub mod Table
pub mod Select
use Prim.Native.Nat.{ℕ, ◌+◌}
use mathlib.Core.Path.{◌≡◌, refl, ap, ◌∙◌}
use mathlib.Core.Logic.{ite, if_pos}
use mathlib.Core.Bool.{Bool, true, false}
use mathlib.Core.List.{List, [], ◌∷◌, map}
use mathlib.Core.Option.{Option, none, some}
use native.Mathlib.Omega.{arith}
use kergit_server.Base.Tests.{Key, dec_eq, is_some, if◌then◌else◌}
use kergit_server.Base.Lists.{length}
use Entries.{
  put_entry, erase_entry, is_nil, find-put_entry, find-erase_entry, IsDistinct-put,
  IsDistinct-erase, length-put, length-erase, elem-keys_entry,
}
unfoldable pub use Entries.{elem, find_entry}
pub use Entries.{is_nil, IsDistinct}

pub record Map {ℓ} (K V : Type ℓ) : Type ℓ where
  pub entries : List (K × V)

module _ {ℓ} {K V : Type ℓ} where
  unfoldable pub empty : Map K V
  empty = record { entries = [] }

  unfoldable pub is_empty : Map K V → Bool
  is_empty m = is_nil m.entries

  unfoldable pub size : Map K V → ℕ
  size m = length m.entries

  unfoldable pub keys : Map K V → List K
  keys m = map (λ e. e.0) m.entries

pub is_empty-empty {ℓ} : (K V : Type ℓ) → is_empty (empty {K = K} {V = V}) ≡ true
unfolding is_empty empty
is_empty-empty K V = refl

pub size-empty {ℓ} : (K V : Type ℓ) → size (empty {K = K} {V = V}) ≡ 0
unfolding size empty
size-empty K V = refl

module _ {ℓ} {K V : Type ℓ} ⦃key : Key K⦄ where
  unfoldable pub find : K → Map K V → Option V
  unfolding find_entry
  find k m = find_entry k m.entries

  abbrev pub contains : K → Map K V → Bool
  contains k m = is_some (find k m)

  -- `m[k] = v`
  unfoldable pub put : K → V → Map K V → Map K V
  unfolding put_entry
  put k v m = record { entries = put_entry k v m.entries }

  -- `m.emplace(k, v)` and `m.try_emplace(k, v)`: an entry that is there stays.
  unfoldable pub emplace : K → V → Map K V → Map K V
  unfolding find put
  emplace k v m = if is_some (find k m) then m else put k v m

  unfoldable pub erase : K → Map K V → Map K V
  unfolding erase_entry
  erase k m = record { entries = erase_entry k m.entries }

  pub find-empty : (k : K) → find k (empty {V = V}) ≡ none
  unfolding find empty
  find-empty k = refl

  pub find-put :
      (k j : K) (v : V) (m : Map K V) → find j (put k v m) ≡ ite (dec_eq k j) (some v) (find j m)
  unfolding find put
  find-put k j v m = find-put_entry k j v m.entries

  pub find-put_self : (k : K) (v : V) (m : Map K V) → find k (put k v m) ≡ some v
  find-put_self k v m = ground (arith, find-put k k v m)

  pub find-erase : (k j : K) (m : Map K V) → find j (erase k m) ≡ ite (dec_eq k j) none (find j m)
  unfolding find erase
  find-erase k j m = find-erase_entry k j m.entries

  pub find_of_is_empty : (k : K) (m : Map K V) → is_empty m ≡ true → find k m ≡ none
  unfolding find is_empty
  find_of_is_empty k m h = ground arith

  pub nonempty_of_find : (k : K) (m : Map K V) → contains k m ≡ true → is_empty m ≡ false
  unfolding find is_empty
  nonempty_of_find k m h = ground arith

  pub find-emplace :
      (k j : K) (v : V) (m : Map K V)
      → find j (emplace k v m)
        ≡ (if contains k m then find j m else ite (dec_eq k j) (some v) (find j m))
  unfolding emplace
  find-emplace k j v m = ground (arith, find-put k j v m)

  pub nonempty-put : (k : K) (v : V) (m : Map K V) → is_empty (put k v m) ≡ false
  nonempty-put k v m = nonempty_of_find k (put k v m) (ap is_some (find-put_self k v m))

  pub nonempty-emplace : (k : K) (v : V) (m : Map K V) → is_empty (emplace k v m) ≡ false
  unfolding emplace
  nonempty-emplace k v m = ground (arith, nonempty-put k v m, nonempty_of_find k m)

  first_entry :
      (l : List (K × V)) → is_nil l ≡ false → (k : K) × (v : V) × (find_entry k l ≡ some v)
  unfolding find_entry
  first_entry [] h = absurd (ground arith)
  first_entry ((k, v) ∷ l) h = (k, v, ground arith)

  -- A map that is not empty has an entry.
  pub some_entry : (m : Map K V) → is_empty m ≡ false → (k : K) × (v : V) × (find k m ≡ some v)
  unfolding find is_empty
  some_entry m h = first_entry m.entries h

  pub elem-keys : (k : K) (m : Map K V) → elem k (keys m) ≡ contains k m
  unfolding keys find
  elem-keys k m = elem-keys_entry k m.entries

  -- No key twice: so for every map that the operations make.
  pub record IsMap (m : Map K V) : Type ℓ where
    pub distinct : IsDistinct m.entries

  pub IsMap-empty : IsMap empty
  unfolding empty
  IsMap-empty = record { distinct = tt }

  pub IsMap-put : (k : K) (v : V) (m : Map K V) → IsMap m → IsMap (put k v m)
  unfolding put
  IsMap-put k v m d = record { distinct = IsDistinct-put k v m.entries d.distinct }

  pub IsMap-erase : (k : K) (m : Map K V) → IsMap m → IsMap (erase k m)
  unfolding erase
  IsMap-erase k m d = record { distinct = IsDistinct-erase k m.entries d.distinct }

  pub size-put :
      (k : K) (v : V) (m : Map K V) → size (put k v m) ≡ size m + (if contains k m then 0 else 1)
  unfolding size put find
  size-put k v m = length-put k v m.entries

  pub size-erase :
      (k : K) (m : Map K V) → IsMap m → size (erase k m) + (if contains k m then 1 else 0) ≡ size m
  unfolding size erase find
  size-erase k m d = length-erase k m.entries d.distinct

  pub IsMap-emplace : (k : K) (v : V) (m : Map K V) → IsMap m → IsMap (emplace k v m)
  unfolding emplace
  IsMap-emplace k v m d = ground (arith, d, IsMap-put k v m d)

  pub size-emplace :
      (k : K) (v : V) (m : Map K V)
      → size (emplace k v m) ≡ size m + (if contains k m then 0 else 1)
  unfolding emplace
  size-emplace k v m = ground (arith, size-put k v m)

-- `std::unordered_set`
abbrev pub Set {ℓ} : Type ℓ → Type ℓ
Set K = Map K Unit

module _ {ℓ} {K : Type ℓ} ⦃key : Key K⦄ where
  abbrev pub insert : K → Set K → Set K
  insert k s = put k tt s
