-- ===== src/Base/Map/Tally.antt =====
-- How many keys of a map have a value.
use Prim.Native.Nat.{ℕ, ◌+◌}
use mathlib.Core.Path.{◌≡◌, refl}
use mathlib.Core.Logic.{ite}
use mathlib.Core.List.{List, [], ◌∷◌}
use mathlib.Core.Option.{Option, none, some}
use native.Mathlib.Omega.{arith}
use kergit_server.Base.Tests.{Key, dec_eq}
use kergit_server.Base.Map.{Map, find, put, erase, empty, IsMap}
use kergit_server.Base.Map.Entries.{find_entry, put_entry, erase_entry, IsDistinct}

module _ {V : Type 0} ⦃val : Key V⦄ where
  abbrev pub hits : V → Option V → ℕ
  hits w none = 0
  hits w (some v) = ite (dec_eq v w) 1 0

module _ {K V : Type 0} ⦃val : Key V⦄ where
  abbrev tally_entries : V → List (K × V) → ℕ
  tally_entries w [] = 0
  tally_entries w ((k, v) ∷ l) = hits w (some v) + tally_entries w l

  unfoldable pub tally : V → Map K V → ℕ
  tally w m = tally_entries w m.entries

module _ {V : Type 0} ⦃val : Key V⦄ where
  pub tally-empty : (K : Type 0) (w : V) → tally w (empty {K = K}) ≡ 0
  unfolding tally empty
  tally-empty K w = refl

module _ {K V : Type 0} ⦃key : Key K⦄ ⦃val : Key V⦄ where
  tally-put_entry :
      (k : K) (v w : V) (l : List (K × V))
      → tally_entries w (put_entry k v l) + hits w (find_entry k l)
        ≡ tally_entries w l + hits w (some v)
  unfolding put_entry find_entry
  tally-put_entry k v w [] = ground arith
  tally-put_entry k v w ((j, u) ∷ l) = ground (arith, tally-put_entry k v w l)

  pub tally-put :
      (k : K) (v w : V) (m : Map K V)
      → tally w (put k v m) + hits w (find k m) ≡ tally w m + hits w (some v)
  unfolding put find tally
  tally-put k v w m = tally-put_entry k v w m.entries

  tally-erase_absent :
      (k : K) (w : V) (l : List (K × V))
      → find_entry k l ≡ none
      → tally_entries w (erase_entry k l) ≡ tally_entries w l
  unfolding erase_entry find_entry
  tally-erase_absent k w [] h = refl
  tally-erase_absent k w ((j, u) ∷ l) h = ground (arith, tally-erase_absent k w l)

  tally-erase_entry :
      (k : K) (w : V) (l : List (K × V))
      → IsDistinct l
      → tally_entries w (erase_entry k l) + hits w (find_entry k l) ≡ tally_entries w l
  unfolding erase_entry find_entry
  tally-erase_entry k w [] d = ground arith
  tally-erase_entry k w ((j, u) ∷ l) d =
      ground (arith, d.0, tally-erase_entry k w l d.1, tally-erase_absent k w l)

  pub tally-erase :
      (k : K) (w : V) (m : Map K V) → IsMap m → tally w (erase k m) + hits w (find k m) ≡ tally w m
  unfolding erase find tally
  tally-erase k w m d = tally-erase_entry k w m.entries d.distinct
