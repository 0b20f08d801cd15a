-- ===== src/Base/Map/Entries.antt =====
-- The operations of `Map` on the list of entries, and their laws.
use Prim.Native.Nat.{◌+◌}
use mathlib.Core.Path.{◌≡◌, refl}
use mathlib.Core.Logic.{ite}
use mathlib.Core.Bool.{Bool, true, false}
use mathlib.Core.List.{List, [], ◌∷◌, map}
use mathlib.Core.Option.{Option, none, some}
use native.Mathlib.Omega.{arith}
use kergit_server.Base.Tests.{Key, dec_eq, is_some, if◌then◌else◌}
use kergit_server.Base.Lists.{length}

abbrev pub is_nil {ℓ} : {A : Type ℓ} → List A → Bool
is_nil [] = true
is_nil (x ∷ xs) = false

module _ {ℓ} {K : Type ℓ} ⦃key : Key K⦄ where
  unfoldable pub elem : K → List K → Bool
  elem k [] = false
  elem k (j ∷ ks) = ite (dec_eq j k) true (elem k ks)

module _ {ℓ} {K V : Type ℓ} ⦃key : Key K⦄ where
  unfoldable pub find_entry : K → List (K × V) → Option V
  find_entry k [] = none
  find_entry k ((j, v) ∷ m) = ite (dec_eq j k) (some v) (find_entry k m)

  unfoldable pub put_entry : K → V → List (K × V) → List (K × V)
  put_entry k v [] = (k, v) ∷ []
  put_entry k v ((j, w) ∷ m) = ite (dec_eq j k) ((k, v) ∷ m) ((j, w) ∷ put_entry k v m)

  unfoldable pub erase_entry : K → List (K × V) → List (K × V)
  erase_entry k [] = []
  erase_entry k ((j, w) ∷ m) = ite (dec_eq j k) (erase_entry k m) ((j, w) ∷ erase_entry k m)

  pub find-put_entry :
      (k j : K) (v : V) (m : List (K × V))
      → find_entry j (put_entry k v m) ≡ ite (dec_eq k j) (some v) (find_entry j m)
  unfolding find_entry put_entry
  find-put_entry k j v [] = refl
  find-put_entry k j v ((i, w) ∷ m) = ground (arith, find-put_entry k j v m)

  pub find-erase_entry :
      (k j : K) (m : List (K × V))
      → find_entry j (erase_entry k m) ≡ ite (dec_eq k j) none (find_entry j m)
  unfolding find_entry erase_entry
  find-erase_entry k j [] = ground arith
  find-erase_entry k j ((i, w) ∷ m) = ground (arith, find-erase_entry k j m)

  -- No key twice.
  abbrev pub IsDistinct : List (K × V) → Type ℓ
  IsDistinct [] = Unit
  IsDistinct ((k, v) ∷ m) = (find_entry k m ≡ none) × IsDistinct m

  pub IsDistinct-put :
      (k : K) (v : V) (m : List (K × V)) → IsDistinct m → IsDistinct (put_entry k v m)
  unfolding find_entry put_entry
  IsDistinct-put k v [] d = (refl, tt)
  IsDistinct-put k v ((i, w) ∷ m) d =
      ground (arith, find-put_entry k i v m, IsDistinct-put k v m d.1)

  pub IsDistinct-erase : (k : K) (m : List (K × V)) → IsDistinct m → IsDistinct (erase_entry k m)
  unfolding erase_entry
  IsDistinct-erase k [] d = tt
  IsDistinct-erase k ((i, w) ∷ m) d =
      ground (arith, find-erase_entry k i m, IsDistinct-erase k m d.1)

  pub erase_absent : (k : K) (m : List (K × V)) → find_entry k m ≡ none → erase_entry k m ≡ m
  unfolding find_entry erase_entry
  erase_absent k [] h = refl
  erase_absent k ((i, w) ∷ m) h = ground (arith, erase_absent k m)

  pub length-put :
      (k : K) (v : V) (m : List (K × V))
      → length (put_entry k v m) ≡ length m + (if is_some (find_entry k m) then 0 else 1)
  unfolding find_entry put_entry
  length-put k v [] = refl
  length-put k v ((i, w) ∷ m) = ground (arith, length-put k v m)

  pub length-erase :
      (k : K) (m : List (K × V))
      → IsDistinct m
      → length (erase_entry k m) + (if is_some (find_entry k m) then 1 else 0) ≡ length m
  unfolding find_entry erase_entry
  length-erase k [] d = refl
  length-erase k ((i, w) ∷ m) d = ground (arith, length-erase k m d.1, erase_absent k m)

  pub elem-keys_entry :
      (k : K) (m : List (K × V)) → elem k (map (λ e. e.0) m) ≡ is_some (find_entry k m)
  unfolding find_entry elem
  elem-keys_entry k [] = refl
  elem-keys_entry k ((i, w) ∷ m) = by_test (dec_eq i k) _ (elem-keys_entry k m)
    where
      by_test :
          {A : Type ℓ} (d : Dec A) {x : Bool} (o : Option V)
          → x ≡ is_some o
          → ite d true x ≡ is_some (ite d (some w) o)
      by_test (yes p) o e = refl
      by_test (no p) o e = e
