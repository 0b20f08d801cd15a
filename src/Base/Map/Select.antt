-- ===== src/Base/Map/Select.antt =====
-- Laws of `SELECT` with several columns, for tables whose primary keys are distinct.
use Prim.Native.Nat.{◌≤◌}
use mathlib.Core.Path.{◌≡◌, refl, ap, ◌∙◌}
use mathlib.Core.Logic.{inl, inr}
use mathlib.Core.Bool.{Bool, true}
use mathlib.Core.Option.{some}
use mathlib.Core.List.{List, [], ◌∷◌, ◌++◌, map}
use native.Mathlib.Omega.{arith}
use kergit_server.Base.Tests.{Key, Bool-cases}
use kergit_server.Base.Lists.{All, length}
use kergit_server.Base.Map.{Map, find, IsMap, elem, IsDistinct, empty, find-empty}
use kergit_server.Base.Map.Entries.{find_entry}
use kergit_server.Base.Map.Table.{
  select, select_entries, keys_where, keys_where_entry, remove, delete_where, delete_entries, group,
  of_group, find-group, listed, same,
}

module _ {K V B : Type 0} ⦃key : Key K⦄ (P : B → Type 0) (p : K → V → Bool) (f : K → V → B) where
  All-select_entries :
      (l : List (K × V))
      → IsDistinct l
      → ((k : K) (v : V) → find_entry k l ≡ some v → p k v ≡ true → P (f k v))
      → All P (select_entries p f l)
  unfolding find_entry
  All-select_entries [] d h = tt
  All-select_entries ((k, v) ∷ l) d h =
      let rest : All P (select_entries p f l) =
        All-select_entries l d.1 (λ j w e t. h j w (ground (arith, e, d.0)) t) in
      elim (Bool-cases (p k v)) [ inl t ↦ rw t (h k v (ground arith) t, rest) | inr t ↦ rw t rest ]

  -- What holds of the rows that pass the test holds of the selection.
  pub All-select :
      (m : Map K V)
      → IsMap m
      → ((k : K) (v : V) → find k m ≡ some v → p k v ≡ true → P (f k v))
      → All P (select p f m)
  unfolding select find
  All-select m d h = All-select_entries m.entries d.distinct h

module _ {K V B : Type 0} where
  map-select_entries :
      (p : V → Bool) (f : K → V → B) (g : B → K) (l : List (K × V))
      → ((k : K) (v : V) → g (f k v) ≡ k)
      → map g (select_entries (λ k v. p v) f l) ≡ keys_where_entry p l
  map-select_entries p f g [] h = refl
  map-select_entries p f g ((k, v) ∷ l) h = ground (arith, h k v, map-select_entries p f g l h)

  pub map-select :
      (p : V → Bool) (f : K → V → B) (g : B → K) (m : Map K V)
      → ((k : K) (v : V) → g (f k v) ≡ k)
      → map g (select (λ k v. p v) f m) ≡ keys_where p m
  unfolding select keys_where
  map-select p f g m h = map-select_entries p f g m.entries h

module _ {J K V B : Type 0} ⦃key : Key J⦄ (owner : K → V → J) (f : K → V → B) (ids : List J) where
  of_group-select_entries :
      (j : J) (l : List (K × V))
      → elem j ids ≡ true
      → of_group j (select_entries (λ k v. elem (owner k v) ids) (λ k v. (owner k v, f k v)) l)
        ≡ select_entries (λ k v. same (owner k v) j) f l
  unfolding of_group
  of_group-select_entries j [] h = refl
  of_group-select_entries j ((k, v) ∷ l) h = ground (arith, h, of_group-select_entries j l h)

  -- The group of one key is the selection for that key.
  pub listed-group :
      (j : J) (m : Map K V)
      → elem j ids ≡ true
      → listed (
          find j (group (select (λ k v. elem (owner k v) ids) (λ k v. (owner k v, f k v)) m) empty))
        ≡ select (λ k v. same (owner k v) j) f m
  unfolding select
  listed-group j m h =
      let rows = select (λ k v. elem (owner k v) ids) (λ k v. (owner k v, f k v)) m in
      find-group j rows empty
      ∙ ap (λ o. listed o ++ of_group j rows) (find-empty {V = List B} j)
      ∙ of_group-select_entries j m.entries h

module _ {K : Type 0} ⦃key : Key K⦄ where
  pub length-remove : (k : K) (js : List K) → length (remove k js) ≤ length js
  unfolding remove
  length-remove k [] = ground arith
  length-remove k (j ∷ js) = ground (arith, length-remove k js)

module _ {K V : Type 0} where
  length-delete_entries :
      (p q : V → Bool) (l : List (K × V))
      → length (keys_where_entry p (delete_entries q l)) ≤ length (keys_where_entry p l)
  length-delete_entries p q [] = ground arith
  length-delete_entries p q ((k, v) ∷ l) = ground (arith, length-delete_entries p q l)

  pub length-delete :
      (p q : V → Bool) (m : Map K V)
      → length (keys_where p (delete_where q m)) ≤ length (keys_where p m)
  unfolding keys_where delete_where
  length-delete p q m = length-delete_entries p q m.entries
