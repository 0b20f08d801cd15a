-- ===== src/Base/Map/Table.antt =====
-- Tables of a database as maps in the order of insertion, and what a `SELECT` takes from them.
use mathlib.Core.Path.{◌≡◌, refl, sym}
use mathlib.Core.Logic.{ite}
use mathlib.Core.Bool.{Bool, true, false}
use mathlib.Core.Option.{Option, none, some}
use mathlib.Core.List.{List, [], ◌∷◌, ◌++◌, append_assoc, append-nil}
use native.Mathlib.Omega.{arith}
use kergit_server.Base.Tests.{Key, dec_eq, if◌then◌else◌}
use kergit_server.Base.Map.{Map, find, put, erase, IsMap, elem, IsDistinct, find-put}
use kergit_server.Base.Map.Entries.{find_entry, put_entry, erase_entry}

-- The test of an entry that may be missing.
abbrev pub holds {ℓ} : {V : Type ℓ} → (V → Bool) → Option V → Bool
holds p none = false
holds p (some v) = p v

module _ {K : Type 0} ⦃key : Key K⦄ where
  -- `std::remove` with `erase`.
  unfoldable pub remove : K → List K → List K
  remove k [] = []
  remove k (j ∷ js) = ite (dec_eq j k) (remove k js) (j ∷ remove k js)

  pub remove_absent : (k : K) (js : List K) → elem k js ≡ false → remove k js ≡ js
  unfolding remove elem
  remove_absent k [] h = refl
  remove_absent k (j ∷ js) h = ground (arith, remove_absent k js)

module _ {K V : Type 0} where
  abbrev pub keys_where_entry : (V → Bool) → List (K × V) → List K
  keys_where_entry p [] = []
  keys_where_entry p ((k, v) ∷ m) = if p v then k ∷ keys_where_entry p m else keys_where_entry p m

  -- SELECT id FROM table WHERE p, in the order of insertion.
  unfoldable pub keys_where : (V → Bool) → Map K V → List K
  keys_where p m = keys_where_entry p m.entries

  abbrev pub delete_entries : (V → Bool) → List (K × V) → List (K × V)
  delete_entries p [] = []
  delete_entries p ((k, v) ∷ m) = if p v then delete_entries p m else (k, v) ∷ delete_entries p m

  -- DELETE FROM table WHERE p
  unfoldable pub delete_where : (V → Bool) → Map K V → Map K V
  delete_where p m = record { entries = delete_entries p m.entries }

  keys_where-delete_entry :
      (p q : V → Bool) (m : List (K × V))
      → ((v : V) → q v ≡ true → p v ≡ false)
      → keys_where_entry p (delete_entries q m) ≡ keys_where_entry p m
  keys_where-delete_entry p q [] h = refl
  keys_where-delete_entry p q ((k, v) ∷ m) h = ground (arith, h v, keys_where-delete_entry p q m h)

  pub keys_where-delete :
      (p q : V → Bool) (m : Map K V)
      → ((v : V) → q v ≡ true → p v ≡ false)
      → keys_where p (delete_where q m) ≡ keys_where p m
  unfolding keys_where delete_where
  keys_where-delete p q m h = keys_where-delete_entry p q m.entries h

module _ {K V : Type 0} ⦃key : Key K⦄ where
  keys_where-new_entry :
      (p : V → Bool) (k : K) (v : V) (m : List (K × V))
      → find_entry k m ≡ none
      → keys_where_entry p (put_entry k v m) ≡ keys_where_entry p m ++ (if p v then k ∷ [] else [])
  unfolding find_entry put_entry
  keys_where-new_entry p k v [] h = ground arith
  keys_where-new_entry p k v ((j, w) ∷ m) h = ground (arith, keys_where-new_entry p k v m)

  pub keys_where-new :
      (p : V → Bool) (k : K) (v : V) (m : Map K V)
      → find k m ≡ none
      → keys_where p (put k v m) ≡ keys_where p m ++ (if p v then k ∷ [] else [])
  unfolding keys_where put find
  keys_where-new p k v m h = keys_where-new_entry p k v m.entries h

  keys_where-old_entry :
      (p : V → Bool) (k : K) (v w : V) (m : List (K × V))
      → find_entry k m ≡ some w
      → p v ≡ p w
      → keys_where_entry p (put_entry k v m) ≡ keys_where_entry p m
  unfolding find_entry put_entry
  keys_where-old_entry p k v w [] h e = absurd (ground arith)
  keys_where-old_entry p k v w ((j, u) ∷ m) h e = ground (arith, keys_where-old_entry p k v w m)

  pub keys_where-old :
      (p : V → Bool) (k : K) (v w : V) (m : Map K V)
      → find k m ≡ some w
      → p v ≡ p w
      → keys_where p (put k v m) ≡ keys_where p m
  unfolding keys_where put find
  keys_where-old p k v w m h e = keys_where-old_entry p k v w m.entries h e

  keys_where-erase_entry :
      (p : V → Bool) (k : K) (m : List (K × V))
      → keys_where_entry p (erase_entry k m) ≡ remove k (keys_where_entry p m)
  unfolding erase_entry remove
  keys_where-erase_entry p k [] = refl
  keys_where-erase_entry p k ((j, u) ∷ m) = ground (arith, keys_where-erase_entry p k m)

  pub keys_where-erase :
      (p : V → Bool) (k : K) (m : Map K V) → keys_where p (erase k m) ≡ remove k (keys_where p m)
  unfolding keys_where erase
  keys_where-erase p k m = keys_where-erase_entry p k m.entries

  elem-keys_where_entry :
      (p : V → Bool) (k : K) (m : List (K × V))
      → IsDistinct m
      → elem k (keys_where_entry p m) ≡ holds p (find_entry k m)
  unfolding elem find_entry
  elem-keys_where_entry p k [] d = refl
  elem-keys_where_entry p k ((j, v) ∷ m) d = ground (arith, d.0, elem-keys_where_entry p k m d.1)

  pub elem-keys_where :
      (p : V → Bool) (k : K) (m : Map K V) → IsMap m → elem k (keys_where p m) ≡ holds p (find k m)
  unfolding keys_where find
  elem-keys_where p k m d = elem-keys_where_entry p k m.entries d.distinct

  find-delete_entries :
      (p : V → Bool) (k : K) (m : List (K × V))
      → IsDistinct m
      → find_entry k (delete_entries p m)
        ≡ (if holds p (find_entry k m) then none else find_entry k m)
  unfolding find_entry
  find-delete_entries p k [] d = refl
  find-delete_entries p k ((j, v) ∷ m) d = ground (arith, d.0, find-delete_entries p k m d.1)

  pub find-delete_where :
      (p : V → Bool) (k : K) (m : Map K V)
      → IsMap m
      → find k (delete_where p m) ≡ (if holds p (find k m) then none else find k m)
  unfolding delete_where find
  find-delete_where p k m d = find-delete_entries p k m.entries d.distinct

  IsDistinct-delete :
      (p : V → Bool) (m : List (K × V)) → IsDistinct m → IsDistinct (delete_entries p m)
  IsDistinct-delete p [] d = tt
  IsDistinct-delete p ((j, v) ∷ m) d =
      ground (arith, d.0, find-delete_entries p j m d.1, IsDistinct-delete p m d.1)

  pub IsMap-delete : (p : V → Bool) (m : Map K V) → IsMap m → IsMap (delete_where p m)
  unfolding delete_where
  IsMap-delete p m d = record { distinct = IsDistinct-delete p m.entries d.distinct }

abbrev pub same {ℓ} : {K : Type ℓ} ⦃key : Key K⦄ → K → K → Bool
same a b = ite (dec_eq a b) true false

module _ {K V B : Type 0} where
  abbrev pub select_entries : (K → V → Bool) → (K → V → B) → List (K × V) → List B
  select_entries p f [] = []
  select_entries p f ((k, v) ∷ m) =
      if p k v then f k v ∷ select_entries p f m else select_entries p f m

  -- SELECT f FROM table WHERE p, in the order of insertion.
  unfoldable pub select : (K → V → Bool) → (K → V → B) → Map K V → List B
  select p f m = select_entries p f m.entries

  module _ ⦃key : Key K⦄ where
    select-put_entry :
        (p : K → V → Bool) (f : K → V → B) (k : K) (v : V) (m : List (K × V))
        → ((w : V) → p k w ≡ false)
        → select_entries p f (put_entry k v m) ≡ select_entries p f m
    unfolding put_entry
    select-put_entry p f k v [] h = ground (arith, h v)
    select-put_entry p f k v ((j, w) ∷ m) h = ground (arith, h v, h w, select-put_entry p f k v m h)

    -- An entry whose key fails the test changes nothing.
    pub select-put :
        (p : K → V → Bool) (f : K → V → B) (k : K) (v : V) (m : Map K V)
        → ((w : V) → p k w ≡ false)
        → select p f (put k v m) ≡ select p f m
    unfolding select put
    select-put p f k v m h = select-put_entry p f k v m.entries h

    select-erase_entry :
        (p : K → V → Bool) (f : K → V → B) (k : K) (m : List (K × V))
        → ((w : V) → p k w ≡ false)
        → select_entries p f (erase_entry k m) ≡ select_entries p f m
    unfolding erase_entry
    select-erase_entry p f k [] h = refl
    select-erase_entry p f k ((j, w) ∷ m) h = ground (arith, h w, select-erase_entry p f k m h)

    pub select-erase :
        (p : K → V → Bool) (f : K → V → B) (k : K) (m : Map K V)
        → ((w : V) → p k w ≡ false)
        → select p f (erase k m) ≡ select p f m
    unfolding select erase
    select-erase p f k m h = select-erase_entry p f k m.entries h

-- `table[j]` of a table of vectors.
abbrev pub listed {ℓ} : {C : Type ℓ} → Option (List C) → List C
listed none = []
listed (some l) = l

module _ {J C : Type 0} ⦃key : Key J⦄ where
  -- `table[j].push_back(c)` for every row
  unfoldable pub group : List (J × C) → Map J (List C) → Map J (List C)
  group [] table = table
  group ((j, c) ∷ rows) table = group rows (put j (listed (find j table) ++ (c ∷ [])) table)

  unfoldable pub of_group : J → List (J × C) → List C
  of_group j [] = []
  of_group j ((i, c) ∷ rows) = if same i j then c ∷ of_group j rows else of_group j rows

  pub find-group :
      (j : J) (rows : List (J × C)) (table : Map J (List C))
      → listed (find j (group rows table)) ≡ listed (find j table) ++ of_group j rows
  unfolding group of_group
  find-group j [] table = sym (append-nil (listed (find j table)))
  find-group j ((i, c) ∷ rows) table = ground (
    arith,
    find-group j rows (put i (listed (find i table) ++ (c ∷ [])) table),
    find-put i j (listed (find i table) ++ (c ∷ [])) table,
    append_assoc (listed (find j table)) (c ∷ []) (of_group j rows),
  )

module _ {K V : Type 0} where
  abbrev delete_key_entries : (K → Bool) → List (K × V) → List (K × V)
  delete_key_entries p [] = []
  delete_key_entries p ((k, v) ∷ m) =
      if p k then delete_key_entries p m else (k, v) ∷ delete_key_entries p m

  -- DELETE FROM table WHERE p, for a test of the key.
  unfoldable pub delete_keys : (K → Bool) → Map K V → Map K V
  delete_keys p m = record { entries = delete_key_entries p m.entries }

  module _ ⦃key : Key K⦄ where
    find-delete_key_entries :
        (p : K → Bool) (k : K) (m : List (K × V))
        → find_entry k (delete_key_entries p m) ≡ (if p k then none else find_entry k m)
    unfolding find_entry
    find-delete_key_entries p k [] = ground arith
    find-delete_key_entries p k ((j, v) ∷ m) = ground (arith, find-delete_key_entries p k m)

    pub find-delete_keys :
        (p : K → Bool) (k : K) (m : Map K V)
        → find k (delete_keys p m) ≡ (if p k then none else find k m)
    unfolding find delete_keys
    find-delete_keys p k m = find-delete_key_entries p k m.entries

    IsDistinct-delete_keys :
        (p : K → Bool) (m : List (K × V)) → IsDistinct m → IsDistinct (delete_key_entries p m)
    IsDistinct-delete_keys p [] d = tt
    IsDistinct-delete_keys p ((j, v) ∷ m) d =
        ground (arith, d.0, find-delete_key_entries p j m, IsDistinct-delete_keys p m d.1)

    pub IsMap-delete_keys : (p : K → Bool) (m : Map K V) → IsMap m → IsMap (delete_keys p m)
    unfolding delete_keys
    IsMap-delete_keys p m d = record { distinct = IsDistinct-delete_keys p m.entries d.distinct }

    module _ {B : Type 0} where
      select-delete_entries :
          (p : K → V → Bool) (f : K → V → B) (q : K → Bool) (m : List (K × V))
          → ((k : K) (v : V) → q k ≡ true → p k v ≡ false)
          → select_entries p f (delete_key_entries q m) ≡ select_entries p f m
      select-delete_entries p f q [] h = refl
      select-delete_entries p f q ((k, v) ∷ m) h =
          ground (arith, h k v, select-delete_entries p f q m h)

      pub select-delete :
          (p : K → V → Bool) (f : K → V → B) (q : K → Bool) (m : Map K V)
          → ((k : K) (v : V) → q k ≡ true → p k v ≡ false)
          → select p f (delete_keys q m) ≡ select p f m
      unfolding select delete_keys
      select-delete p f q m h = select-delete_entries p f q m.entries h
