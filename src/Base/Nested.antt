-- ===== src/Base/Nested.antt =====
-- A map of maps: tables that the program keeps free of empty rows.
use mathlib.Core.Path.{◌≡◌}
use mathlib.Core.Logic.{ite}
use mathlib.Core.Bool.{Bool, true, false}
use mathlib.Core.Option.{Option, none, some}
use native.Mathlib.Omega.{arith}
use kergit_server.Base.Tests.{Key, dec_eq, if◌then◌else◌}
use kergit_server.Base.Map.{
  Map, empty, is_empty, find, put, erase, find-put, find-erase, find-empty, find_of_is_empty,
}

-- `table[j]`, which makes a row that is missing.
abbrev pub row {ℓ} : {K V : Type ℓ} → Option (Map K V) → Map K V
row none = empty
row (some r) = r

module _ {ℓ} {J K V : Type ℓ} where
  module _ ⦃j_key : Key J⦄ ⦃k_key : Key K⦄ where
    abbrev pub lookup : J → K → Map J (Map K V) → Option V
    lookup j k table = find k (row (find j table))

    -- Erase an entry of the row `r` of `j`, and the row when it becomes empty.
    unfoldable pub drop : J → K → Map K V → Map J (Map K V) → Map J (Map K V) × Bool
    drop j k r table =
        let rest = erase k r in
        if is_empty rest then (erase j table, true) else (put j rest table, false)

    -- No row is empty.
    pub record NoEmpty (table : Map J (Map K V)) : Type ℓ where
      pub inhabited : (j : J) (r : Map K V) → find j table ≡ some r → is_empty r ≡ false

    module _ (j : J) (table : Map J (Map K V)) where
      pub lookup-put :
          (r : Map K V) (i : J) (h : K)
          → lookup i h (put j r table) ≡ ite (dec_eq j i) (find h r) (lookup i h table)
      lookup-put r i h = ground (arith, find-put j i r table)

      pub lookup-erase :
          (i : J) (h : K) → lookup i h (erase j table) ≡ ite (dec_eq j i) none (lookup i h table)
      lookup-erase i h = ground (arith, find-erase j i table, find-empty {V = V} h)

      pub lookup-drop :
          (k : K) (r : Map K V) (i : J) (h : K)
          → row (find j table) ≡ r
          → lookup i h (drop j k r table).0
            ≡ ite (dec_eq j i) (ite (dec_eq k h) none (lookup i h table)) (lookup i h table)
      unfolding drop
      lookup-drop k r i h e = ground (
        arith,
        find-put j i (erase k r) table,
        find-erase j i table,
        find-erase k h r,
        find-empty {V = V} h,
        find_of_is_empty h (erase k r),
      )

      pub NoEmpty-put : (r : Map K V) → is_empty r ≡ false → NoEmpty table → NoEmpty (put j r table)
      NoEmpty-put r e n = record {
        inhabited = λ i q h. ground (arith, find-put j i r table, n.inhabited i q);
      }

      pub NoEmpty-erase : NoEmpty table → NoEmpty (erase j table)
      NoEmpty-erase n = record {
        inhabited = λ i q h. ground (arith, find-erase j i table, n.inhabited i q);
      }

      pub NoEmpty-drop : (k : K) (r : Map K V) → NoEmpty table → NoEmpty (drop j k r table).0
      unfolding drop
      NoEmpty-drop k r n = record {
        inhabited = λ i q h.
            ground (arith, find-put j i (erase k r) table, find-erase j i table, n.inhabited i q);
      }
