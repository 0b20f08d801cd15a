-- ===== src/Subscription/Vector.antt =====
-- The subscriber vector: removal by swapping with the last element.
use kergit_server.Base.{
  ℕ, ◌+◌, ◌≤◌, ◌≡◌, refl, true, false, List, [], ◌∷◌, ◌++◌, arith, ite, dec_eq, pop_back,
  if◌then◌else◌,
}
use kergit_server.Base.Map.{elem}
use kergit_server.Ids.{GlobalConnId, global_conn_id_key}

-- `vec.back()`, on a vector that is not empty.
abbrev pub back : GlobalConnId → List GlobalConnId → GlobalConnId
back x [] = x
back x (y ∷ ys) = back y ys

-- `*it = b` at the first `c`.
unfoldable pub overwrite : GlobalConnId → GlobalConnId → List GlobalConnId → List GlobalConnId
overwrite c b [] = []
overwrite c b (x ∷ xs) = ite (dec_eq x c) (b ∷ xs) (x ∷ overwrite c b xs)

unfoldable pub swap_remove : GlobalConnId → List GlobalConnId → List GlobalConnId
unfolding overwrite elem
swap_remove c [] = []
swap_remove c (x ∷ xs) =
    if elem c (x ∷ xs) then pop_back (overwrite c (back x xs) (x ∷ xs)) else x ∷ xs

abbrev pub one_if : GlobalConnId → GlobalConnId → ℕ
one_if c d = ite (dec_eq c d) 1 0

-- How often a connection stands in a vector.
abbrev pub occurs : GlobalConnId → List GlobalConnId → ℕ
occurs d [] = 0
occurs d (x ∷ xs) = one_if x d + occurs d xs

pub occurs-append :
    (d : GlobalConnId) (xs ys : List GlobalConnId) → occurs d (xs ++ ys) ≡ occurs d xs + occurs d ys
occurs-append d [] ys = omega arith
occurs-append d (x ∷ xs) ys = omega (arith, occurs-append d xs ys)

occurs-pop_back :
    (d x : GlobalConnId) (xs : List GlobalConnId)
    → occurs d (pop_back (x ∷ xs)) + one_if (back x xs) d ≡ occurs d (x ∷ xs)
occurs-pop_back d x [] = omega arith
occurs-pop_back d x (y ∷ ys) = omega (arith, occurs-pop_back d y ys)

occurs-overwrite :
    (c b d : GlobalConnId) (xs : List GlobalConnId)
    → elem c xs ≡ true
    → occurs d (overwrite c b xs) + one_if c d ≡ occurs d xs + one_if b d
unfolding overwrite elem
occurs-overwrite c b d [] h = absurd (ground arith)
occurs-overwrite c b d (x ∷ xs) h = ground (arith, occurs-overwrite c b d xs)

back-back : (x : GlobalConnId) (xs : List GlobalConnId) → back (back x xs) xs ≡ back x xs
back-back x [] = refl
back-back x (y ∷ ys) = refl

back-overwrite :
    (c x : GlobalConnId) (xs : List GlobalConnId) → back x (overwrite c (back x xs) xs) ≡ back x xs
unfolding overwrite
back-overwrite c x [] = refl
back-overwrite c x (y ∷ ys) = ground (arith, back-back y ys, back-overwrite c y ys)

-- The removal takes one occurrence away.
pub occurs-swap_remove :
    (c d : GlobalConnId) (xs : List GlobalConnId)
    → elem c xs ≡ true
    → occurs d (swap_remove c xs) + one_if c d ≡ occurs d xs
unfolding swap_remove overwrite elem
occurs-swap_remove c d [] h = absurd (ground arith)
occurs-swap_remove c d (x ∷ xs) h = ground (
  arith,
  occurs-overwrite c (back x xs) d (x ∷ xs),
  occurs-pop_back d (back x xs) xs,
  occurs-pop_back d x (overwrite c (back x xs) xs),
  back-back x xs,
  back-overwrite c x xs,
)

pub swap_remove_absent :
    (c : GlobalConnId) (xs : List GlobalConnId) → elem c xs ≡ false → swap_remove c xs ≡ xs
unfolding swap_remove elem
swap_remove_absent c [] h = refl
swap_remove_absent c (x ∷ xs) h = ground arith

pub occurs_absent :
    (c : GlobalConnId) (xs : List GlobalConnId) → elem c xs ≡ false → occurs c xs ≡ 0
unfolding elem
occurs_absent c [] h = refl
occurs_absent c (x ∷ xs) h = ground (arith, occurs_absent c xs)

pub occurs_present :
    (c : GlobalConnId) (xs : List GlobalConnId) → elem c xs ≡ true → 1 ≤ occurs c xs
unfolding elem
occurs_present c [] h = absurd (ground arith)
occurs_present c (x ∷ xs) h = ground (arith, occurs_present c xs)
