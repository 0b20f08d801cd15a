-- ===== src/Voice/Keys/Decimal.antt =====
-- `std::to_string` and `std::stoul`, as ChannelKeyService.cpp uses them for the index of a key.
--
-- `stoul` reads digits: the white space, the sign and the rest that it also accepts never stand in
-- what this code stores.
use kergit_server.Base.{
  ℕ, zero, suc, ◌+◌, ◌-◌, ◌*◌, ◌/◌, ◌%◌, ◌<◌, ◌^◌, Bool, true, false, ◌&&◌, Option, none, some, [],
  ◌∷◌, ltb, leb, if◌then◌else◌, ◌≡◌, arith,
}
use kergit_server.Base.Map.{is_nil}
use kergit_server.Livekit.Keys.{Bytes}

-- On fuel, more of it than the number.
unfoldable pub digits : ℕ → ℕ → Bytes → Bytes
digits zero n after = after
digits (suc fuel) n after =
    if ltb n 10 then (48 + n) ∷ after else digits fuel (n / 10) ((48 + n % 10) ∷ after)

unfoldable pub to_string : ℕ → Bytes
unfolding digits
to_string n = digits (n + 1) n []

unfoldable pub number : ℕ → Bytes → ℕ
number v [] = v
number v (c ∷ s) = if leb 48 c && leb c 57 then number (v * 10 + (c - 48)) s else v

-- `none` is an exception: no digit first, or a number over the 64 bits.
unfoldable pub stoul : Bytes → Option ℕ
unfolding number
stoul [] = none
stoul (c ∷ s) =
    if leb 48 c && leb c 57 && ltb (number 0 (c ∷ s)) (2 ^ 64)
    then some (number 0 (c ∷ s))
    else none

abbrev pub starts_with_digit : Bytes → Bool
starts_with_digit [] = false
starts_with_digit (c ∷ s) = leb 48 c && leb c 57

number-digits :
    (fuel n : ℕ) (after : Bytes) → n < fuel → number 0 (digits fuel n after) ≡ number n after
unfolding digits number
number-digits zero n after h = absurd (omega (arith, h))
number-digits (suc fuel) n after h =
    ground (arith, h, number-digits fuel (n / 10) ((48 + n % 10) ∷ after))

digits_start :
    (fuel n : ℕ) (after : Bytes) → n < fuel → starts_with_digit (digits fuel n after) ≡ true
unfolding digits
digits_start zero n after h = absurd (omega (arith, h))
digits_start (suc fuel) n after h =
    ground (arith, h, digits_start fuel (n / 10) ((48 + n % 10) ∷ after))

stoul_of :
    (s : Bytes) (n : ℕ)
    → starts_with_digit s ≡ true
    → number 0 s ≡ n
    → n < 2 ^ 64
    → stoul s ≡ some n
unfolding stoul
stoul_of [] n h e b = absurd (ground arith)
stoul_of (c ∷ s) n h e b = ground (arith, h, e, b)

-- A number written in digits is not empty, and read back is the same number.
pub stoul-to_string :
    (n : ℕ) → n < 2 ^ 64 → (is_nil (to_string n) ≡ false) × (stoul (to_string n) ≡ some n)
unfolding to_string number
stoul-to_string n b = (
  ground (arith, digits_start (n + 1) n []),
  stoul_of (to_string n) n (digits_start (n + 1) n [] (omega arith))
      (number-digits (n + 1) n [] (omega arith)) b,
)
