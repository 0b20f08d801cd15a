-- ===== src/Base/Tests.antt =====
-- Boolean tests, the conditional, and decidable equality as an interface.
use Prim.Native.Nat.{ℕ, ◌+◌, ◌%◌, ◌^◌, ◌≤◌, ◌<◌, compare, Ordering}
use Prim.Native.String.{String}
use mathlib.Core.Path.{◌≡◌, refl, ap}
use mathlib.Core.Logic.{◌⊎◌, inl, inr}
use mathlib.Core.Bool.{Bool, true, false}
use mathlib.Core.Option.{Option, none, some}
use native.Mathlib.Omega.{arith}
use native.Mathlib.Decide.{ℕ_discrete}
use text.Mathlib.Text.{◌==◌ as str_eq}
use text.Mathlib.TextEquality.{eq_iff}

abbrev pub ltb : ℕ → ℕ → Bool
ltb a b = elim (compare a b) [ Ordering.lt ↦ true | _ ↦ false ]

abbrev pub leb : ℕ → ℕ → Bool
leb a b = elim (compare a b) [ Ordering.gt ↦ false | _ ↦ true ]

infix 50 ◌==◌
abbrev pub ◌==◌ : ℕ → ℕ → Bool
a == b = elim (compare a b) [ Ordering.eq ↦ true | _ ↦ false ]

infix 1 if◌then◌else◌
abbrev pub if◌then◌else◌ {ℓ} : {A : Type ℓ} → Bool → A → A → A
if true then x else y = x
if false then x else y = y

-- `x + 1` on a `uint64_t`.
abbrev pub inc64 : ℕ → ℕ
inc64 n = (n + 1) % 2 ^ 64

pub ltb→lt : (a b : ℕ) → ltb a b ≡ true → a < b
ltb→lt a b h = ground arith

pub leb→le : (a b : ℕ) → leb a b ≡ true → a ≤ b
leb→le a b h = ground arith

-- To split on a computed value and keep the equation.
pub Bool-cases : (b : Bool) → (b ≡ true) ⊎ (b ≡ false)
Bool-cases true = inl refl
Bool-cases false = inr refl

pub Option-cases {ℓ} : {A : Type ℓ} (o : Option A) → (o ≡ none) ⊎ ((a : A) × (o ≡ some a))
Option-cases none = inl refl
Option-cases (some a) = inr (a, refl)

abbrev pub is_some {ℓ} : {A : Type ℓ} → Option A → Bool
is_some none = false
is_some (some a) = true

-- `operator==` of a key type, as a decision.
pub record Key {ℓ} (K : Type ℓ) : Type ℓ where
  pub dec : Discrete K

abbrev pub dec_eq {ℓ} : {K : Type ℓ} ⦃key : Key K⦄ → Discrete K
dec_eq ⦃key⦄ = key.dec

instance abbrev pub nat_key : Key ℕ
nat_key = record { dec = ℕ_discrete }

pub ne_of_str_eq : (s t : String) → str_eq s t ≡ false → ¬ (s ≡ t)
ne_of_str_eq s t h = λ e. ground (arith, eq_iff s t)

unfoldable pub String_discrete : Discrete String
unfolding Bool-cases
String_discrete s t = elim (Bool-cases (str_eq s t)) [
  | inl h ↦ yes ((eq_iff s t).0 h)
  | inr h ↦ no (ne_of_str_eq s t h)
]

instance abbrev pub string_key : Key String
string_key = record { dec = String_discrete }

-- Equality of a structure, decided by its fields.
abbrev pub discrete_by {ℓ κ} :
    {A : Type ℓ} {B : Type κ} (f : A → B) (inj : (a b : A) → f a ≡ f b → a ≡ b)
    → Discrete B
    → Discrete A
discrete_by f inj d a b = elim (d (f a) (f b)) [
  | yes e ↦ yes (inj a b e)
  | no h ↦ no (λ e. h (ap f e))
]

abbrev pub discrete_by₂ {ℓ} :
    {A B C : Type ℓ} (f : A → B) (g : A → C) (inj : (a b : A) → f a ≡ f b → g a ≡ g b → a ≡ b)
    → Discrete B
    → Discrete C
    → Discrete A
discrete_by₂ f g inj d₁ d₂ a b = elim (d₁ (f a) (f b)) [
  | yes e ↦ elim (d₂ (g a) (g b)) [ yes e' ↦ yes (inj a b e e') | no h ↦ no (λ p. h (ap g p)) ]
  | no h ↦ no (λ p. h (ap f p))
]
