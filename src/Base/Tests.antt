-- ===== src/Base/Tests.antt =====
-- Boolean tests: equality by instances, orders on numbers, the conditional.
use Prim.Native.Nat.{ℕ, compare, Ordering}
use Prim.Native.String.{String}
use mathlib.Core.Path.{◌≡◌, refl}
use mathlib.Core.Logic.{◌↔◌, ◌⊎◌, inl, inr}
use mathlib.Core.Bool.{Bool, true, false}
use mathlib.Core.Option.{Option, none, some}
use native.Mathlib.Omega.{arith}
use native.Mathlib.Decide.{ℕ_discrete}
use text.Mathlib.Text.{◌==◌ as str_eq}
use text.Mathlib.TextEquality.{eq_iff}

-- A type whose values the program compares with `===`.
pub record Eq {ℓ} (A : Type ℓ) : Type ℓ where
  pub decide_eq : Discrete A

infix 50 ◌==◌
abbrev pub ◌==◌ {ℓ} : {A : Type ℓ} ⦃e : Eq A⦄ → A → A → Bool
◌==◌ ⦃e⦄ a b = elim (e.decide_eq a b) [ yes _ ↦ true | no _ ↦ false ]

decide_by {ℓ} : {P : Type ℓ} (b : Bool) → ((b ≡ true) ↔ P) → Dec P
decide_by true e = yes (e.0 refl)
decide_by false e = no (λ p. cc (e.1 p))

unfoldable pub string_discrete : Discrete String
unfolding decide_by
string_discrete s t = decide_by (str_eq s t) (eq_iff s t)

instance abbrev pub nat_eq : Eq ℕ
nat_eq = record { decide_eq = ℕ_discrete }

instance abbrev pub string_eq : Eq String
string_eq = record { decide_eq = string_discrete }

abbrev pub ltb : ℕ → ℕ → Bool
ltb a b = elim (compare a b) [ Ordering.lt ↦ true | _ ↦ false ]

abbrev pub leb : ℕ → ℕ → Bool
leb a b = elim (compare a b) [ Ordering.gt ↦ false | _ ↦ true ]

infix 1 if◌then◌else◌
abbrev pub if◌then◌else◌ {ℓ} : {A : Type ℓ} → Bool → A → A → A
if true then x else y = x
if false then x else y = y

-- To split on a computed value and keep the equation.
pub Bool-cases : (b : Bool) → (b ≡ true) ⊎ (b ≡ false)
Bool-cases true = inl refl
Bool-cases false = inr refl

pub Option-cases {ℓ} : {A : Type ℓ} (o : Option A) → (o ≡ none) ⊎ ((a : A) × (o ≡ some a))
Option-cases none = inl refl
Option-cases (some a) = inr (a, refl)

module _ {ℓ} {A : Type ℓ} ⦃e : Eq A⦄ where
  pub ==_iff : (a b : A) → ((a == b) ≡ true) ↔ (a ≡ b)
  ==_iff a b = ground arith

  pub ==_refl : (a : A) → (a == a) ≡ true
  ==_refl a = ground arith
