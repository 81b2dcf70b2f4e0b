-- ===== src/Base/Lists.antt =====
-- Lists tested by Boolean functions, as the program's `filter`, `find`, `some` and `every` are.
use Prim.Native.Nat.{ℕ, zero, suc, ◌+◌, ◌≤◌, ◌<◌, min}
use mathlib.Core.Path.{◌≡◌, refl}
use mathlib.Core.Bool.{Bool, true, false, ◌&&◌, ◌||◌}
use mathlib.Core.Logic.{◌↔◌, ◌⊎◌, inl, inr}
use mathlib.Core.Option.{Option, none, some}
use mathlib.Core.List.{List, [], ◌∷◌, ◌++◌}
use native.Mathlib.Omega.{arith}
use mqtt_chat.Base.Tests.{if◌then◌else◌, Bool-cases}

module _ {ℓ} {A : Type ℓ} where
  abbrev pub length : List A → ℕ
  length [] = 0
  length (x ∷ xs) = suc (length xs)

  abbrev pub filter : (A → Bool) → List A → List A
  filter p [] = []
  filter p (x ∷ xs) = let rest = filter p xs in if p x then x ∷ rest else rest

  abbrev pub find : (A → Bool) → List A → Option A
  find p [] = none
  find p (x ∷ xs) = if p x then some x else find p xs

  abbrev pub any : (A → Bool) → List A → Bool
  any p [] = false
  any p (x ∷ xs) = p x || any p xs

  abbrev pub all : (A → Bool) → List A → Bool
  all p [] = true
  all p (x ∷ xs) = p x && all p xs

  abbrev pub All {κ} : (A → Type κ) → List A → Type κ
  All P [] = Unit
  All P (x ∷ xs) = P x × All P xs

module _ {ℓ} {A : Type ℓ} where
  pub length-append : (xs ys : List A) → length (xs ++ ys) ≡ length xs + length ys
  length-append [] ys = omega arith
  length-append (x ∷ xs) ys = omega (arith, length-append xs ys)

  pub filter-append :
      (p : A → Bool) (xs ys : List A) → filter p (xs ++ ys) ≡ filter p xs ++ filter p ys
  filter-append p [] ys = refl
  filter-append p (x ∷ xs) ys = ground (arith, filter-append p xs ys)

  pub any_never : (xs : List A) → any (λ _. false) xs ≡ false
  any_never [] = refl
  any_never (x ∷ xs) = any_never xs

  pub any-append : (p : A → Bool) (xs ys : List A) → any p (xs ++ ys) ≡ any p xs || any p ys
  any-append p [] ys = refl
  any-append p (x ∷ xs) ys = ground (arith, any-append p xs ys)

  pub length-filter-le : (p : A → Bool) (xs : List A) → length (filter p xs) ≤ length xs
  length-filter-le p [] = omega arith
  length-filter-le p (x ∷ xs) = ground (arith, length-filter-le p xs)

  -- What a search finds passes the test.
  pub find-test : (p : A → Bool) (xs : List A) (y : A) → find p xs ≡ some y → p y ≡ true
  find-test p [] y e = cc
  find-test p (x ∷ xs) y e = ground (arith, find-test p xs y)

  pub find-eq-none_iff : (p : A → Bool) (xs : List A) → (find p xs ≡ none) ↔ (any p xs ≡ false)
  find-eq-none_iff p [] = ground arith
  find-eq-none_iff p (x ∷ xs) = ground (arith, find-eq-none_iff p xs)

  pub any_of_find : (p : A → Bool) (xs : List A) (y : A) → find p xs ≡ some y → any p xs ≡ true
  any_of_find p [] y e = cc
  any_of_find p (x ∷ xs) y e = ground (arith, any_of_find p xs y)

module _ {ℓ} {A : Type ℓ} where
  abbrev pub take : ℕ → List A → List A
  take zero xs = []
  take (suc n) [] = []
  take (suc n) (x ∷ xs) = x ∷ take n xs

  abbrev pub count : (A → Bool) → List A → ℕ
  count p [] = 0
  count p (x ∷ xs) = let rest = count p xs in if p x then suc rest else rest

  pub length-filter : (p : A → Bool) (xs : List A) → length (filter p xs) ≡ count p xs
  length-filter p [] = refl
  length-filter p (x ∷ xs) = ground (arith, length-filter p xs)

  pub count-append : (p : A → Bool) (xs ys : List A) → count p (xs ++ ys) ≡ count p xs + count p ys
  count-append p [] ys = omega arith
  count-append p (x ∷ xs) ys = ground (arith, count-append p xs ys)

  pub count-filter :
      (p q : A → Bool) (xs : List A) → count p (filter q xs) ≡ count (λ x. p x && q x) xs
  count-filter p q [] = refl
  count-filter p q (x ∷ xs) = ground (arith, count-filter p q xs)

  pub count-filter-le : (p q : A → Bool) (xs : List A) → count p (filter q xs) ≤ count p xs
  count-filter-le p q [] = omega arith
  count-filter-le p q (x ∷ xs) = ground (arith, count-filter-le p q xs)

  pub count-take-le : (p : A → Bool) (n : ℕ) (xs : List A) → count p (take n xs) ≤ count p xs
  count-take-le p zero xs = omega arith
  count-take-le p (suc n) [] = omega arith
  count-take-le p (suc n) (x ∷ xs) = ground (arith, count-take-le p n xs)

  pub count-always : (xs : List A) → count (λ _. true) xs ≡ length xs
  count-always [] = refl
  count-always (x ∷ xs) = omega (arith, count-always xs)

  pub length-take : (n : ℕ) (xs : List A) → length (take n xs) ≡ min n (length xs)
  length-take zero xs = omega arith
  length-take (suc n) [] = omega arith
  length-take (suc n) (x ∷ xs) = omega (arith, length-take n xs)

  pub count-any : (p : A → Bool) (xs : List A) → any p xs ≡ false → count p xs ≡ 0
  count-any p [] e = refl
  count-any p (x ∷ xs) e = ground (arith, count-any p xs)

  pub count-and-le : (p q : A → Bool) (xs : List A) → count (λ x. p x && q x) xs ≤ count p xs
  count-and-le p q [] = omega arith
  count-and-le p q (x ∷ xs) = ground (arith, count-and-le p q xs)

  -- The only element that passes one test fails the other.
  pub count-and_find :
      (p q : A → Bool) (xs : List A) (y : A)
      → find p xs ≡ some y
      → q y ≡ false
      → count p xs ≤ 1
      → count (λ x. p x && q x) xs ≡ 0
  count-and_find p q [] y found fails once = refl
  count-and_find p q (x ∷ xs) y found fails once = elim (Bool-cases (p x)) [
    | inl passes ↦ ground (arith, count-and-le p q xs)
    | inr passes ↦ ground (arith, count-and_find p q xs y)
  ]

  pub find-filter :
      (p q : A → Bool) (xs : List A) → find p (filter q xs) ≡ find (λ x. q x && p x) xs
  find-filter p q [] = refl
  find-filter p q (x ∷ xs) = ground (arith, find-filter p q xs)

  pub any-count : (p : A → Bool) (xs : List A) → any p xs ≡ true → 0 < count p xs
  any-count p [] e = cc
  any-count p (x ∷ xs) e = ground (arith, any-count p xs)

  pub any_of_count : (p : A → Bool) (xs : List A) → 0 < count p xs → any p xs ≡ true
  any_of_count p [] e = ground arith
  any_of_count p (x ∷ xs) e = ground (arith, any_of_count p xs)

  pub List-cases : (xs : List A) → (xs ≡ []) ⊎ ((x : A) × (rest : List A) × (xs ≡ x ∷ rest))
  List-cases [] = inl refl
  List-cases (x ∷ xs) = inr (x, xs, refl)
