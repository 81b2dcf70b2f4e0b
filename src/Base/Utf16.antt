-- ===== src/Base/Utf16.antt =====
-- JavaScript's order of texts: by their UTF-16 code units, as `Array.prototype.sort` compares them.
use Prim.Native.Nat.{ℕ, compare, Ordering, ◌+◌, ◌-◌, ◌/◌, ◌%◌, ◌<◌}
use Prim.Native.Char.{Char, char, code, IsLt}
use Prim.Native.String.{String}
use mathlib.Core.Path.{◌≡◌, refl}
use mathlib.Core.Logic.{◌⊎◌, inl, inr, ◌≢◌}
use mathlib.Core.Bool.{Bool, true, false, not}
use mathlib.Core.List.{List, [], ◌∷◌}
use native.Mathlib.Omega.{arith, compare-lt}
use text.Mathlib.TextEquality.{Char-path}
use mqtt_chat.Base.Tests.{ltb, if◌then◌else◌, Bool-cases}

-- The code units of a text.
unfoldable pub utf16 : String → List ℕ
utf16 String.[] = []
utf16 (String.◌∷◌ c s) =
    let rest = utf16 s in
    if ltb (code c) 0x10000
    then code c ∷ rest
    else (0xD800 + (code c - 0x10000) / 0x400) ∷ (0xDC00 + (code c - 0x10000) % 0x400) ∷ rest

unfoldable pub before_units : List ℕ → List ℕ → Bool
before_units xs [] = false
before_units [] (y ∷ ys) = true
before_units (x ∷ xs) (y ∷ ys) =
    let rest = before_units xs ys in if ltb x y then true else if ltb y x then false else rest

-- `s < t`.
abbrev pub before : String → String → Bool
before s t = before_units (utf16 s) (utf16 t)

before_units_asym : (xs ys : List ℕ) → before_units xs ys ≡ true → before_units ys xs ≡ false
unfolding before_units
before_units_asym xs [] h = cc
before_units_asym [] (y ∷ ys) h = refl
before_units_asym (x ∷ xs) (y ∷ ys) h = ground (arith, before_units_asym xs ys)

before_units_total :
    (xs ys : List ℕ) → before_units xs ys ≡ false → before_units ys xs ≡ false → xs ≡ ys
unfolding before_units
before_units_total [] [] h k = refl
before_units_total [] (y ∷ ys) h k = cc
before_units_total (x ∷ xs) [] h k = cc
before_units_total (x ∷ xs) (y ∷ ys) h k = ground (arith, before_units_total xs ys)

-- The clauses of `IsScalar`, whose helpers are private.
abbrev Both : Ordering → Ordering → Type 0
Both Ordering.lt o = IsLt o
Both Ordering.eq _ = ⊥
Both Ordering.gt _ = ⊥

abbrev Scalar : Ordering → Ordering → Ordering → Type 0
Scalar Ordering.lt _ _ = Unit
Scalar Ordering.eq o p = Both o p
Scalar Ordering.gt o p = Both o p

-- No character is a surrogate.
in_range :
    (n : ℕ) (p q : Ordering)
    → compare 57343 n ≡ p
    → compare n 1114112 ≡ q
    → Both p q
    → (0xDFFF < n) × (n < 0x110000)
in_range n Ordering.lt Ordering.lt b c h = (compare-lt 57343 n b, compare-lt n 1114112 c)
in_range n Ordering.lt Ordering.eq b c h = absurd h
in_range n Ordering.lt Ordering.gt b c h = absurd h
in_range n Ordering.eq q b c h = absurd h
in_range n Ordering.gt q b c h = absurd h

Scalar-by :
    (n : ℕ) (o : Ordering)
    → compare n 55296 ≡ o
    → Scalar o (compare 57343 n) (compare n 1114112)
    → (n < 0xD800) ⊎ ((0xDFFF < n) × (n < 0x110000))
Scalar-by n Ordering.lt a h = inl (compare-lt n 55296 a)
Scalar-by n Ordering.eq a h = inr (in_range n (compare 57343 n) (compare n 1114112) refl refl h)
Scalar-by n Ordering.gt a h = inr (in_range n (compare 57343 n) (compare n 1114112) refl refl h)

scalar-cases : (c : Char) → (code c < 0xD800) ⊎ ((0xDFFF < code c) × (code c < 0x110000))
scalar-cases (char n p) = Scalar-by n (compare n 55296) refl p

abbrev units : ℕ → List ℕ → List ℕ
units n rest =
    if ltb n 0x10000
    then n ∷ rest
    else (0xD800 + (n - 0x10000) / 0x400) ∷ (0xDC00 + (n - 0x10000) % 0x400) ∷ rest

div_mod : (m n : ℕ) → m / 0x400 ≡ n / 0x400 → m % 0x400 ≡ n % 0x400 → m ≡ n
div_mod m n q r = omega arith

units-inj_by :
    (m n : ℕ) (xs ys : List ℕ)
    → (m < 0xD800) ⊎ ((0xDFFF < m) × (m < 0x110000))
    → (n < 0xD800) ⊎ ((0xDFFF < n) × (n < 0x110000))
    → units m xs ≡ units n ys
    → (m ≡ n) × (xs ≡ ys)
units-inj_by m n xs ys a b h = elim (Bool-cases (ltb m 0x10000)) [
  | inl low ↦ elim (Bool-cases (ltb n 0x10000)) [
    | inl also ↦ ground arith
    | inr high ↦ ground (arith, a, b)
  ]
  | inr high ↦ elim (Bool-cases (ltb n 0x10000)) [
    | inl low ↦ ground (arith, a, b)
    | inr also ↦ (ground (arith, div_mod (m - 0x10000) (n - 0x10000)), ground arith)
  ]
]

units-inj :
    (c d : Char) (xs ys : List ℕ)
    → units (code c) xs ≡ units (code d) ys
    → (code c ≡ code d) × (xs ≡ ys)
units-inj c d xs ys h = units-inj_by (code c) (code d) xs ys (scalar-cases c) (scalar-cases d) h

utf16-inj : (s t : String) → utf16 s ≡ utf16 t → s ≡ t
unfolding utf16
utf16-inj String.[] String.[] h = refl
utf16-inj String.[] (String.◌∷◌ d t) h = ground arith
utf16-inj (String.◌∷◌ c s) String.[] h = ground arith
utf16-inj (String.◌∷◌ c s) (String.◌∷◌ d t) h =
    let (heads, tails) = units-inj c d (utf16 s) (utf16 t) h in
    let e = Char-path c d heads in let f = utf16-inj s t tails in λ i. String.◌∷◌ (e i) (f i)

-- Of two different texts exactly one comes before the other.
pub before-not : (s t : String) → s ≢ t → before t s ≡ not (before s t)
before-not s t differ = elim (Bool-cases (before s t)) [
  | inl first ↦ ground (arith, before_units_asym (utf16 s) (utf16 t) first)
  | inr later ↦ elim (Bool-cases (before t s)) [
    | inl ahead ↦ ground arith
    | inr neither ↦
        absurd (differ (utf16-inj s t (before_units_total (utf16 s) (utf16 t) later neither)))
  ]
]
