-- ===== src/Bots/Conditions.antt =====
-- packages/bot-rules/src/condition-engine.ts, and the conditions of schema.ts.
use mqtt_chat.Base.{
  ℕ, suc, String, Option, none, some, Bool, true, false, not, ◌&&◌, ◌||◌, List, [], ◌∷◌, any, all,
  ◌==◌, string_eq, nat_eq, if◌then◌else◌, ◌≡◌, refl, arith, Bool-cases, Option-cases, inl, inr, ap,
}
use Prim.Native.Char.{code}
use mqtt_chat.Base.Utf16.{utf16}
use mqtt_chat.Bots.Value.{
  Numbers, Value, undefined, null, boolean, number, string, array, object, Items, nil, cons,
  own_field, item_count,
}

-- `conditionOperatorSchema`.
pub data Operator : Type 0 where
  equals not_equals contains not_contains starts_with ends_with matches_regex exists : Operator
  greater_than less_than includes_in not_in : Operator

pub record Condition (N : Type 0) : Type 0 where
  pub path : String
  pub operator : Operator
  pub value : Value N

abbrev pub forbidden : String → Bool
forbidden s = s == "__proto__" || (s == "prototype" || s == "constructor")

-- The first segment of a path, and the others.
pub record Split : Type 0 where
  pub head : String
  pub tail : List String

-- `path.split(".")`.
unfoldable pub split_dots : String → Split
split_dots String.[] = record { head = ""; tail = [] }
split_dots (String.◌∷◌ c s) =
    let rest = split_dots s in
    if code c == b'.'
    then record { head = ""; tail = rest.head ∷ rest.tail }
    else record { head = String.◌∷◌ c rest.head; tail = rest.tail }

unfoldable pub segments : String → List String
unfolding split_dots
segments path = let s = split_dots path in s.head ∷ s.tail

unfoldable pub prefix_of : List ℕ → List ℕ → Bool
prefix_of [] ys = true
prefix_of (x ∷ xs) [] = false
prefix_of (x ∷ xs) (y ∷ ys) = x == y && prefix_of xs ys

unfoldable pub equal_units : List ℕ → List ℕ → Bool
equal_units [] [] = true
equal_units [] (y ∷ ys) = false
equal_units (x ∷ xs) [] = false
equal_units (x ∷ xs) (y ∷ ys) = x == y && equal_units xs ys

unfoldable pub found_in : List ℕ → List ℕ → Bool
unfolding prefix_of
found_in xs [] = prefix_of xs []
found_in xs (y ∷ ys) = prefix_of xs (y ∷ ys) || found_in xs ys

unfoldable pub suffix_of : List ℕ → List ℕ → Bool
unfolding equal_units
suffix_of xs [] = equal_units xs []
suffix_of xs (y ∷ ys) = equal_units xs (y ∷ ys) || suffix_of xs ys

-- `regex pattern text` is `new RegExp(pattern, "i").test(text)`, and `none` where the pattern is invalid.
module _ (M : Numbers) (regex : String → String → Option Bool) where
  abbrev V : Type 0
  V = Value M.Number

  -- The own property of an array that a segment names, from the position `i` on.
  abbrev item_at : String → ℕ → Items M.Number → Option V
  item_at segment i nil = none
  item_at segment i (cons v vs) =
      if M.print (M.of_nat i) == segment then some v else item_at segment (suc i) vs

  -- `hasOwnProperty` and the read of it; `none` where the code returns `undefined`.
  abbrev pub own : V → String → Option V
  own (object fields) segment = own_field segment fields
  own (array items) segment =
      if segment == "length"
      then some (number (M.of_nat (item_count items)))
      else item_at segment 0 items
  own _ segment = none

  unfoldable pub resolve_segments : V → List String → V
  resolve_segments current [] = current
  resolve_segments current (s ∷ ss) =
      if forbidden s
      then undefined
      else elim (own current s) [ none ↦ undefined | some next ↦ resolve_segments next ss ]

  unfoldable pub resolve_path : V → String → V
  unfolding resolve_segments segments
  resolve_path context path = resolve_segments context (segments path)

  unfoldable pub to_string_value : V → Option String
  to_string_value (string s) = some s
  to_string_value (number n) = some (M.print n)
  to_string_value (boolean true) = some "true"
  to_string_value (boolean false) = some "false"
  to_string_value _ = none

  unfoldable pub to_number_value : V → Option M.Number
  to_number_value (number n) = some n
  to_number_value (string s) = M.read s
  to_number_value _ = none

  -- `===`: the value of a rule and the value of a context are never the same object.
  unfoldable pub strict_eq : V → V → Bool
  strict_eq undefined undefined = true
  strict_eq null null = true
  strict_eq (boolean true) (boolean true) = true
  strict_eq (boolean false) (boolean false) = true
  strict_eq (number m) (number n) = M.same m n
  strict_eq (string s) (string t) = s == t
  strict_eq _ _ = false

  -- `expected.includes(actual)`.
  unfoldable pub includes : Items M.Number → V → Bool
  unfolding strict_eq
  includes nil v = false
  includes (cons w ws) v = strict_eq v w || includes ws v

  abbrev both_texts : V → V → (String → String → Bool) → Bool → Bool
  both_texts a b test otherwise = elim (to_string_value a) [
    | none ↦ otherwise
    | some s ↦ elim (to_string_value b) [ none ↦ otherwise | some t ↦ test s t ]
  ]

  abbrev both_numbers : V → V → (M.Number → M.Number → Bool) → Bool
  both_numbers a b test = elim (to_number_value a) [
    | none ↦ false
    | some m ↦ elim (to_number_value b) [ none ↦ false | some n ↦ test m n ]
  ]

  abbrev is_there : V → Bool
  is_there undefined = false
  is_there null = false
  is_there _ = true

  abbrev among : V → V → Bool
  among actual (array items) = includes items actual
  among actual _ = false

  unfoldable pub evaluate_operator : Operator → V → V → Bool
  unfolding strict_eq to_string_value to_number_value includes found_in prefix_of suffix_of
  evaluate_operator equals actual expected = strict_eq actual expected
  evaluate_operator not_equals actual expected = not (strict_eq actual expected)
  evaluate_operator contains actual expected =
      both_texts actual expected (λ a b. found_in (utf16 b) (utf16 a)) false
  evaluate_operator not_contains actual expected =
      both_texts actual expected (λ a b. not (found_in (utf16 b) (utf16 a))) true
  evaluate_operator starts_with actual expected =
      both_texts actual expected (λ a b. prefix_of (utf16 b) (utf16 a)) false
  evaluate_operator ends_with actual expected =
      both_texts actual expected (λ a b. suffix_of (utf16 b) (utf16 a)) false
  evaluate_operator matches_regex actual expected =
      both_texts actual expected
        (λ a pattern. elim (regex pattern a) [ none ↦ false | some matched ↦ matched ]) false
  evaluate_operator exists actual expected = is_there actual
  evaluate_operator greater_than actual expected = both_numbers actual expected (λ a b. M.less b a)
  evaluate_operator less_than actual expected = both_numbers actual expected (λ a b. M.less a b)
  evaluate_operator includes_in actual expected = among actual expected
  evaluate_operator not_in actual expected = not (among actual expected)

  unfoldable pub evaluate_condition : Condition M.Number → V → Bool
  unfolding resolve_path evaluate_operator
  evaluate_condition c context = evaluate_operator c.operator (resolve_path context c.path) c.value

  unfoldable pub evaluate_conditions : List (Condition M.Number) → V → Bool
  unfolding evaluate_condition
  evaluate_conditions conditions context = all (λ c. evaluate_condition c context) conditions

  forbidden-segments :
      (context : V) (ss : List String)
      → any forbidden ss ≡ true
      → resolve_segments context ss ≡ undefined
  unfolding resolve_segments
  forbidden-segments context [] h = cc
  forbidden-segments context (s ∷ ss) h = elim (Bool-cases (forbidden s)) [
    | inl bad ↦ rw bad refl
    | inr fine ↦ elim (Option-cases (own context s)) [
      | inl missing ↦ ground (arith, fine, missing)
      | inr (next, there) ↦ ground (arith, fine, there, forbidden-segments next ss)
    ]
  ]

  -- Whatever the context, a condition on a path with a segment `__proto__`, `prototype` or `constructor` has the outcome
  -- of its operator on `undefined`.
  pub forbidden_paths :
      (c : Condition M.Number) (context : V)
      → any forbidden (segments c.path) ≡ true
      → evaluate_condition c context ≡ evaluate_operator c.operator undefined c.value
  unfolding evaluate_condition
  forbidden_paths c context bad =
      ap (λ v. evaluate_operator c.operator v c.value)
        (unfold resolve_path in forbidden-segments context (segments c.path) bad)
