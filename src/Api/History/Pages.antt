-- ===== src/Api/History/Pages.antt =====
-- What a page of the history holds.
use mqtt_chat.Base.{
  ℕ, zero, suc, ◌+◌, ◌≤◌, ◌<◌, String, Bool, ◌&&◌, List, [], ◌∷◌, length, take, count, ltb, ◌==◌,
  string_eq, nat_eq, ◌≡◌, refl, ap, ◌∙◌, arith, Bool-cases, inl, inr, length-take, length-append,
  count-filter, count-append, count-take-le,
}
use mqtt_chat.Store.Rows.{Message}
use mqtt_chat.Store.Prisma.{Prisma, IsPrisma}
use mqtt_chat.Api.History.{
  Parsed, nan, below_zero, natural, Query, reversed, limit_of, or_fifty, asks, parsed_limit,
  page_test, list_messages,
}

-- The latest first; equal sequences in any order.
abbrev pub IsFalling : List Message → Type 0
IsFalling [] = Unit
IsFalling (x ∷ []) = Unit
IsFalling (x ∷ y ∷ rest) = (y.sequence ≤ x.sequence) × IsFalling (y ∷ rest)

pub record IsDescending (order : List Message → List Message) : Type 0 where
  pub same_rows : (p : Message → Bool) (rows : List Message) → count p (order rows) ≡ count p rows
  pub falling : (rows : List Message) → IsFalling (order rows)

abbrev pub IsStrict : List Message → Type 0
IsStrict [] = Unit
IsStrict (x ∷ []) = Unit
IsStrict (x ∷ y ∷ rest) = (y.sequence < x.sequence) × IsStrict (y ∷ rest)

pub distinct-IsStrict :
    (ms : List Message)
    → IsFalling ms
    → ((s : ℕ) → count (λ (m : Message). m.sequence == s) ms ≤ 1)
    → IsStrict ms
distinct-IsStrict [] h d = tt
distinct-IsStrict (x ∷ []) h d = tt
distinct-IsStrict (x ∷ y ∷ rest) (le, h) d =
    (ground (arith, d x.sequence), distinct-IsStrict (y ∷ rest) h (λ s. ground (arith, d s)))

-- What follows the head of a strict list lies below it.
count-below :
    (p : Message → Bool) (b : ℕ) (x : Message) (rest : List Message)
    → IsStrict (x ∷ rest)
    → x.sequence < b
    → count (λ m. p m && ltb m.sequence b) (x ∷ rest) ≡ count p (x ∷ rest)
count-below p b x [] h lt = ground arith
count-below p b x (y ∷ rest) (le, h) lt = ground (arith, count-below p b y rest h (omega arith))

abbrev pub oldest : Message → List Message → Message
oldest x [] = x
oldest x (y ∷ rest) = oldest y rest

pub oldest-le :
    (x : Message) (rest : List Message) (n : ℕ)
    → IsStrict (x ∷ rest)
    → (oldest x (take n rest)).sequence ≤ x.sequence
oldest-le x [] zero h = omega arith
oldest-le x [] (suc n) h = omega arith
oldest-le x (y ∷ rest) zero h = omega arith
oldest-le x (y ∷ rest) (suc n) (le, h) = omega (arith, oldest-le y rest n h)

-- A strict list is its first rows and the rows below the last of these.
pub count-take-below :
    (p : Message → Bool) (n : ℕ) (x : Message) (rest : List Message)
    → IsStrict (x ∷ rest)
    → count p (x ∷ rest)
      ≡ count p (x ∷ take n rest)
        + count (λ m. p m && ltb m.sequence (oldest x (take n rest)).sequence) (x ∷ rest)
count-take-below p zero x [] h = ground arith
count-take-below p (suc n) x [] h = ground arith
count-take-below p zero x (y ∷ rest) (lt, h) = ground (arith, count-below p x.sequence y rest h lt)
count-take-below p (suc n) x (y ∷ rest) (lt, h) =
    ground (arith, count-take-below p n y rest h, oldest-le y rest n h)

pub count-reversed : (p : Message → Bool) (ms : List Message) → count p (reversed ms) ≡ count p ms
unfolding reversed
count-reversed p [] = refl
count-reversed p (m ∷ ms) =
    ground (arith, count-append p (reversed ms) (m ∷ []), count-reversed p ms)

pub length-reversed : (ms : List Message) → length (reversed ms) ≡ length ms
unfolding reversed
length-reversed [] = refl
length-reversed (m ∷ ms) = ground (arith, length-append (reversed ms) (m ∷ []), length-reversed ms)

pub limit_bounds : (v : Parsed) → (1 ≤ limit_of v) × (limit_of v ≤ 100)
limit_bounds nan = omega arith
limit_bounds below_zero = omega arith
limit_bounds (natural n) = ground arith

-- Every page asks for 1 to 100 rows and holds no more, and each row of it is a row of the conversation
-- between the cursors, as often as the table has it at most.
pub page_bounds :
    (P : Prisma) (parse_int : String → Parsed) (ascending descending : List Message → List Message)
    (table : List Message) (id : String) (q : Query) (p : Message → Bool)
    → IsPrisma P
    → ((r : Message → Bool) (rows : List Message) → count r (ascending rows) ≡ count r rows)
    → ((r : Message → Bool) (rows : List Message) → count r (descending rows) ≡ count r rows)
    → let page = list_messages P parse_int ascending descending table id q in
      let limit = parsed_limit P parse_int ascending descending q.limit in
      (1 ≤ limit)
      × (limit ≤ 100)
      × (length page.messages ≤ limit)
      × (count p page.messages
          ≤ count (λ m. p m && page_test P parse_int ascending descending id q m) table)
unfolding list_messages parsed_limit
page_bounds P parse_int ascending descending table id q p prisma up down =
    let test = page_test P parse_int ascending descending id q in
    let rows = P.find_many Message test table in
    let limit = limit_of (parse_int (or_fifty q.limit)) in
    let bounds = limit_bounds (parse_int (or_fifty q.limit)) in
    let found : count p rows ≡ count (λ m. p m && test m) table =
      ap (count p) (prisma.find_many_lem Message test table) ∙ count-filter p test table in
    elim (Bool-cases (asks q.after)) [
      | inl forward ↦ rw forward (
        bounds.0,
        bounds.1,
        omega (arith, length-take limit (ascending rows)),
        omega (arith, count-take-le p limit (ascending rows), up p rows, found),
      )
      | inr backward ↦ rw backward (
        bounds.0,
        bounds.1,
        omega (
          arith,
          length-reversed (take limit (descending rows)),
          length-take limit (descending rows),
        ),
        omega (
          arith,
          count-reversed p (take limit (descending rows)),
          count-take-le p limit (descending rows),
          down p rows,
          found,
        ),
      )
    ]
