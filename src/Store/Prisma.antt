-- ===== src/Store/Prisma.antt =====
-- The calls of the Prisma client, which is not part of the repository: a parameter of every
-- definition that makes them. A table is the list of its rows, oldest first.
use mqtt_chat.Base.{
  ℕ, Option, none, some, Bool, not, List, [], ◌∷◌, ◌++◌, map, ◌≡◌, refl, sym, subst, if◌then◌else◌,
  filter, find, any, length,
}

-- `where` is a test of rows. `create` gets the test for a clash on a unique key, and fails
-- (P2002) if a row has one; the counts are the numbers of rows changed.
pub record Prisma : Type 1 where
  pub find_first : (Row : Type 0) → (Row → Bool) → List Row → Option Row
  pub find_many : (Row : Type 0) → (Row → Bool) → List Row → List Row
  pub create : (Row : Type 0) → (Row → Bool) → Row → List Row → Option (List Row)
  pub update_many : (Row : Type 0) → (Row → Bool) → (Row → Row) → List Row → List Row × ℕ
  pub delete_many : (Row : Type 0) → (Row → Bool) → List Row → List Row × ℕ

abbrev pub update_rows : {Row : Type 0} → (Row → Bool) → (Row → Row) → List Row → List Row
update_rows p f = map (λ r. if p r then f r else r)

-- The documented behaviour of those calls.
pub record IsPrisma (P : Prisma) : Type 1 where
  pub find_first_lem :
      (Row : Type 0) (p : Row → Bool) (rows : List Row) → P.find_first Row p rows ≡ find p rows
  pub find_many_lem :
      (Row : Type 0) (p : Row → Bool) (rows : List Row) → P.find_many Row p rows ≡ filter p rows
  pub create_lem :
      (Row : Type 0) (clash : Row → Bool) (row : Row) (rows : List Row)
      → P.create Row clash row rows ≡ (if any clash rows then none else some (rows ++ row ∷ []))
  pub update_many_lem :
      (Row : Type 0) (p : Row → Bool) (f : Row → Row) (rows : List Row)
      → P.update_many Row p f rows ≡ (update_rows p f rows, length (filter p rows))
  pub delete_many_lem :
      (Row : Type 0) (p : Row → Bool) (rows : List Row)
      → P.delete_many Row p rows ≡ (filter (λ r. not (p r)) rows, length (filter p rows))

-- A client that keeps the documented behaviour, and runs.
abbrev pub tables : Prisma
tables = record {
  find_first = λ Row p rows. find p rows;
  find_many = λ Row p rows. filter p rows;
  create = λ Row clash row rows. if any clash rows then none else some (rows ++ row ∷ []);
  update_many = λ Row p f rows. (update_rows p f rows, length (filter p rows));
  delete_many = λ Row p rows. (filter (λ r. not (p r)) rows, length (filter p rows));
}

pub tables-IsPrisma : IsPrisma tables
tables-IsPrisma = record {
  find_first_lem = λ Row p rows. refl;
  find_many_lem = λ Row p rows. refl;
  create_lem = λ Row clash row rows. refl;
  update_many_lem = λ Row p f rows. refl;
  delete_many_lem = λ Row p rows. refl;
}

-- What the laws leave open is nothing, so a statement is proved for `tables`, by computation.
pub eq-tables : {P : Prisma} → IsPrisma P → tables ≡ P
eq-tables {P} h = λ i. record {
  find_first = λ Row p rows. sym (h.find_first_lem Row p rows) i;
  find_many = λ Row p rows. sym (h.find_many_lem Row p rows) i;
  create = λ Row clash row rows. sym (h.create_lem Row clash row rows) i;
  update_many = λ Row p f rows. sym (h.update_many_lem Row p f rows) i;
  delete_many = λ Row p rows. sym (h.delete_many_lem Row p rows) i;
}

pub by_tables : (S : Prisma → Type 0) {P : Prisma} → IsPrisma P → S tables → S P
by_tables S h s = subst S (eq-tables h) s
