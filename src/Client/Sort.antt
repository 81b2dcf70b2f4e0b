-- ===== src/Client/Sort.antt =====
-- `sort((a, b) => key(a) - key(b))`, which is stable.
use mqtt_chat.Base.{
  ℕ, ◌≤◌, Bool, List, [], ◌∷◌, count, leb, if◌then◌else◌, ◌≡◌, refl, sym, subst, arith, Bool-cases,
  inl, inr,
}
use mqtt_chat.Store.Order.{IsSorted}

module _ {A : Type 0} (key : A → ℕ) where
  abbrev pub insert_by : A → List A → List A
  insert_by a [] = a ∷ []
  insert_by a (x ∷ xs) =
      let rest = insert_by a xs in if leb (key a) (key x) then a ∷ x ∷ xs else x ∷ rest

  abbrev pub sort_by : List A → List A
  sort_by [] = []
  sort_by (a ∷ as_) = insert_by a (sort_by as_)

module _ {A : Type 0} (key : A → ℕ) where
  count-insert_by :
      (p : A → Bool) (a : A) (xs : List A) → count p (insert_by key a xs) ≡ count p (a ∷ xs)
  count-insert_by p a [] = refl
  count-insert_by p a (x ∷ xs) = ground (arith, count-insert_by p a xs)

  pub count-sort_by : (p : A → Bool) (xs : List A) → count p (sort_by key xs) ≡ count p xs
  count-sort_by p [] = refl
  count-sort_by p (x ∷ xs) =
      ground (arith, count-insert_by p x (sort_by key xs), count-sort_by p xs)

  cons-insert_by :
      (x a y : A) (rest : List A)
      → key x ≤ key a
      → key x ≤ key y
      → IsSorted key (insert_by key a (y ∷ rest))
      → IsSorted key (x ∷ insert_by key a (y ∷ rest))
  cons-insert_by x a y rest le le' h = elim (Bool-cases (leb (key a) (key y))) [
    | inl first ↦
        let e : insert_by key a (y ∷ rest) ≡ a ∷ y ∷ rest = ground (arith, first) in
        subst (λ l. IsSorted key (x ∷ l)) (sym e) (le, subst (IsSorted key) e h)
    | inr later ↦
        let e : insert_by key a (y ∷ rest) ≡ y ∷ insert_by key a rest = ground (arith, later) in
        subst (λ l. IsSorted key (x ∷ l)) (sym e) (le', subst (IsSorted key) e h)
  ]

  insert_by-IsSorted : (a : A) (xs : List A) → IsSorted key xs → IsSorted key (insert_by key a xs)
  insert_by-IsSorted a [] h = tt
  insert_by-IsSorted a (x ∷ []) h = elim (Bool-cases (leb (key a) (key x))) [
    | inl first ↦
        let e : insert_by key a (x ∷ []) ≡ a ∷ x ∷ [] = ground (arith, first) in
        subst (IsSorted key) (sym e) (ground arith, tt)
    | inr later ↦
        let e : insert_by key a (x ∷ []) ≡ x ∷ a ∷ [] = ground (arith, later) in
        subst (IsSorted key) (sym e) (ground arith, tt)
  ]
  insert_by-IsSorted a (x ∷ y ∷ rest) (le, h) =
      let tail = insert_by-IsSorted a (y ∷ rest) h in
      elim (Bool-cases (leb (key a) (key x))) [
        | inl first ↦
            let e : insert_by key a (x ∷ y ∷ rest) ≡ a ∷ x ∷ y ∷ rest = ground (arith, first) in
            subst (IsSorted key) (sym e) (ground arith, (le, h))
        | inr later ↦
            let e : insert_by key a (x ∷ y ∷ rest) ≡ x ∷ insert_by key a (y ∷ rest) =
              ground (arith, later) in
            subst (IsSorted key) (sym e) (cons-insert_by x a y rest (ground arith) le tail)
      ]

  pub sort_by-IsSorted : (xs : List A) → IsSorted key (sort_by key xs)
  sort_by-IsSorted [] = tt
  sort_by-IsSorted (x ∷ xs) = insert_by-IsSorted x (sort_by key xs) (sort_by-IsSorted xs)
