-- ===== src/Client/Dict.antt =====
-- JavaScript's records and maps with texts as keys: the entries in the order of insertion.
use mqtt_chat.Base.{
  String, Option, none, some, List, [], ◌∷◌, ◌==◌, string_eq, if◌then◌else◌, ◌≡◌, refl, arith,
}

abbrev pub Dict {ℓ} : Type ℓ → Type ℓ
Dict A = List (String × A)

module _ {ℓ} {A : Type ℓ} where
  abbrev pub get : String → Dict A → Option A
  get k [] = none
  get k ((j, a) ∷ d) = if j == k then some a else get k d

  abbrev pub put : String → A → Dict A → Dict A
  put k a [] = (k, a) ∷ []
  put k a ((j, b) ∷ d) = let rest = put k a d in if j == k then (j, a) ∷ d else (j, b) ∷ rest

  -- `delete`: a record has a key once, and so the loop goes on.
  abbrev pub drop : String → Dict A → Dict A
  drop k [] = []
  drop k ((j, b) ∷ d) = let rest = drop k d in if j == k then rest else (j, b) ∷ rest

module _ {ℓ} {A : Type ℓ} where
  pub get-put :
      (k j : String) (a : A) (d : Dict A) → get j (put k a d) ≡ (if k == j then some a else get j d)
  get-put k j a [] = refl
  get-put k j a ((i, b) ∷ d) = ground (arith, get-put k j a d)

  pub get-drop : (k j : String) (d : Dict A) → get j (drop k d) ≡ (if k == j then none else get j d)
  get-drop k j [] = ground arith
  get-drop k j ((i, b) ∷ d) = ground (arith, get-drop k j d)
