-- ===== src/Api/History/Cursor.antt =====
-- The cursors of a history, and what lies below them.
use mqtt_chat.Base.{
  ℕ, zero, suc, ◌≤◌, String, Option, none, some, Bool, true, false, List, [], ◌∷◌, ◌++◌, length,
  take, count, ltb, string_eq, nat_eq, ◌≡◌, refl, ap, arith,
}
use mqtt_chat.Store.Rows.{Message}
use mqtt_chat.Api.History.{Query, reversed}
use mqtt_chat.Api.History.Pages.{oldest}

-- The first page has no cursor; each further one ends before the oldest message that is there, the first of
-- the page.
abbrev pub cursor_text : (ℕ → String) → Option ℕ → Option String
cursor_text print none = none
cursor_text print (some n) = some (print n)

abbrev pub page_query : (ℕ → String) → Option ℕ → Query
page_query print cursor = record { before = cursor_text print cursor; after = none; limit = none }

abbrev pub first_sequence : List Message → Option ℕ
first_sequence [] = none
first_sequence (m ∷ ms) = some m.sequence

abbrev pub below : Option ℕ → ℕ → Bool
below none s = true
below (some n) s = ltb s n

pub take-all : (n : ℕ) (ms : List Message) → length ms ≤ n → take n ms ≡ ms
take-all zero [] h = refl
take-all zero (m ∷ ms) h = absurd (omega arith)
take-all (suc n) [] h = refl
take-all (suc n) (m ∷ ms) h = ap (λ l. m ∷ l) (take-all n ms (omega arith))

first-append :
    (ms ns : List Message) (s : ℕ) → first_sequence ms ≡ some s → first_sequence (ms ++ ns) ≡ some s
first-append [] ns s h = cc
first-append (m ∷ ms) ns s h = h

pub first-reversed :
    (x : Message) (ys : List Message)
    → first_sequence (reversed (x ∷ ys)) ≡ some (oldest x ys).sequence
unfolding reversed
first-reversed x [] = refl
first-reversed x (y ∷ ys) =
    first-append (reversed (y ∷ ys)) (x ∷ []) (oldest y ys).sequence (first-reversed y ys)

pub count-imp :
    (p q : Message → Bool) (ms : List Message)
    → ((m : Message) → p m ≡ true → q m ≡ true)
    → count p ms ≤ count q ms
count-imp p q [] h = omega arith
count-imp p q (m ∷ ms) h = ground (arith, h m, count-imp p q ms h)

pub count-same :
    (p q : Message → Bool) (ms : List Message)
    → ((m : Message) → p m ≡ q m)
    → count p ms ≡ count q ms
count-same p q [] h = refl
count-same p q (m ∷ ms) h = ground (arith, h m, count-same p q ms h)

pub count-never : (ms : List Message) → count (λ m. false) ms ≡ 0
count-never [] = refl
count-never (m ∷ ms) = count-never ms

pub below_mono :
    (cursor : Option ℕ) (s t : ℕ) → s ≤ t → below cursor t ≡ true → below cursor s ≡ true
below_mono none s t le h = refl
below_mono (some n) s t le h = ground arith
