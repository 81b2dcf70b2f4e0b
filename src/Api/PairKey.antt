-- ===== src/Api/PairKey.antt =====
-- `directPairKeyFor` of packages/database/src/index.ts: the key that makes a DIRECT conversation unique.
use Prim.Native.Char.{Char, code}
use Prim.Native.String
use Prim.Native.String.append
use mqtt_chat.Base.{
  ℕ, String, string_discrete, Bool, true, false, not, ◌&&◌, if◌then◌else◌, ◌==◌, string_eq, nat_eq,
  ◌≡◌, refl, sym, ap, subst, ◌∙◌, ◌≢◌, ◌⊎◌, inl, inr, Option, none, some, arith, Bool-cases,
}
use mathlib.Core.Bool.{false≢true}
use mqtt_chat.Base.Utf16.{before, before-not}

-- `[userA, userB].sort().join(":")`, with a stable sort; equal ids throw.
unfoldable pub direct_pair_key_for : String → String → Option String
direct_pair_key_for user_a user_b =
    if user_a == user_b
    then none
    else if before user_b user_a
    then some (String.◌++◌ user_b (String.◌++◌ ":" user_a))
    else some (String.◌++◌ user_a (String.◌++◌ ":" user_b))

-- The key does not depend on the order in which the two users are given.
pub pair_key_symmetric : (a b : String) → direct_pair_key_for a b ≡ direct_pair_key_for b a
unfolding direct_pair_key_for
pair_key_symmetric a b = elim (string_discrete a b) [
  | yes same ↦ ap (λ x. direct_pair_key_for x b) same ∙ ap (direct_pair_key_for b) (sym same)
  | no differ ↦ ground (arith, before-not a b differ)
]

unfoldable pub has_colon : String → Bool
has_colon String.[] = false
has_colon (String.◌∷◌ c s) = let rest = has_colon s in if code c == b':' then true else rest

abbrev joined : String → String → String
joined a b = String.◌++◌ a (String.◌++◌ ":" b)

joined-nil : (b : String) → joined "" b ≡ String.◌∷◌ ":" b
joined-nil b =
    append.nil (String.◌++◌ ":" b) ∙ append.cons ":" "" b ∙ ap (String.◌∷◌ ":") (append.nil b)

joined-cons : (c : Char) (a b : String) → joined (String.◌∷◌ c a) b ≡ String.◌∷◌ c (joined a b)
joined-cons c a b = append.cons c a (String.◌++◌ ":" b)

cons-inj : (c d : Char) (s t : String) → String.◌∷◌ c s ≡ String.◌∷◌ d t → (c ≡ d) × (s ≡ t)
cons-inj c d s t e = (cc, cc)

clash : (x : Char) (rest : Bool) → x ≡ ":" → (if code x == b':' then true else rest) ≡ false → ⊥
unfolding mqtt_chat.Base.ℕ_discrete
clash x rest e h =
    false≢true (sym (subst (λ y. (if code y == b':' then true else rest) ≡ false) e h))

-- Up to the first colon.
joined-inj :
    (a c b d : String)
    → has_colon a ≡ false
    → has_colon c ≡ false
    → joined a b ≡ joined c d
    → (a ≡ c) × (b ≡ d)
unfolding has_colon
joined-inj String.[] String.[] b d p q e =
    (refl, (cons-inj ":" ":" b d (sym (joined-nil b) ∙ e ∙ joined-nil d)).1)
joined-inj String.[] (String.◌∷◌ x c) b d p q e =
    let (head, rest) = cons-inj ":" x b (joined c d) (sym (joined-nil b) ∙ e ∙ joined-cons x c d) in
    absurd (clash x (has_colon c) (sym head) q)
joined-inj (String.◌∷◌ x a) String.[] b d p q e =
    let (head, rest) = cons-inj x ":" (joined a b) d (sym (joined-cons x a b) ∙ e ∙ joined-nil d) in
    absurd (clash x (has_colon a) head p)
joined-inj (String.◌∷◌ x a) (String.◌∷◌ y c) b d p q e =
    let (head, rest) =
      cons-inj x y (joined a b) (joined c d) (sym (joined-cons x a b) ∙ e ∙ joined-cons y c d) in
    let (same, other) = joined-inj a c b d (ground arith) (ground arith) rest in
    ((λ i. String.◌∷◌ (head i) (same i)), other)

key-cases :
    (a b key : String)
    → direct_pair_key_for a b ≡ some key
    → (key ≡ joined a b) ⊎ (key ≡ joined b a)
unfolding direct_pair_key_for
key-cases a b key e = ground arith

-- Two pairs of users whose ids have no colon have one key only if they are the same two users.
pub pair_key_injective :
    (a b c d key : String)
    → has_colon a ≡ false
    → has_colon b ≡ false
    → has_colon c ≡ false
    → has_colon d ≡ false
    → direct_pair_key_for a b ≡ some key
    → direct_pair_key_for c d ≡ some key
    → ((a ≡ c) × (b ≡ d)) ⊎ ((a ≡ d) × (b ≡ c))
pair_key_injective a b c d key ha hb hc hd e f =
    by_cases (key-cases a b key e) (key-cases c d key f)
  where
    swap : {A B : Type 0} → A × B → B × A
    swap p = (p.1, p.0)

    by_cases :
        (key ≡ joined a b) ⊎ (key ≡ joined b a)
        → (key ≡ joined c d) ⊎ (key ≡ joined d c)
        → ((a ≡ c) × (b ≡ d)) ⊎ ((a ≡ d) × (b ≡ c))
    by_cases (inl p) (inl q) = inl (joined-inj a c b d ha hc (sym p ∙ q))
    by_cases (inl p) (inr q) = inr (joined-inj a d b c ha hd (sym p ∙ q))
    by_cases (inr p) (inl q) = inr (swap (joined-inj b c a d hb hc (sym p ∙ q)))
    by_cases (inr p) (inr q) = inl (swap (joined-inj b d a c hb hd (sym p ∙ q)))
