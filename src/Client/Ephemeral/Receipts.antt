-- ===== src/Client/Ephemeral/Receipts.antt =====
-- The receipts behind the typing indicator.
use mqtt_chat.Base.{
  ℕ, ◌+◌, String, string_discrete, none, some, Bool, true, false, not, ◌&&◌, List, [], ◌∷◌, ◌++◌,
  filter, ltb, ◌==◌, string_eq, nat_eq, if◌then◌else◌, ◌≡◌, ◌≢◌, refl, ap, subst, arith,
  Option-cases, inl, inr, any-append, ==_refl,
}
use mqtt_chat.Client.Dict.{Dict, get, put, drop, get-put, get-drop}
use mqtt_chat.Client.Ephemeral.{
  Ephemeral, includes, insert_text, sort_texts, typers, seen_in, set_typing, drop_all,
}

abbrev pub stamped : String → Dict ℕ → Bool
stamped u d = elim (get u d) [ none ↦ false | some at ↦ true ]

abbrev pub fresh : ℕ → String → Dict ℕ → Bool
fresh now u d = elim (get u d) [ none ↦ false | some at ↦ ltb now (at + 8000) ]

-- Everyone who is shown as typing has a receipt.
pub record IsStamped (s : Ephemeral) : Type 0 where
  pub receipt : (k u : String) → includes u (typers s k) ≡ true → stamped u (seen_in s k) ≡ true

abbrev pub IsFresh : ℕ → Ephemeral → String → Type 0
IsFresh now s k = (u : String) → includes u (typers s k) ≡ true → fresh now u (seen_in s k) ≡ true

includes-insert :
    (v u : String) (us : List String) → includes v (insert_text u us) ≡ includes v (u ∷ us)
unfolding insert_text
includes-insert v u [] = refl
includes-insert v u (w ∷ us) = ground (arith, includes-insert v u us)

includes-sort : (v : String) (us : List String) → includes v (sort_texts us) ≡ includes v us
unfolding sort_texts
includes-sort v [] = refl
includes-sort v (u ∷ us) = ground (arith, includes-insert v u (sort_texts us), includes-sort v us)

pub includes-filter :
    (v : String) (p : String → Bool) (us : List String)
    → includes v (filter p us) ≡ (includes v us && p v)
includes-filter v p [] = refl
includes-filter v p (u ∷ us) = elim (string_discrete u v) [
  | yes same ↦ ground (arith, ap p same, includes-filter v p us)
  | no other ↦ ground (arith, includes-filter v p us)
]

pub get-drop_all :
    (v : String) (us : List String) (d : Dict ℕ)
    → get v (drop_all us d) ≡ (if includes v us then none else get v d)
get-drop_all v [] d = refl
get-drop_all v (u ∷ us) d = ground (arith, get-drop_all v us (drop u d), get-drop u v d)

abbrev ReceiptAt : Ephemeral → String → Type 0
ReceiptAt s j = (v : String) → includes v (typers s j) ≡ true → stamped v (seen_in s j) ≡ true

pub by_key :
    (s : Ephemeral) (k : String)
    → ReceiptAt s k
    → ((j : String) → k ≢ j → ReceiptAt s j)
    → IsStamped s
by_key s k here others = record {
  receipt = λ j. elim (string_discrete k j) [
    | yes same ↦ subst (ReceiptAt s) same here
    | no other ↦ others j other
  ];
}

pub typing-IsStamped :
    (now : ℕ) (k u : String) (started : Bool) (s : Ephemeral)
    → IsStamped s
    → IsStamped (set_typing now k u started s)
unfolding set_typing
typing-IsStamped now k u true s inv =
    by_key (set_typing now k u true s) k
      (λ v h. ground (
        arith,
        inv.receipt k v,
        get-put k k (put u now (seen_in s k)) s.typing_seen,
        get-put k k (sort_texts (typers s k ++ u ∷ [])) s.typing_users,
        get-put u v now (seen_in s k),
        includes-sort v (typers s k ++ u ∷ []),
        any-append (λ w. w == v) (typers s k) (u ∷ []),
        ==_refl k,
      ))
      (λ j other v h. ground (
        arith,
        inv.receipt j v,
        get-put k j (put u now (seen_in s k)) s.typing_seen,
        get-put k j (sort_texts (typers s k ++ u ∷ [])) s.typing_users,
      ))
typing-IsStamped now k u false s inv =
    let left : List String = filter (λ v. not (v == u)) (typers s k) in
    elim (Option-cases (get k s.typing_seen)) [
      | inl unseen ↦
          by_key (set_typing now k u false s) k
            (λ v h. ground (
              arith,
              unseen,
              inv.receipt k v,
              get-put k k left s.typing_users,
              includes-filter v (λ w. not (w == u)) (typers s k),
              ==_refl k,
            ))
            (λ j other v h.
              ground (arith, unseen, inv.receipt j v, get-put k j left s.typing_users))
      | inr (d, seen) ↦
          by_key (set_typing now k u false s) k
            (λ v h. ground (
              arith,
              seen,
              inv.receipt k v,
              get-put k k (drop u d) s.typing_seen,
              get-put k k left s.typing_users,
              includes-filter v (λ w. not (w == u)) (typers s k),
              get-drop u v d,
              ==_refl k,
            ))
            (λ j other v h. ground (
              arith,
              seen,
              inv.receipt j v,
              get-put k j (drop u d) s.typing_seen,
              get-put k j left s.typing_users,
            ))
    ]
