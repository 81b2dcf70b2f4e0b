-- ===== src/Client/Conversations.antt =====
-- `upsertConversationInto` of packages/realtime-core/src/index.ts.
use mqtt_chat.Base.{
  ℕ, max, String, string_discrete, Option, none, some, List, [], ◌∷◌, map, find, count, ◌==◌,
  string_eq, if◌then◌else◌, ◌≡◌, refl, sym, ap, subst, ◌∙◌, ◌≢◌, arith, Option-cases, inl, inr,
  any-count, any_of_find, count-any, find-eq-none_iff,
}
use mqtt_chat.Contracts.Events.{MemberSummary, ConversationType}

pub record NormalizedConversation : Type 0 where
  pub id : String
  pub type : ConversationType
  pub title : Option String
  pub member_count : ℕ
  pub last_sequence : ℕ
  pub last_message_preview : Option String
  pub last_message_at : Option String
  pub members : List MemberSummary

-- `a ?? b`.
abbrev or_else : Option String → Option String → Option String
or_else none b = b
or_else (some a) b = some a

abbrev pub merged : NormalizedConversation → NormalizedConversation → NormalizedConversation
merged existing incoming = record incoming {
  last_message_preview = or_else incoming.last_message_preview existing.last_message_preview;
  last_message_at = or_else incoming.last_message_at existing.last_message_at;
  last_sequence = max existing.last_sequence incoming.last_sequence;
}

unfoldable pub upsert_conversation_into :
    List NormalizedConversation → NormalizedConversation → List NormalizedConversation
upsert_conversation_into list incoming = elim (find (λ c. c.id == incoming.id) list) [
  | none ↦ incoming ∷ list
  | some existing ↦ map (λ c. if c.id == incoming.id then merged existing incoming else c) list
]

abbrev replaced :
    NormalizedConversation → String → List NormalizedConversation → List NormalizedConversation
replaced new id list = map (λ c. if c.id == id then new else c) list

find-replaced :
    (new c : NormalizedConversation) (id : String) (list : List NormalizedConversation)
    → new.id ≡ id
    → find (λ c. c.id == id) list ≡ some c
    → find (λ c. c.id == id) (replaced new id list) ≡ some new
find-replaced new c id [] same found = cc
find-replaced new c id (x ∷ xs) same found = ground (arith, find-replaced new c id xs)

find-replaced_other :
    (new : NormalizedConversation) (k id : String) (list : List NormalizedConversation)
    → new.id ≡ id
    → k ≢ id
    → find (λ c. c.id == k) (replaced new id list) ≡ find (λ c. c.id == k) list
find-replaced_other new k id [] same differ = refl
find-replaced_other new k id (x ∷ xs) same differ = ground (arith, find-replaced_other new k id xs)

count-replaced :
    (new : NormalizedConversation) (k id : String) (list : List NormalizedConversation)
    → new.id ≡ id
    → count (λ c. c.id == k) (replaced new id list) ≡ count (λ c. c.id == k) list
count-replaced new k id [] same = refl
count-replaced new k id (x ∷ xs) same = ground (arith, count-replaced new k id xs)

abbrev pub upserted : List NormalizedConversation → NormalizedConversation → NormalizedConversation
upserted list incoming = elim (find (λ c. c.id == incoming.id) list) [
  | none ↦ incoming
  | some existing ↦ merged existing incoming
]

upsert-known :
    (list : List NormalizedConversation) (incoming existing : NormalizedConversation) (k : String)
    → find (λ c. c.id == incoming.id) list ≡ some existing
    → (find (λ c. c.id == k) (replaced (merged existing incoming) incoming.id list) ≡ (
        if k == incoming.id then some (merged existing incoming) else find (λ c. c.id == k) list))
      × (count (λ c. c.id == k) (replaced (merged existing incoming) incoming.id list) ≡ (
          if k == incoming.id
          then max 1 (count (λ c. c.id == k) list)
          else count (λ c. c.id == k) list))
upsert-known list incoming existing k found =
    let new = merged existing incoming in
    elim (string_discrete k incoming.id) [
      | no other ↦ (
        ground
            (arith, find-replaced_other (merged existing incoming) k incoming.id list refl other),
        ground (arith, count-replaced (merged existing incoming) k incoming.id list refl),
      )
      | yes same ↦
          let at_id : (find (λ c. c.id == k) (replaced new incoming.id list) ≡ some new)
              × (count (λ c. c.id == k) (replaced new incoming.id list)
                  ≡ max 1 (count (λ c. c.id == k) list)) =
            subst
              (λ j.
                (find (λ c. c.id == j) (replaced new incoming.id list) ≡ some new)
                × (count (λ c. c.id == j) (replaced new incoming.id list)
                    ≡ max 1 (count (λ c. c.id == j) list)))
              (sym same)
              (
                find-replaced new existing incoming.id list refl found,
                omega (
                  arith,
                  count-replaced new incoming.id incoming.id list refl,
                  any-count (λ c. c.id == incoming.id) list
                      (any_of_find (λ c. c.id == incoming.id) list existing found),
                ),
              ) in
          (ground (arith, at_id.0), ground (arith, at_id.1))
    ]

-- The entity with the payload's id becomes the payload, with the greater of the two last sequences and
-- the known preview and time where it brings none; every other entity stays as it was; a known id
-- stands in the list as often as before, and a new one once.
pub upsert_merges :
    (list : List NormalizedConversation) (incoming : NormalizedConversation) (k : String)
    → let next = upsert_conversation_into list incoming in
      (find (λ c. c.id == k) next
        ≡ (if k == incoming.id then some (upserted list incoming) else find (λ c. c.id == k) list))
      × (count (λ c. c.id == k) next ≡ (
          if k == incoming.id
          then max 1 (count (λ c. c.id == k) list)
          else count (λ c. c.id == k) list))
unfolding upsert_conversation_into
upsert_merges list incoming k = elim (Option-cases (find (λ c. c.id == incoming.id) list)) [
  | inl absent ↦ elim (string_discrete k incoming.id) [
    | no other ↦ (ground (arith, absent), ground (arith, absent))
    | yes same ↦
        let none_yet : count (λ c. c.id == k) list ≡ 0 =
          subst (λ j. count (λ c. c.id == j) list ≡ 0) (sym same)
            (count-any (λ c. c.id == incoming.id) list
              ((find-eq-none_iff (λ c. c.id == incoming.id) list).0 absent)) in
        (ground (arith, absent), ground (arith, absent, none_yet))
  ]
  | inr (existing, found) ↦
      let next : upsert_conversation_into list incoming
          ≡ replaced (merged existing incoming) incoming.id list =
        ground arith in
      let known = upsert-known list incoming existing k found in
      (
        ap (find (λ c. c.id == k)) next ∙ ground (arith, known.0, found),
        ap (count (λ c. c.id == k)) next ∙ known.1,
      )
]
