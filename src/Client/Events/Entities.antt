-- ===== src/Client/Events/Entities.antt =====
-- The entities of the mobile client's list of conversations.
use mqtt_chat.Base.{
  ℕ, max, ◌≤◌, String, Option, Bool, not, List, count, ◌==◌, string_eq, ◌≡◌, refl, ap, arith,
  Bool-cases, inl, inr, count-filter-le,
}
use mqtt_chat.Bots.Value.{Value}
use mqtt_chat.Client.Conversations.{NormalizedConversation, upsert_conversation_into, upsert_merges}
use mqtt_chat.Client.Normalize.{normalize_conversation, read, source_of}
use mqtt_chat.Client.Events.{
  ConversationEvent, text_of, created, updated, deleted, member_joined, member_left, without,
  upsert_preserving, apply_deleted, apply_left, apply_present, apply_conversation_event,
}

abbrev has_id : String → NormalizedConversation → Bool
has_id k c = c.id == k

same_upsert :
    (list : List NormalizedConversation) (c : NormalizedConversation)
    → upsert_preserving list c ≡ upsert_conversation_into list c
unfolding upsert_preserving upsert_conversation_into
same_upsert list c = refl

count-upsert :
    (list : List NormalizedConversation) (c : NormalizedConversation) (k : String)
    → count (has_id k) (upsert_preserving list c) ≤ max 1 (count (has_id k) list)
count-upsert list c k =
    let upserts = upsert_merges list c k in
    let same = ap (count (has_id k)) (same_upsert list c) in
    elim (Bool-cases (k == c.id)) [
      | inl here ↦ ground (arith, same, upserts.1, here)
      | inr other ↦ ground (arith, same, upserts.1, other)
    ]

module _ {N : Type 0} (to_count : Value N → Option ℕ) (list : List NormalizedConversation)
    (payload : Value N) (self : Option String) (k : String) where
  abbrev most : ℕ
  most = max 1 (count (has_id k) list)

  kept : count (has_id k) list ≤ most
  kept = omega arith

  removed : (id : String) → count (has_id k) (without id list) ≤ most
  removed id = omega (arith, count-filter-le (has_id k) (λ c. not (c.id == id)) list)

  left-few :
      (c : NormalizedConversation)
      → count (has_id k) (apply_left to_count list payload c self) ≤ most
  unfolding apply_left
  left-few c = ground (arith, removed c.id, kept, count-upsert list c k)

  present-few :
      (event : ConversationEvent) (c : NormalizedConversation)
      → count (has_id k) (apply_present to_count list event c self) ≤ most
  unfolding apply_present
  present-few event c = ground (arith, kept, count-upsert list c k)

  -- No event makes a second entity of a conversation in the list: whatever the payload, each id stands in it afterwards
  -- as often as before at most, or once.
  pub entities_unique :
      (event : ConversationEvent)
      → count (has_id k) (apply_conversation_event to_count list event payload self)
        ≤ max 1 (count (has_id k) list)
  unfolding apply_conversation_event apply_deleted
  entities_unique deleted = ground (arith, kept, removed (text_of (read (source_of payload) "id")))
  entities_unique created =
      ground (arith, kept, present-few created (normalize_conversation to_count payload))
  entities_unique updated =
      ground (arith, kept, present-few updated (normalize_conversation to_count payload))
  entities_unique member_joined =
      ground (arith, kept, present-few member_joined (normalize_conversation to_count payload))
  entities_unique member_left =
      ground (arith, kept, left-few (normalize_conversation to_count payload))
