-- ===== src/Client/Events.antt =====
-- apps/mobile/src/features/conversations/conversation-events.ts: what the mobile client's list of conversations does
-- with an event.
pub mod Entities
pub mod Reactions
use mqtt_chat.Base.{
  ℕ, max, String, Option, none, some, Bool, true, false, not, ◌&&◌, ◌||◌, List, [], ◌∷◌, ◌++◌, map,
  filter, find, any, leb, ◌==◌, string_eq, if◌then◌else◌, length, nat_eq,
}
use mqtt_chat.Contracts.Events.{MemberSummary, ReactionRef}
use mqtt_chat.Bots.Value.{Value, string, array, object, Items, nil, cons, own_field}
use mqtt_chat.Client.Model.{ApiMessage}
use mqtt_chat.Client.Conversations.{NormalizedConversation, merged}
use mqtt_chat.Client.Normalize.{normalize_conversation, read, source_of}
use mqtt_chat.Client.Watermark.{advance_member_watermark}

-- `ConversationEventTypeName`.
pub data ConversationEvent : Type 0 where
  created updated deleted member_joined member_left : ConversationEvent

abbrev is_created : ConversationEvent → Bool
is_created created = true
is_created _ = false

abbrev pub without : String → List NormalizedConversation → List NormalizedConversation
without id = filter (λ c. not (c.id == id))

abbrev pub listed : String → List NormalizedConversation → Bool
listed id list = any (λ c. c.id == id) list

abbrev pub text_of : {N : Type 0} → Value N → String
text_of (string s) = s
text_of _ = ""

abbrev texts_in : {N : Type 0} → Items N → List String
texts_in nil = []
texts_in (cons v vs) = let rest = texts_in vs in elim v [ string s ↦ s ∷ rest | _ ↦ rest ]

abbrev texts_of : {N : Type 0} → Value N → List String
texts_of (array items) = texts_in items
texts_of _ = []

abbrev same_text : {N : Type 0} → Value N → Option String → Bool
same_text (string s) (some t) = s == t
same_text Value.null none = true
same_text _ _ = false

-- `upsertPreservingActivity`.
unfoldable pub upsert_preserving :
    List NormalizedConversation → NormalizedConversation → List NormalizedConversation
upsert_preserving list incoming = elim (find (λ c. c.id == incoming.id) list) [
  | none ↦ incoming ∷ list
  | some existing ↦ map (λ c. if c.id == incoming.id then merged existing incoming else c) list
]

module _ {N : Type 0} (to_count : Value N → Option ℕ) where
  -- The event's members do not name the user.
  abbrev excludes : Option String → List String → Bool
  excludes none ids = false
  excludes (some self) ids = not (length ids == 0) && not (any (λ id. id == self) ids)

  unfoldable pub apply_deleted :
      List NormalizedConversation → Value N → Option String → List NormalizedConversation
  apply_deleted list payload self =
      let id = text_of (read (source_of payload) "id") in
      let ids = texts_of (read (source_of payload) "memberIds") in
      if id == "" then list else if excludes self ids then list else without id list

  abbrev pub names_self : Option String → List MemberSummary → Bool
  names_self none ms = false
  names_self (some self) ms = any (λ (m : MemberSummary). m.user_id == self) ms

  unfoldable pub apply_left :
      List NormalizedConversation
      → Value N
      → NormalizedConversation
      → Option String
      → List NormalizedConversation
  unfolding upsert_preserving
  apply_left list payload conversation self =
      if same_text (read (source_of payload) "removedUserId") self
      then without conversation.id list
      else if not (listed conversation.id list)
      then list
      else upsert_preserving list conversation

  unfoldable pub apply_present :
      List NormalizedConversation
      → ConversationEvent
      → NormalizedConversation
      → Option String
      → List NormalizedConversation
  unfolding upsert_preserving
  apply_present list event conversation self =
      let member = names_self self conversation.members in
      if not member && is_created event
      then list
      else if not member && not (listed conversation.id list)
      then list
      else upsert_preserving list conversation

  unfoldable pub apply_conversation_event :
      List NormalizedConversation
      → ConversationEvent
      → Value N
      → Option String
      → List NormalizedConversation
  unfolding apply_deleted normalize_conversation apply_left apply_present
  apply_conversation_event list deleted payload self = apply_deleted list payload self
  apply_conversation_event list member_left payload self =
      let conversation = normalize_conversation to_count payload in
      if conversation.id == "" then list else apply_left list payload conversation self
  apply_conversation_event list event payload self =
      let conversation = normalize_conversation to_count payload in
      if conversation.id == "" then list else apply_present list event conversation self

-- `sortByActivity`; `parse` is `Date.parse`. It is stable.
unfoldable pub activity : (String → ℕ) → NormalizedConversation → ℕ
activity parse c = elim c.last_message_at [ none ↦ 0 | some at ↦ if at == "" then 0 else parse at ]

unfoldable pub insert_active :
    (String → ℕ)
    → NormalizedConversation
    → List NormalizedConversation
    → List NormalizedConversation
unfolding activity
insert_active parse c [] = c ∷ []
insert_active parse c (d ∷ ds) =
    let rest = insert_active parse c ds in
    if leb (activity parse d) (activity parse c) then c ∷ d ∷ ds else d ∷ rest

unfoldable pub sort_by_activity :
    (String → ℕ) → List NormalizedConversation → List NormalizedConversation
unfolding insert_active
sort_by_activity parse [] = []
sort_by_activity parse (c ∷ cs) = insert_active parse c (sort_by_activity parse cs)

abbrev or_known : Option String → Option String → Option String
or_known none known = known
or_known (some s) known = some s

abbrev pub with_activity :
    String → ℕ → Option String → String → NormalizedConversation → NormalizedConversation
with_activity id sequence preview at c =
    if not (c.id == id) then c else if leb sequence c.last_sequence then c else record c {
      last_sequence = sequence;
      last_message_preview = or_known preview c.last_message_preview;
      last_message_at = some at;
    }

unfoldable pub apply_message_activity :
    (String → ℕ)
    → List NormalizedConversation
    → String
    → ℕ
    → Option String
    → String
    → List NormalizedConversation
unfolding sort_by_activity
apply_message_activity parse list id sequence preview at =
    sort_by_activity parse (map (with_activity id sequence preview at) list)

unfoldable pub apply_read_receipt :
    List NormalizedConversation → String → String → ℕ → List NormalizedConversation
unfolding advance_member_watermark
apply_read_receipt list id user_id sequence =
    map
      (λ (c : NormalizedConversation).
        if not (c.id == id)
        then c
        else (elim (advance_member_watermark (some c.members) user_id sequence) [
          | none ↦ c
          | some members ↦ record c { members = members }
        ]))
      list

-- The message of the list that a reaction event names, driven to the state that the event names; whether anything
-- changed.
unfoldable pub react : List ApiMessage → String → String → String → Bool → List ApiMessage × Bool
react [] message_id emoji user_id present = ([], false)
react (m ∷ ms) message_id emoji user_id present =
    let (rest, changed) = react ms message_id emoji user_id present in
    let is_it = λ (r : ReactionRef). r.emoji == emoji && r.user_id == user_id in
    let exists = any is_it m.reactions in
    if not (m.id == message_id)
    then (m ∷ rest, changed)
    else if (if exists then present else not present)
    then (m ∷ rest, changed)
    else (
      record m {
        reactions =
            if present
            then m.reactions ++ record { emoji = emoji; user_id = user_id } ∷ []
            else filter (λ r. not (is_it r)) m.reactions;
      }
          ∷ rest,
      true,
    )

-- `applyReactionEvent`: the identical list if nothing changed.
unfoldable pub apply_reaction_event :
    {N : Type 0} → List ApiMessage → Bool → Value N → List ApiMessage
unfolding react
apply_reaction_event list added payload =
    let message_id = text_of (read (source_of payload) "messageId") in
    let emoji = text_of (read (source_of payload) "emoji") in
    let user_id = text_of (read (source_of payload) "userId") in
    let (next, changed) = react list message_id emoji user_id added in
    if message_id == "" || (emoji == "" || user_id == "")
    then list
    else if changed
    then next
    else list
