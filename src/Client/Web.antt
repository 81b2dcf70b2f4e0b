-- ===== src/Client/Web.antt =====
-- apps/web/src/store/chat-store.ts: the state of the web client and what it does with events, but for the typing and
-- presence parts (Ephemeral).
pub mod Cache
pub mod Removal
use mqtt_chat.Base.{
  ℕ, String, Option, none, some, Bool, true, false, not, ◌&&◌, List, [], ◌∷◌, ◌++◌, map, filter,
  any, leb, ◌==◌, string_eq, nat_eq, if◌then◌else◌,
}
use Prim.Native.Char
use mqtt_chat.Contracts.Commands.{MessageType, Metadata}
use mqtt_chat.Contracts.Events.{ReactionRef, MemberSummary}
use mqtt_chat.Client.Model.{ApiMessage, PendingMessage, PendingStatus}
use mqtt_chat.Client.Conversations.{NormalizedConversation}
use mqtt_chat.Client.Watermark.{advance_member_watermark}
use mqtt_chat.Client.Sort.{sort_by}
use mqtt_chat.Client.Dict.{Dict, get, put, drop}

pub record ChatState : Type 0 where
  pub identity : Option (String × String)
  pub conversations : List NormalizedConversation
  pub conversations_loaded : Bool
  pub active_conversation_id : Option String
  pub messages_by_conversation : Dict (List ApiMessage)
  pub pending_messages : List PendingMessage
  pub has_more_history : Dict Bool
  pub loading_history : Bool
  pub error : Option String

-- `republishPayload`: the paper clip of an old entry says that it is a file.
pub record Republished : Type 0 where
  pub conversation_id : String
  pub client_message_id : String
  pub content : String
  pub type : MessageType
  pub reply_to_id : Option String
  pub metadata : Option Metadata

abbrev has_clip : String → Bool
has_clip String.[] = false
has_clip (String.◌∷◌ c s) = Prim.Native.Char.code c == 0x1F4CE

unfoldable pub republish_payload : PendingMessage → Republished
republish_payload p = record {
  conversation_id = p.conversation_id;
  client_message_id = p.client_message_id;
  content = elim p.type [
    | some t ↦ p.content
    | none ↦ if has_clip p.content then "" else p.content
  ];
  type = elim p.type [
    | some t ↦ t
    | none ↦ if has_clip p.content then MessageType.file else MessageType.text
  ];
  reply_to_id = p.reply_to_id;
  metadata = p.metadata;
}

unfoldable pub sort_messages : List ApiMessage → List ApiMessage
sort_messages = sort_by (λ (m : ApiMessage). m.sequence)

abbrev pub is_reaction : String → String → ReactionRef → Bool
is_reaction emoji user_id r = r.emoji == emoji && r.user_id == user_id

abbrev pub same : Bool → Bool → Bool
same true b = b
same false b = not b

abbrev pub with_reaction : String → String → Bool → ApiMessage → ApiMessage
with_reaction emoji user_id present m =
    if same (any (is_reaction emoji user_id) m.reactions) present then m else record m {
      reactions =
          if present
          then m.reactions ++ record { emoji = emoji; user_id = user_id } ∷ []
          else filter (λ r. not (is_reaction emoji user_id r)) m.reactions;
    }

-- `applyReactionPresenceList`.
unfoldable pub apply_reaction_list :
    List ApiMessage → String → String → String → Bool → List ApiMessage
apply_reaction_list list message_id emoji user_id present =
    map (λ m. if m.id == message_id then with_reaction emoji user_id present m else m) list

abbrev pub each :
    (List ApiMessage → List ApiMessage) → Dict (List ApiMessage) → Dict (List ApiMessage)
each f [] = []
each f ((k, ms) ∷ rest) = (k, f ms) ∷ each f rest

-- A change goes to the conversation that is named and cached, and otherwise to all of them.
abbrev pub on_cache :
    Option String
    → (List ApiMessage → List ApiMessage)
    → Dict (List ApiMessage)
    → Dict (List ApiMessage)
on_cache none f cache = each f cache
on_cache (some k) f cache = elim (get k cache) [
  | none ↦ each f cache
  | some list ↦ if k == "" then each f cache else put k (f list) cache
]

unfoldable pub apply_reaction :
    String → String → String → Bool → Option String → ChatState → ChatState
unfolding apply_reaction_list
apply_reaction message_id emoji user_id present conversation s = record s {
  messages_by_conversation =
      on_cache conversation (λ list. apply_reaction_list list message_id emoji user_id present)
        s.messages_by_conversation;
}

-- `updateMessage`; the patch is a function.
unfoldable pub update_message :
    String → (ApiMessage → ApiMessage) → Option String → ChatState → ChatState
update_message message_id patch conversation s = record s {
  messages_by_conversation =
      on_cache conversation (map (λ m. if m.id == message_id then patch m else m))
        s.messages_by_conversation;
}

unfoldable pub remove_message : String → String → Option String → ChatState → ChatState
remove_message now message_id conversation s = record s {
  messages_by_conversation =
      on_cache conversation
        (map (λ (m : ApiMessage).
          if m.id == message_id then record m { deleted_at = some now; content = "" } else m))
        s.messages_by_conversation;
}

unfoldable pub upsert_conversation : NormalizedConversation → ChatState → ChatState
upsert_conversation c s = record s {
  conversations =
      if any (λ d. d.id == c.id) s.conversations
      then map (λ d. if d.id == c.id then c else d) s.conversations
      else c ∷ s.conversations;
}

unfoldable pub apply_message_activity : String → ℕ → Option String → String → ChatState → ChatState
apply_message_activity id sequence preview at s = record s {
  conversations =
      map
        (λ (c : NormalizedConversation).
          if not (c.id == id) then c else if leb sequence c.last_sequence then c else record c {
            last_sequence = sequence;
            last_message_preview = preview;
            last_message_at = some at;
          })
        s.conversations;
}

abbrev is_active : Option String → String → Bool
is_active none id = false
is_active (some k) id = k == id

unfoldable pub remove_conversation : String → ChatState → ChatState
remove_conversation id s = record s {
  conversations = filter (λ c. not (c.id == id)) s.conversations;
  messages_by_conversation = drop id s.messages_by_conversation;
  pending_messages = filter (λ p. not (p.conversation_id == id)) s.pending_messages;
  active_conversation_id =
      if is_active s.active_conversation_id id then none else s.active_conversation_id;
}

abbrev pub cached : String → ChatState → List ApiMessage
cached id s = elim (get id s.messages_by_conversation) [ none ↦ [] | some list ↦ list ]

abbrev pub with_list : String → List ApiMessage → ChatState → ChatState
with_list id list s = record s { messages_by_conversation = put id list s.messages_by_conversation }

unfoldable pub set_messages : String → List ApiMessage → Bool → ChatState → ChatState
unfolding sort_messages
set_messages id messages has_more s = record (with_list id (sort_messages messages) s) {
  has_more_history = put id has_more s.has_more_history;
}

abbrev pub known : List ApiMessage → ApiMessage → Bool
known list m = any (λ x. x.id == m.id) list

unfoldable pub prepend_messages : String → List ApiMessage → Bool → ChatState → ChatState
unfolding sort_messages
prepend_messages id messages has_more s =
    let existing = cached id s in
    record (with_list id (sort_messages (existing ++ filter (λ m. not (known existing m)) messages))
      s) { has_more_history = put id has_more s.has_more_history }

unfoldable pub upsert_message : ApiMessage → ChatState → ChatState
unfolding sort_messages
upsert_message m s =
    let list = cached m.conversation_id s in
    with_list m.conversation_id
      (if known list m
        then map (λ x. if x.id == m.id then m else x) list
        else sort_messages (list ++ m ∷ []))
      s

unfoldable pub add_pending : PendingMessage → ChatState → ChatState
add_pending p s = record s { pending_messages = s.pending_messages ++ p ∷ [] }

unfoldable pub resolve_pending : String → ChatState → ChatState
resolve_pending id s = record s {
  pending_messages = filter (λ p. not (p.client_message_id == id)) s.pending_messages;
}

abbrev set_status : String → PendingStatus → List PendingMessage → List PendingMessage
set_status id status =
    map (λ (p : PendingMessage).
      if p.client_message_id == id then record p { status = status } else p)

unfoldable pub mark_pending_failed : String → ChatState → ChatState
mark_pending_failed id s = record s {
  pending_messages = set_status id PendingStatus.failed s.pending_messages;
}

unfoldable pub retry_pending : String → ChatState → ChatState
retry_pending id s = record s {
  pending_messages = set_status id PendingStatus.pending s.pending_messages;
}

-- `applyReadReceipt`.
unfoldable pub apply_read_receipt : String → String → ℕ → ChatState → ChatState
unfolding advance_member_watermark
apply_read_receipt id user_id sequence s = record s {
  conversations =
      map
        (λ (c : NormalizedConversation).
          if not (c.id == id)
          then c
          else (elim (advance_member_watermark (some c.members) user_id sequence) [
            | none ↦ c
            | some members ↦ record c { members = members }
          ]))
        s.conversations;
}

unfoldable pub reset_transient : ChatState → ChatState
reset_transient s = record s {
  conversations = [];
  conversations_loaded = false;
  active_conversation_id = none;
  messages_by_conversation = [];
  pending_messages = [];
  has_more_history = [];
  loading_history = false;
  error = none;
}
