-- ===== src/Contracts/Events.antt =====
-- packages/mqtt-contracts/src/events.ts: the payloads of the canonical events.
use mqtt_chat.Base.{ℕ, String, Option, List}
use mqtt_chat.Contracts.Commands.{MessageType, Metadata}

pub data SenderType : Type 0 where
  user bot system : SenderType

pub record ReactionRef : Type 0 where
  pub emoji : String
  pub user_id : String

pub record MessageEventData : Type 0 where
  pub message_id : String
  pub client_message_id : String
  pub conversation_id : String
  pub sender_id : String
  pub sender_type : SenderType
  pub sequence : ℕ
  pub type : MessageType
  pub content : String
  pub reply_to_id : Option String
  pub metadata : Option Metadata
  pub reactions : List ReactionRef
  pub created_at : ℕ

pub data MemberRole : Type 0 where
  member admin : MemberRole

pub data ConversationType : Type 0 where
  direct group : ConversationType

pub record MemberSummary : Type 0 where
  pub user_id : String
  pub role : MemberRole
  pub last_read_sequence : ℕ

-- `ConversationCreatedData`.
pub record ConversationSummary : Type 0 where
  pub id : String
  pub type : ConversationType
  pub title : Option String
  pub member_count : ℕ
  pub last_sequence : ℕ
  pub last_message_preview : Option String
  pub last_message_at : Option ℕ
  pub members : List MemberSummary
  pub created_at : ℕ

pub record Tombstone : Type 0 where
  pub id : String
  pub title : Option String
  pub deleted_by : String
  pub deleted_at : ℕ
  pub last_sequence : ℕ
  pub member_ids : List String

-- The payload of an event: one constructor for each schema.
pub data EventData : Type 0 where
  message_created : MessageEventData → EventData
  -- message, conversation, content, edited at
  message_edited : String → String → String → ℕ → EventData
  -- message, conversation, deleted at
  message_deleted : String → String → ℕ → EventData
  -- client message id, reason, conversation
  message_rejected : String → String → String → EventData
  -- message, conversation, user, emoji
  reaction_changed : String → String → String → String → EventData
  -- conversation, user, sequence
  receipt_read receipt_delivered : String → String → ℕ → EventData
  -- conversation, user
  typing : String → String → EventData
  -- user, device, connections, time
  presence : String → String → ℕ → ℕ → EventData
  conversation_created : ConversationSummary → EventData
  conversation_deleted : Tombstone → EventData
  -- with the users that were added, and the user that was removed
  member_joined : ConversationSummary → List String → EventData
  member_left : ConversationSummary → String → EventData
