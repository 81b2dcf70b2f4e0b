-- ===== src/Store/Rows.antt =====
-- packages/database/prisma/schema.prisma: the rows of the tables that the modelled code touches.
use mqtt_chat.Base.{ℕ, String, Option, Bool, List}
use mqtt_chat.Contracts.Envelope.{EventEnvelope}
use mqtt_chat.Contracts.Commands.{MessageType, Metadata}
use mqtt_chat.Contracts.Events.{SenderType, MemberRole, ConversationType, EventData}

pub record Conversation : Type 0 where
  pub id : String
  pub type : ConversationType
  pub direct_pair_key : Option String
  pub title : Option String
  pub created_by : String
  pub last_sequence : ℕ
  pub created_at : ℕ
  pub updated_at : ℕ
  pub deleted_at : Option ℕ
  pub deleted_by : Option String

pub record Member : Type 0 where
  pub conversation_id : String
  pub user_id : String
  pub role : MemberRole
  pub last_read_sequence : ℕ
  pub last_delivered_sequence : ℕ
  pub joined_at : ℕ

pub record Message : Type 0 where
  pub id : String
  pub client_message_id : String
  pub conversation_id : String
  pub sender_id : String
  pub sender_type : SenderType
  pub sequence : ℕ
  pub type : MessageType
  pub content : String
  pub reply_to_id : Option String
  pub metadata : Option Metadata
  pub created_at : ℕ
  pub edited_at : Option ℕ
  pub deleted_at : Option ℕ

pub record Reaction : Type 0 where
  pub message_id : String
  pub user_id : String
  pub emoji : String
  pub conversation_id : String
  pub created_at : ℕ

pub record OutboxEvent : Type 0 where
  pub id : String
  pub event_type : String
  pub aggregate_type : String
  pub aggregate_id : String
  pub payload : EventEnvelope EventData
  pub topic : String
  pub created_at : ℕ
  pub published_at : Option ℕ
  pub attempt_count : ℕ
  pub last_error : Option String

pub record Bot : Type 0 where
  pub id : String
  pub enabled : Bool

pub record Device : Type 0 where
  pub client_id : String
  pub user_id : String
  pub platform : String
  pub last_seen_at : ℕ

pub record Db : Type 0 where
  pub users : List String
  pub conversations : List Conversation
  pub members : List Member
  pub messages : List Message
  pub reactions : List Reaction
  pub outbox : List OutboxEvent
  pub bots : List Bot
  pub devices : List Device
