-- ===== src/Client/Model.antt =====
-- `ApiMessage` of apps/mobile/src/lib/api.ts and apps/web/src/lib/api.ts, and the pending sends of both
-- clients. A time is the text that the server sent.
use mqtt_chat.Base.{ℕ, String, Option, List}
use mqtt_chat.Contracts.Commands.{MessageType, Metadata}
use mqtt_chat.Contracts.Events.{SenderType, ReactionRef}

pub record ApiMessage : Type 0 where
  pub id : String
  pub client_message_id : String
  pub conversation_id : String
  pub sender_id : String
  pub sender_type : SenderType
  pub sender_name : String
  pub sequence : ℕ
  pub type : MessageType
  pub content : String
  pub reply_to_id : Option String
  pub metadata : Option Metadata
  pub reactions : List ReactionRef
  pub created_at : String
  pub edited_at : Option String
  pub deleted_at : Option String

pub data PendingStatus : Type 0 where
  queued pending failed : PendingStatus

pub record PendingMessage : Type 0 where
  pub client_message_id : String
  pub conversation_id : String
  pub content : String
  pub reply_to_id : Option String
  pub status : PendingStatus
  pub type : Option MessageType
  pub metadata : Option Metadata
