-- ===== src/Contracts/Commands.antt =====
-- packages/mqtt-contracts/src/commands.ts: the payloads of the commands, once parsed.
use mqtt_chat.Base.{ℕ, String, Option, Bool, List}

pub data MessageType : Type 0 where
  text image video file voice system : MessageType

-- A value of a JSON object: a text, or the JSON text of anything else.
pub data JsonValue : Type 0 where
  string raw : String → JsonValue

abbrev pub Metadata : Type 0
Metadata = List (String × JsonValue)

pub record SendMessageCommand : Type 0 where
  pub conversation_id : String
  pub client_message_id : String
  pub type : MessageType
  pub content : String
  pub reply_to_id : Option String
  pub metadata : Option Metadata

pub record EditMessageCommand : Type 0 where
  pub message_id : String
  pub conversation_id : String
  pub content : String

pub record DeleteMessageCommand : Type 0 where
  pub message_id : String
  pub conversation_id : String

pub record AddReactionCommand : Type 0 where
  pub message_id : String
  pub conversation_id : String
  pub emoji : String

pub record ReadReceiptCommand : Type 0 where
  pub conversation_id : String
  pub last_read_sequence : ℕ

pub record DeliveredReceiptCommand : Type 0 where
  pub conversation_id : String
  pub last_delivered_sequence : ℕ

pub record PresenceSetCommand : Type 0 where
  pub is_online : Bool

pub record TypingSetCommand : Type 0 where
  pub conversation_id : String
  pub is_typing : Bool

pub record BotSendCommand : Type 0 where
  pub conversation_id : String
  pub client_message_id : String
  pub bot_id : String
  pub type : MessageType
  pub content : String
  pub reply_to_id : Option String
  pub metadata : Option Metadata
  pub correlation_id : Option String
  pub causation_id : Option String
  pub rule_id : Option String
