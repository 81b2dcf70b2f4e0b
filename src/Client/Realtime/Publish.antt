-- ===== src/Client/Realtime/Publish.antt =====
-- `ChatRealtimeClient.publish`, and the methods that call it.
use mqtt_chat.Base.{ℕ, String, string_discrete, Option, none, some, Bool, if◌then◌else◌, ◌≡◌, refl}
use mqtt_chat.Contracts.Envelope.{CommandEnvelope}
use mqtt_chat.Contracts.Commands.{
  SendMessageCommand, EditMessageCommand, DeleteMessageCommand, AddReactionCommand,
  ReadReceiptCommand, DeliveredReceiptCommand, TypingSetCommand, PresenceSetCommand,
}
use mqtt_chat.Contracts.Topics.{CommandTopic, command_topic}
use mqtt_chat.Worker.Dispatch.{CommandType, own, command_schema}

-- A call of one of the methods, with the `data` that it publishes.
pub data Call : Type 0 where
  send_message : SendMessageCommand → Call
  edit_message : EditMessageCommand → Call
  delete_message : DeleteMessageCommand → Call
  add_reaction remove_reaction : AddReactionCommand → Call
  mark_read : ReadReceiptCommand → Call
  mark_delivered : DeliveredReceiptCommand → Call
  set_typing : TypingSetCommand → Call
  set_presence : PresenceSetCommand → Call

pub record Identity : Type 0 where
  pub user_id : String
  pub device_id : String

pub record Published : Type 0 where
  pub topic : String
  pub envelope : CommandEnvelope Call
  pub qos : ℕ

abbrev pub type_of : Call → String
type_of (send_message d) = "message.send"
type_of (edit_message d) = "message.edit"
type_of (delete_message d) = "message.delete"
type_of (add_reaction d) = "reaction.add"
type_of (remove_reaction d) = "reaction.remove"
type_of (mark_read d) = "receipt.read"
type_of (mark_delivered d) = "receipt.delivered"
type_of (set_typing d) = "typing.set"
type_of (set_presence d) = "presence.set"

abbrev pub topic_of : Call → CommandTopic
topic_of (send_message d) = CommandTopic.message_send
topic_of (edit_message d) = CommandTopic.message_edit
topic_of (delete_message d) = CommandTopic.message_delete
topic_of (add_reaction d) = CommandTopic.reaction_add
topic_of (remove_reaction d) = CommandTopic.reaction_remove
topic_of (mark_read d) = CommandTopic.receipt_read
topic_of (mark_delivered d) = CommandTopic.receipt_delivered
topic_of (set_typing d) = CommandTopic.typing_set
topic_of (set_presence d) = CommandTopic.presence_set

-- `none` where the call throws: the client is not there or not connected. Every method publishes at
-- `MQTT_QOS.command`.
unfoldable pub publish : String → Identity → String → ℕ → Bool → Call → Option Published
unfolding command_topic
publish namespace identity uuid now is_connected call =
    if is_connected
    then some (record {
      topic = command_topic namespace (topic_of call);
      envelope = record {
        request_id = uuid;
        command_type = type_of call;
        version = 1;
        timestamp = now;
        actor = record {
          user_id = some identity.user_id;
          device_id = some identity.device_id;
          bot_id = none;
        };
        client_message_id = none;
        correlation_id = none;
        causation_id = none;
        payload = call;
      };
      qos = 1;
    })
    else none

-- The handler that the worker's table holds for a call.
abbrev pub handler_of : Call → CommandType
handler_of (send_message d) = CommandType.message_send
handler_of (edit_message d) = CommandType.message_edit
handler_of (delete_message d) = CommandType.message_delete
handler_of (add_reaction d) = CommandType.reaction_add
handler_of (remove_reaction d) = CommandType.reaction_remove
handler_of (mark_read d) = CommandType.receipt_read
handler_of (mark_delivered d) = CommandType.receipt_delivered
handler_of (set_typing d) = CommandType.typing_set
handler_of (set_presence d) = CommandType.presence_set

-- Every command that a client publishes is found in the table of the worker, under its own handler.
pub calls_known : (call : Call) → command_schema (type_of call) ≡ own (handler_of call)
unfolding command_schema string_discrete
calls_known (send_message d) = refl
calls_known (edit_message d) = refl
calls_known (delete_message d) = refl
calls_known (add_reaction d) = refl
calls_known (remove_reaction d) = refl
calls_known (mark_read d) = refl
calls_known (mark_delivered d) = refl
calls_known (set_typing d) = refl
calls_known (set_presence d) = refl
