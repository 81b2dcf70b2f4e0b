-- ===== src/Worker/Dispatch.antt =====
-- apps/chat-worker/src/worker.ts: commands are taken from the shared subscription, parsed, checked
-- and given to their handler. `COMMAND_SCHEMAS` is of packages/mqtt-contracts/src/commands.ts.
pub mod Frame
pub mod Run
pub mod Consume
use mqtt_chat.Base.{
  ℕ, suc, ◌+◌, ◌-◌, String, Option, none, some, Bool, true, false, List, [], ◌∷◌, ◌==◌, string_eq,
  if◌then◌else◌, any,
}
use mqtt_chat.Contracts.Envelope.{CommandEnvelope}
use mqtt_chat.Contracts.Commands.{
  SendMessageCommand, EditMessageCommand, DeleteMessageCommand, AddReactionCommand,
  ReadReceiptCommand, DeliveredReceiptCommand, PresenceSetCommand, TypingSetCommand, BotSendCommand,
}
use mqtt_chat.Store.Prisma.{Prisma}
use mqtt_chat.Store.Redis.{RedisClient}
use mqtt_chat.Worker.Context.{Env, World, Failure, Outcome, acked, thrown}
use mqtt_chat.Worker.Messages.Send.{handle_message_send}
use mqtt_chat.Worker.Messages.Edit.{handle_message_edit, handle_message_delete}
use mqtt_chat.Worker.Reactions.{handle_reaction_add, handle_reaction_remove}
use mqtt_chat.Worker.Receipts.{handle_receipt_read, handle_receipt_delivered}
use mqtt_chat.Worker.Presence.{handle_presence_set}
use mqtt_chat.Worker.Typing.{handle_typing_set}
use mqtt_chat.Worker.BotSend.{handle_bot_send}

-- JSON.parse and the zod schemas, which are not part of the repository: `Raw` is a parsed JSON value.
pub record Schemas (Buffer Raw : Type 0) : Type 0 where
  pub parse_command_envelope : Buffer → Option (CommandEnvelope Raw)
  pub send_message : Raw → Option SendMessageCommand
  pub edit_message : Raw → Option EditMessageCommand
  pub delete_message : Raw → Option DeleteMessageCommand
  pub add_reaction : Raw → Option AddReactionCommand
  pub remove_reaction : Raw → Option AddReactionCommand
  pub read_receipt : Raw → Option ReadReceiptCommand
  pub delivered_receipt : Raw → Option DeliveredReceiptCommand
  pub presence_set : Raw → Option PresenceSetCommand
  pub typing_set : Raw → Option TypingSetCommand
  pub bot_send : Raw → Option BotSendCommand

pub data CommandType : Type 0 where
  message_send message_edit message_delete reaction_add reaction_remove receipt_read
        receipt_delivered presence_set typing_set bot_send :
      CommandType

-- What `COMMAND_SCHEMAS[key]` finds: an own key, a property that every object inherits, or nothing.
pub data Lookup : Type 0 where
  own : CommandType → Lookup
  inherited : Lookup
  undefined : Lookup

abbrev pub object_prototype : List String
object_prototype =
    "constructor" ∷ "hasOwnProperty" ∷ "isPrototypeOf" ∷ "propertyIsEnumerable" ∷ "toLocaleString"
    ∷ "toString" ∷ "valueOf" ∷ "__proto__" ∷ "__defineGetter__" ∷ "__defineSetter__"
    ∷ "__lookupGetter__" ∷ "__lookupSetter__" ∷ []

unfoldable pub command_schema : String → Lookup
command_schema key =
    if key == "message.send"
    then own message_send
    else if key == "message.edit"
    then own message_edit
    else if key == "message.delete"
    then own message_delete
    else if key == "reaction.add"
    then own reaction_add
    else if key == "reaction.remove"
    then own reaction_remove
    else if key == "receipt.read"
    then own receipt_read
    else if key == "receipt.delivered"
    then own receipt_delivered
    else if key == "presence.set"
    then own presence_set
    else if key == "typing.set"
    then own typing_set
    else if key == "bot.send"
    then own bot_send
    else if any (λ name. name == key) object_prototype
    then inherited
    else undefined

-- `{ ...envelope, data: parsed.data }`.
abbrev pub with_payload : {A B : Type 0} → CommandEnvelope A → B → CommandEnvelope B
with_payload envelope data_ = record {
  request_id = envelope.request_id;
  command_type = envelope.command_type;
  version = envelope.version;
  timestamp = envelope.timestamp;
  actor = envelope.actor;
  client_message_id = envelope.client_message_id;
  correlation_id = envelope.correlation_id;
  causation_id = envelope.causation_id;
  payload = data_;
}

abbrev pub parsed_by :
    {A B : Type 0}
    → (A → Option B)
    → (CommandEnvelope B → Outcome)
    → CommandEnvelope A
    → Option Outcome
parsed_by parse handler envelope = elim (parse envelope.payload) [
  | none ↦ none
  | some payload ↦ some (handler (with_payload envelope payload))
]

module _ {Buffer Raw : Type 0} (S : Schemas Buffer Raw) (P : Prisma) (R : RedisClient) where
  -- The handler's outcome, or none if the payload fails its schema.
  unfoldable pub handle : CommandType → Env → CommandEnvelope Raw → World → Option Outcome
  handle message_send env e w = parsed_by S.send_message (λ c. handle_message_send P R env c w) e
  handle message_edit env e w = parsed_by S.edit_message (λ c. handle_message_edit P env c w) e
  handle message_delete env e w =
      parsed_by S.delete_message (λ c. handle_message_delete P env c w) e
  handle reaction_add env e w = parsed_by S.add_reaction (λ c. handle_reaction_add P env c w) e
  handle reaction_remove env e w =
      parsed_by S.remove_reaction (λ c. handle_reaction_remove P env c w) e
  handle receipt_read env e w = parsed_by S.read_receipt (λ c. handle_receipt_read P R env c w) e
  handle receipt_delivered env e w =
      parsed_by S.delivered_receipt (λ c. handle_receipt_delivered P env c w) e
  handle presence_set env e w = parsed_by S.presence_set (λ c. handle_presence_set P R env c w) e
  handle typing_set env e w = parsed_by S.typing_set (λ c. handle_typing_set P R env c w) e
  handle bot_send env e w = parsed_by S.bot_send (λ c. handle_bot_send P env c w) e

pub record ChatWorker : Type 0 where
  pub processing : ℕ
  pub stopped : Bool
  pub nacked_on_stop : ℕ

-- A command that is not acknowledged is delivered again.
pub data Nack : Type 0 where
  stopping : Nack
  handler_failed : Failure → Nack
  -- `schema.safeParse` is not a function
  type_error : Nack

pub data Consumed : Type 0 where
  resolved : ChatWorker → World → Consumed
  rejected : Nack → ChatWorker → World → Consumed

abbrev pub world_after : Consumed → World
world_after (resolved worker w) = w
world_after (rejected nack worker w) = w

abbrev pub worker_after : Consumed → ChatWorker
worker_after (resolved worker w) = worker
worker_after (rejected nack worker w) = worker

-- `finally { this.processing--; }`.
unfoldable pub settle_handler : ChatWorker → Outcome → Consumed
settle_handler worker (acked w) = resolved (record worker { processing = worker.processing - 1 }) w
settle_handler worker (thrown failure w) =
    rejected (handler_failed failure) (record worker { processing = worker.processing - 1 }) w

module _ {Buffer Raw : Type 0} (S : Schemas Buffer Raw) (P : Prisma) (R : RedisClient) where
  unfoldable pub consume : Env → Buffer → ChatWorker → World → Consumed
  unfolding settle_handler
  consume env payload worker w =
      if worker.stopped
      then rejected stopping (record worker { nacked_on_stop = suc worker.nacked_on_stop }) w
      else elim (S.parse_command_envelope payload) [
        | none ↦ resolved worker w
        | some envelope ↦ elim (command_schema envelope.command_type) [
          | undefined ↦ resolved worker w
          | inherited ↦ rejected type_error worker w
          | own command ↦ elim (handle S P R command env envelope w) [
            | none ↦ resolved worker w
            | some outcome ↦
                settle_handler (record worker { processing = suc worker.processing }) outcome
          ]
        ]
      ]
