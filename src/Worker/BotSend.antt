-- ===== src/Worker/BotSend.antt =====
-- apps/chat-worker/src/handlers/bot-send.ts: the one way in which a bot creates a message.
pub mod Numbering
use mqtt_chat.Base.{
  ℕ, suc, String, Option, none, some, Bool, true, false, not, ◌&&◌, ◌||◌, List, [], ◌∷◌, ◌++◌, ◌==◌,
  string_eq, nat_eq, if◌then◌else◌,
}
use mqtt_chat.Contracts.Topics.{EventTopic, event_topic}
use mqtt_chat.Contracts.Envelope.{CommandEnvelope, Origin, OriginType, truthy, build_event_envelope}
use mqtt_chat.Contracts.Commands.{BotSendCommand, Metadata, JsonValue}
use mqtt_chat.Contracts.Events.{SenderType, EventData}
use mqtt_chat.Store.Rows.{Db, Bot, Message, OutboxEvent}
use mqtt_chat.Store.Prisma.{Prisma}
use mqtt_chat.Worker.Context.{
  Env, World, Failure, unique_violation, conversation_not_found, publish_failed, Outcome, acked,
  thrown, Tx, ok, fail, ◌>>=◌, or_fail, find_member, find_message, create_outbox, outbox_row,
}
use mqtt_chat.Worker.Messages.Send.{to_message_event_data, message_clash, next_sequence}

-- `{ ...object, [key]: value }`.
abbrev pub set_entry : String → JsonValue → Metadata → Metadata
set_entry key value [] = (key, value) ∷ []
set_entry key value ((k, v) ∷ rest) =
    if k == key then (k, value) ∷ rest else (k, v) ∷ set_entry key value rest

abbrev pub bot_metadata : BotSendCommand → Option Metadata
bot_metadata cmd = elim cmd.metadata [
  | none ↦ none
  | some entries ↦ elim (truthy cmd.rule_id) [
    | none ↦ some entries
    | some rule_id ↦ some (set_entry "ruleId" (JsonValue.string rule_id) entries)
  ]
]

-- `a ?? b`.
abbrev pub or_else : Option String → Option String → Option String
or_else none b = b
or_else (some a) b = some a

abbrev pub bot_message : Env → BotSendCommand → ℕ → Message
bot_message env cmd sequence = record {
  id = env.message_id;
  client_message_id = cmd.client_message_id;
  conversation_id = cmd.conversation_id;
  sender_id = cmd.bot_id;
  sender_type = SenderType.bot;
  sequence = sequence;
  type = cmd.type;
  content = cmd.content;
  reply_to_id = cmd.reply_to_id;
  metadata = bot_metadata cmd;
  created_at = env.now;
  edited_at = none;
  deleted_at = none;
}

abbrev pub bot_row : Env → CommandEnvelope BotSendCommand → Message → OutboxEvent
bot_row env envelope created =
    outbox_row env "message.created" "Message" created.id
      (event_topic env.namespace EventTopic.message_created)
      (build_event_envelope env.uuid env.now (record {
        event_type = "message.created";
        origin = record {
          type = OriginType.bot;
          id = some envelope.payload.bot_id;
          rule_id = truthy envelope.payload.rule_id;
        };
        actor =
            some
              (record { user_id = none; device_id = none; bot_id = some envelope.payload.bot_id });
        conversation_id = some envelope.payload.conversation_id;
        correlation_id = or_else envelope.payload.correlation_id envelope.correlation_id;
        causation_id = or_else envelope.payload.causation_id envelope.causation_id;
        payload = EventData.message_created (to_message_event_data created);
      }))

module _ (P : Prisma) where
  -- The bot exists and is enabled, is a member, and replies, if at all, within the conversation.
  unfoldable pub bot_may_send : Db → BotSendCommand → Bool
  bot_may_send db cmd = elim (P.find_first Bot (λ b. b.id == cmd.bot_id) db.bots) [
    | none ↦ false
    | some bot ↦
        if not bot.enabled then false else elim (find_member P db cmd.conversation_id cmd.bot_id) [
          | none ↦ false
          | some _ ↦ elim (truthy cmd.reply_to_id) [
            | none ↦ true
            | some id ↦ elim (find_message P db id) [
              | none ↦ false
              | some reply_to ↦ reply_to.conversation_id == cmd.conversation_id
            ]
          ]
        ]
  ]

  unfoldable pub store_bot_message : Env → CommandEnvelope BotSendCommand → Db → Tx Db
  unfolding next_sequence
  store_bot_message env envelope db = do
    (sequence, conversations) ←
        next_sequence P env.now envelope.payload.conversation_id db.conversations
    let created = bot_message env envelope.payload sequence
    messages ←
        or_fail (P.create Message (message_clash created) created db.messages) unique_violation
    outbox ← create_outbox P (bot_row env envelope created) db.outbox
    ok (record db { conversations = conversations; messages = messages; outbox = outbox })

  -- A duplicate client message id (P2002) is acknowledged.
  unfoldable pub bot_outcome : World → Tx Db → Outcome
  bot_outcome w (ok db) = acked (record w { db = db })
  bot_outcome w (fail unique_violation) = acked w
  bot_outcome w (fail conversation_not_found) = thrown conversation_not_found w
  bot_outcome w (fail publish_failed) = thrown publish_failed w

  unfoldable pub handle_bot_send : Env → CommandEnvelope BotSendCommand → World → Outcome
  unfolding bot_outcome
  handle_bot_send env envelope w =
      if bot_may_send w.db envelope.payload
      then bot_outcome w (store_bot_message env envelope w.db)
      else acked w
