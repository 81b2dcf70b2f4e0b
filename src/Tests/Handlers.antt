-- ===== src/Tests/Handlers.antt =====
-- A bot of the SDK with a command, and a middleware that calls `next` twice.
use mqtt_chat.Base.{string_discrete, ℕ_discrete, none, some, true, false, [], ◌∷◌, ◌≡◌}
use mqtt_chat.Contracts.Envelope.{EventEnvelope, OriginType}
use mqtt_chat.Contracts.Commands.{MessageType}
use mqtt_chat.Contracts.Events.{EventData, message_created, SenderType}
use mqtt_chat.Bots.Sdk.{
  Words, Bot, next, ends, process_event, automation_depth, create_context, message_of, Context,
  parse_simple_command,
}
use mqtt_chat.Bots.Sdk.Once.{handlers_once}

abbrev words : Words
words = record { split = λ s. ("ping", []); lower = λ s. s }

abbrev bot : Bot
bot = record {
  id = "b";
  allow_bot_messages = false;
  max_automation_depth = 3;
  command_handlers = ("ping", λ ctx. true) ∷ [];
  message_handlers = (λ ctx. false) ∷ (λ ctx. true) ∷ [];
  event_handlers = ("message.created", (λ ctx. true) ∷ []) ∷ [];
  middlewares = (λ ctx. next (λ first. next (λ second. ends))) ∷ [];
}

abbrev pinged : EventEnvelope EventData
pinged = record {
  event_id = "e1";
  event_type = "message.created";
  version = 1;
  timestamp = 100;
  actor = none;
  conversation_id = some "g";
  origin = record { type = OriginType.user; id = none; rule_id = none };
  correlation_id = none;
  causation_id = none;
  payload = message_created (record {
    message_id = "m1";
    client_message_id = "k1";
    conversation_id = "g";
    sender_id = "alice";
    sender_type = SenderType.user;
    sequence = 1;
    type = MessageType.text;
    content = "/ping";
    reply_to_id = none;
    metadata = none;
    reactions = [];
    created_at = 50;
  });
}

-- The context of the message's handlers.
abbrev with_message : Context
unfolding string_discrete parse_simple_command
with_message =
    create_context bot pinged (message_of pinged.payload) (parse_simple_command words "/ping")

handlers_once_example : (process_event words bot pinged).calls ≡ (
    (λ ctx. true, with_message)
    ∷ (λ ctx. false, with_message)
    ∷ (λ ctx. true, with_message)
    ∷ (λ ctx. true, create_context bot pinged none none)
    ∷ [])
unfolding string_discrete ℕ_discrete automation_depth parse_simple_command
handlers_once_example = handlers_once words bot pinged
