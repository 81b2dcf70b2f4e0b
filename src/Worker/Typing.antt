-- ===== src/Worker/Typing.antt =====
-- apps/chat-worker/src/handlers/typing.ts.
pub mod Effect
use mqtt_chat.Base.{String, none, some, [], ◌∷◌, ◌++◌, string_eq, if◌then◌else◌}
use mqtt_chat.Contracts.Topics.{EventTopic, event_topic}
use mqtt_chat.Contracts.Envelope.{CommandEnvelope, truthy, build_event_envelope}
use mqtt_chat.Contracts.Commands.{TypingSetCommand}
use mqtt_chat.Contracts.Events.{EventData}
use mqtt_chat.Store.Prisma.{Prisma}
use mqtt_chat.Store.Redis.{RedisClient, set_typing}
use mqtt_chat.Worker.Context.{
  Env, World, Publication, Outcome, acked, thrown, publish_failed, find_member, user_origin,
  user_actor,
}

abbrev pub typing_publication : Env → CommandEnvelope TypingSetCommand → String → Publication
typing_publication env envelope user_id = record {
  topic =
      event_topic env.namespace (
        if envelope.payload.is_typing
        then EventTopic.typing_started
        else EventTopic.typing_stopped);
  event = build_event_envelope env.uuid env.now (record {
    event_type = if envelope.payload.is_typing then "typing.started" else "typing.stopped";
    origin = user_origin user_id;
    actor = user_actor user_id envelope.actor.device_id;
    conversation_id = some envelope.payload.conversation_id;
    correlation_id = envelope.correlation_id;
    causation_id = none;
    payload = EventData.typing envelope.payload.conversation_id user_id;
  });
  qos = 0;
}

-- The publish is awaited: if the broker refuses it, the command fails.
unfoldable pub handle_typing_set :
    Prisma → RedisClient → Env → CommandEnvelope TypingSetCommand → World → Outcome
handle_typing_set P R env envelope w = elim (truthy envelope.actor.user_id) [
  | none ↦ acked w
  | some user_id ↦ elim (find_member P w.db envelope.payload.conversation_id user_id) [
    | none ↦ acked w
    | some _ ↦
        let w' : World = record w {
          redis =
              set_typing R env.now envelope.payload.conversation_id user_id
                envelope.payload.is_typing w.redis;
        } in
        if env.broker_accepts
        then acked (record w' { sent = w.sent ++ typing_publication env envelope user_id ∷ [] })
        else thrown publish_failed w'
  ]
]
