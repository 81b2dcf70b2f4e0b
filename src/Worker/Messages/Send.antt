-- ===== src/Worker/Messages/Send.antt =====
-- `toMessageEventData`, `rejectSend` and `handleMessageSend` of
-- apps/chat-worker/src/handlers/messages.ts.
use Prim.Native.String
use mqtt_chat.Base.{
  ℕ, suc, String, Option, none, some, Bool, not, ◌&&◌, ◌||◌, List, [], ◌∷◌, ◌++◌, ◌==◌, string_eq,
  nat_eq, if◌then◌else◌,
}
use mqtt_chat.Contracts.Topics.{EventTopic, event_topic}
use mqtt_chat.Contracts.Envelope.{CommandEnvelope, OriginType, truthy, build_event_envelope}
use mqtt_chat.Contracts.Commands.{SendMessageCommand}
use mqtt_chat.Contracts.Events.{MessageEventData, SenderType, EventData}
use mqtt_chat.Store.Rows.{Db, Conversation, Member, Message, OutboxEvent}
use mqtt_chat.Store.Prisma.{Prisma}
use mqtt_chat.Store.Redis.{RedisClient, Redis, increment_unread}
use mqtt_chat.Worker.Context.{
  Env, Publication, World, Failure, unique_violation, conversation_not_found, publish_failed,
  Outcome, acked, thrown, Tx, ok, fail, ◌>>=◌, or_fail, find_member, find_message,
  find_conversation, is_some, create_outbox, outbox_row, user_origin, user_actor,
}

-- The row was made without its reactions, so there are none.
abbrev pub to_message_event_data : Message → MessageEventData
to_message_event_data m = record {
  message_id = m.id;
  client_message_id = m.client_message_id;
  conversation_id = m.conversation_id;
  sender_id = m.sender_id;
  sender_type = m.sender_type;
  sequence = m.sequence;
  type = m.type;
  content = m.content;
  reply_to_id = m.reply_to_id;
  metadata = m.metadata;
  reactions = [];
  created_at = m.created_at;
}

abbrev pub rejection : Env → CommandEnvelope SendMessageCommand → String → Publication
rejection env envelope reason = record {
  topic = event_topic env.namespace EventTopic.message_rejected;
  event = build_event_envelope env.uuid env.now (record {
    event_type = "message.rejected";
    origin = record { type = OriginType.system; id = some "chat-worker"; rule_id = none };
    actor = some envelope.actor;
    conversation_id = some envelope.payload.conversation_id;
    correlation_id = some envelope.request_id;
    causation_id = none;
    payload =
        EventData.message_rejected envelope.payload.client_message_id reason
          envelope.payload.conversation_id;
  });
  qos = 1;
}

-- The publish is not awaited, so it cannot fail the command.
unfoldable pub reject_send : Env → CommandEnvelope SendMessageCommand → String → World → World
reject_send env envelope reason w = record w { sent = w.sent ++ rejection env envelope reason ∷ [] }

-- Two messages clash on a unique key of the table.
abbrev pub message_clash : Message → Message → Bool
message_clash new old =
    old.client_message_id == new.client_message_id
    || (old.conversation_id == new.conversation_id && old.sequence == new.sequence)

abbrev pub new_message : Env → SendMessageCommand → String → ℕ → Message
new_message env cmd user_id sequence = record {
  id = env.message_id;
  client_message_id = cmd.client_message_id;
  conversation_id = cmd.conversation_id;
  sender_id = user_id;
  sender_type = SenderType.user;
  sequence = sequence;
  type = cmd.type;
  content = cmd.content;
  reply_to_id = cmd.reply_to_id;
  metadata = cmd.metadata;
  created_at = env.now;
  edited_at = none;
  deleted_at = none;
}

abbrev pub created_row : Env → CommandEnvelope SendMessageCommand → String → Message → OutboxEvent
created_row env envelope user_id created =
    outbox_row env "message.created" "Message" created.id
      (event_topic env.namespace EventTopic.message_created)
      (build_event_envelope env.uuid env.now (record {
        event_type = "message.created";
        origin = user_origin user_id;
        actor = user_actor user_id envelope.actor.device_id;
        conversation_id = some envelope.payload.conversation_id;
        correlation_id = envelope.correlation_id;
        causation_id = none;
        payload = EventData.message_created (to_message_event_data created);
      }))

module _ (R : RedisClient) where
  unfoldable pub count_unread : String → List Member → Redis → Redis
  count_unread conversation_id [] r = r
  count_unread conversation_id (m ∷ ms) r =
      count_unread conversation_id ms (increment_unread R m.user_id conversation_id r)

module _ (P : Prisma) where
  check_reply : Db → String → Option String → Option String
  check_reply db conversation_id reply_to_id = elim (truthy reply_to_id) [
    | none ↦ none
    | some id ↦ elim (find_message P db id) [
      | none ↦ some (String.◌++◌ "invalid reply target " id)
      | some reply_to ↦
          if reply_to.conversation_id == conversation_id
          then none
          else some (String.◌++◌ "invalid reply target " id)
    ]
  ]

  -- The reason for a rejection, by the checks in their order.
  unfoldable pub check_send : Db → SendMessageCommand → String → Option String
  unfolding check_reply
  check_send db cmd user_id = elim (find_member P db cmd.conversation_id user_id) [
    | none ↦ some "sender is not a member of this conversation"
    | some _ ↦ elim (find_conversation P db cmd.conversation_id) [
      | none ↦ check_reply db cmd.conversation_id cmd.reply_to_id
      | some c ↦
          if is_some c.deleted_at
          then some "conversation was deleted"
          else check_reply db cmd.conversation_id cmd.reply_to_id
    ]
  ]

  -- UPDATE "Conversation" SET "lastSequence" = "lastSequence" + 1 … RETURNING "lastSequence".
  unfoldable pub next_sequence : ℕ → String → List Conversation → Tx (ℕ × List Conversation)
  next_sequence now id rows =
      let updated =
        (P.update_many Conversation (λ c. c.id == id)
          (λ c. record c { last_sequence = suc c.last_sequence; updated_at = now }) rows).0 in
      elim (P.find_first Conversation (λ c. c.id == id) updated) [
        | none ↦ fail conversation_not_found
        | some c ↦ ok (c.last_sequence, updated)
      ]

  -- The transaction: sequence, message and outbox row.
  unfoldable pub store_message :
      Env → CommandEnvelope SendMessageCommand → String → Db → Tx (Message × Db)
  unfolding next_sequence
  store_message env envelope user_id db = do
    (sequence, conversations) ←
        next_sequence env.now envelope.payload.conversation_id db.conversations
    let created = new_message env envelope.payload user_id sequence
    messages ←
        or_fail (P.create Message (message_clash created) created db.messages) unique_violation
    outbox ← create_outbox P (created_row env envelope user_id created) db.outbox
    ok (created, record db { conversations = conversations; messages = messages; outbox = outbox })

  -- The catch block of a send.
  unfoldable pub recover_send : Env → CommandEnvelope SendMessageCommand → Failure → World → Outcome
  unfolding reject_send
  recover_send env envelope unique_violation w =
      elim (P.find_first Message (λ m. m.client_message_id == envelope.payload.client_message_id)
        w.db.messages) [
          | none ↦ thrown unique_violation w
          | some existing ↦
              if existing.conversation_id == envelope.payload.conversation_id
              then acked w
              else thrown unique_violation w
        ]
  recover_send env envelope conversation_not_found w =
      acked (reject_send env envelope "unknown conversation" w)
  recover_send env envelope publish_failed w = thrown publish_failed w

  abbrev pub other_members : Db → String → String → List Member
  other_members db conversation_id user_id =
      P.find_many Member (λ m. m.conversation_id == conversation_id && not (m.user_id == user_id))
        db.members

  module _ (R : RedisClient) where
    -- What follows the checks.
    unfoldable pub commit_send : Env → CommandEnvelope SendMessageCommand → String → World → Outcome
    commit_send env envelope user_id w = elim (store_message env envelope user_id w.db) [
      | ok (created, db) ↦ acked (record w {
        db = db;
        redis =
            count_unread R envelope.payload.conversation_id
              (other_members db envelope.payload.conversation_id user_id) w.redis;
      })
      | fail failure ↦ recover_send env envelope failure w
    ]

    unfoldable pub handle_message_send : Env → CommandEnvelope SendMessageCommand → World → Outcome
    handle_message_send env envelope w = elim (truthy envelope.actor.user_id) [
      | none ↦ acked (reject_send env envelope "missing actor userId" w)
      | some user_id ↦ elim (check_send w.db envelope.payload user_id) [
        | some reason ↦ acked (reject_send env envelope reason w)
        | none ↦ commit_send env envelope user_id w
      ]
    ]
