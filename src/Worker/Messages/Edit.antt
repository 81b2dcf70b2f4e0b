-- ===== src/Worker/Messages/Edit.antt =====
-- `handleMessageEdit` and `handleMessageDelete` of apps/chat-worker/src/handlers/messages.ts.
pub mod Rights
pub mod Tombstone
use mqtt_chat.Base.{
  String, Option, none, some, Bool, true, false, not, ◌&&◌, ◌||◌, List, [], ◌∷◌, ◌++◌, ◌==◌,
  string_eq, if◌then◌else◌,
}
use mqtt_chat.Contracts.Topics.{EventTopic, event_topic}
use mqtt_chat.Contracts.Envelope.{CommandEnvelope, truthy, build_event_envelope}
use mqtt_chat.Contracts.Commands.{EditMessageCommand, DeleteMessageCommand}
use mqtt_chat.Contracts.Events.{SenderType, MemberRole, EventData}
use mqtt_chat.Store.Rows.{Db, Member, Message, OutboxEvent}
use mqtt_chat.Store.Prisma.{Prisma}
use mqtt_chat.Worker.Context.{
  Env, World, Outcome, acked, thrown, Tx, ok, fail, ◌>>=◌, find_member, find_message, is_some,
  create_outbox, outbox_row, user_origin, user_actor,
}

abbrev pub is_user : SenderType → Bool
is_user SenderType.user = true
is_user _ = false

abbrev pub is_admin : Option Member → Bool
is_admin none = false
is_admin (some m) = elim m.role [ MemberRole.admin ↦ true | MemberRole.member ↦ false ]

-- A command's transaction on the database of a world.
abbrev pub commit : World → Tx Db → Outcome
commit w (ok db) = acked (record w { db = db })
commit w (fail failure) = thrown failure w

abbrev pub edited_row : Env → CommandEnvelope EditMessageCommand → String → Message → OutboxEvent
edited_row env envelope user_id updated =
    outbox_row env "message.edited" "Message" updated.id
      (event_topic env.namespace EventTopic.message_edited)
      (build_event_envelope env.uuid env.now (record {
        event_type = "message.edited";
        origin = user_origin user_id;
        actor = user_actor user_id envelope.actor.device_id;
        conversation_id = some envelope.payload.conversation_id;
        correlation_id = envelope.correlation_id;
        causation_id = none;
        payload =
            EventData.message_edited updated.id updated.conversation_id updated.content env.now;
      }))

abbrev pub deleted_row : Env → CommandEnvelope DeleteMessageCommand → String → OutboxEvent
deleted_row env envelope user_id =
    outbox_row env "message.deleted" "Message" envelope.payload.message_id
      (event_topic env.namespace EventTopic.message_deleted)
      (build_event_envelope env.uuid env.now (record {
        event_type = "message.deleted";
        origin = user_origin user_id;
        actor = user_actor user_id envelope.actor.device_id;
        conversation_id = some envelope.payload.conversation_id;
        correlation_id = envelope.correlation_id;
        causation_id = none;
        payload =
            EventData.message_deleted envelope.payload.message_id envelope.payload.conversation_id
              env.now;
      }))

module _ (P : Prisma) where
  -- `tx.message.update` by id, with the outbox row of the event.
  change_message : String → (Message → Message) → OutboxEvent → Db → Tx Db
  change_message id change row db = do
    let messages = (P.update_many Message (λ m. m.id == id) change db.messages).0
    outbox ← create_outbox P row db.outbox
    ok (record db { messages = messages; outbox = outbox })

  unfoldable pub handle_message_edit : Env → CommandEnvelope EditMessageCommand → World → Outcome
  unfolding change_message
  handle_message_edit env envelope w = elim (truthy envelope.actor.user_id) [
    | none ↦ acked w
    | some user_id ↦ elim (find_message P w.db envelope.payload.message_id) [
      | none ↦ acked w
      | some message ↦
          if not (message.conversation_id == envelope.payload.conversation_id)
          then acked w
          else if not (message.sender_id == user_id) || not (is_user message.sender_type)
          then acked w
          else if is_some message.deleted_at
          then acked w
          else commit w (
              change_message envelope.payload.message_id
                (λ m. record m { content = envelope.payload.content; edited_at = some env.now })
                (edited_row env envelope user_id
                  (record message { content = envelope.payload.content; edited_at = some env.now }))
                w.db)
    ]
  ]

  unfoldable pub handle_message_delete :
      Env → CommandEnvelope DeleteMessageCommand → World → Outcome
  unfolding change_message
  handle_message_delete env envelope w = elim (truthy envelope.actor.user_id) [
    | none ↦ acked w
    | some user_id ↦ elim (find_message P w.db envelope.payload.message_id) [
      | none ↦ acked w
      | some message ↦
          let membership = find_member P w.db envelope.payload.conversation_id user_id in
          let is_author = message.sender_id == user_id && is_user message.sender_type in
          if not (message.conversation_id == envelope.payload.conversation_id)
          then acked w
          else if not is_author && not (is_admin membership)
          then acked w
          else if is_some message.deleted_at
          then acked w
          else commit w (
              change_message envelope.payload.message_id
                (λ m. record m { deleted_at = some env.now; content = "" })
                (deleted_row env envelope user_id) w.db)
    ]
  ]
