-- ===== src/Worker/Reactions.antt =====
-- apps/chat-worker/src/handlers/reactions.ts.
pub mod Toggle
use mqtt_chat.Base.{
  String, Option, none, some, Bool, true, false, not, ◌&&◌, ◌||◌, List, [], ◌∷◌, ◌++◌, ◌==◌,
  string_eq, nat_eq, if◌then◌else◌,
}
use mqtt_chat.Contracts.Topics.{EventTopic, event_topic}
use mqtt_chat.Contracts.Envelope.{CommandEnvelope, truthy, EventEnvelope, build_event_envelope}
use mqtt_chat.Contracts.Commands.{AddReactionCommand}
use mqtt_chat.Contracts.Events.{EventData}
use mqtt_chat.Store.Rows.{Db, Reaction, OutboxEvent}
use mqtt_chat.Store.Prisma.{Prisma}
use mqtt_chat.Worker.Context.{
  Env, World, Outcome, acked, thrown, Failure, unique_violation, conversation_not_found,
  publish_failed, Tx, ok, fail, ◌>>=◌, or_fail, find_member, find_message, is_some, create_outbox,
  outbox_row, user_origin, user_actor,
}

abbrev pub reaction_event :
    Env → CommandEnvelope AddReactionCommand → String → String → EventEnvelope EventData
reaction_event env envelope user_id event_type = build_event_envelope env.uuid env.now (record {
  event_type = event_type;
  origin = user_origin user_id;
  actor = user_actor user_id envelope.actor.device_id;
  conversation_id = some envelope.payload.conversation_id;
  correlation_id = envelope.correlation_id;
  causation_id = some envelope.request_id;
  payload =
      EventData.reaction_changed envelope.payload.message_id envelope.payload.conversation_id
        user_id envelope.payload.emoji;
})

abbrev pub added_row : Env → CommandEnvelope AddReactionCommand → String → OutboxEvent
added_row env envelope user_id =
    outbox_row env "reaction.added" "Message" envelope.payload.message_id
      (event_topic env.namespace EventTopic.reaction_added)
      (reaction_event env envelope user_id "reaction.added")

abbrev pub removed_row : Env → CommandEnvelope AddReactionCommand → String → OutboxEvent
removed_row env envelope user_id =
    outbox_row env "reaction.removed" "Message" envelope.payload.message_id
      (event_topic env.namespace EventTopic.reaction_removed)
      (reaction_event env envelope user_id "reaction.removed")

abbrev pub new_reaction : Env → AddReactionCommand → String → Reaction
new_reaction env cmd user_id = record {
  message_id = cmd.message_id;
  user_id = user_id;
  emoji = cmd.emoji;
  conversation_id = cmd.conversation_id;
  created_at = env.now;
}

-- The primary key of the table: message, user and emoji.
abbrev pub same_reaction : AddReactionCommand → String → Reaction → Bool
same_reaction cmd user_id r =
    r.message_id == cmd.message_id && (r.user_id == user_id && r.emoji == cmd.emoji)

module _ (P : Prisma) where
  unfoldable pub add_transaction : Env → CommandEnvelope AddReactionCommand → String → Db → Tx Db
  add_transaction env envelope user_id db = do
    reactions ←
        or_fail
          (P.create Reaction (same_reaction envelope.payload user_id)
            (new_reaction env envelope.payload user_id) db.reactions)
          unique_violation
    outbox ← create_outbox P (added_row env envelope user_id) db.outbox
    ok (record db { reactions = reactions; outbox = outbox })

  -- A duplicate (P2002) is no error.
  unfoldable pub add_outcome : World → Tx Db → Outcome
  add_outcome w (ok db) = acked (record w { db = db })
  add_outcome w (fail unique_violation) = acked w
  add_outcome w (fail conversation_not_found) = thrown conversation_not_found w
  add_outcome w (fail publish_failed) = thrown publish_failed w

  unfoldable pub handle_reaction_add : Env → CommandEnvelope AddReactionCommand → World → Outcome
  unfolding add_transaction add_outcome
  handle_reaction_add env envelope w = elim (truthy envelope.actor.user_id) [
    | none ↦ acked w
    | some user_id ↦ elim (find_message P w.db envelope.payload.message_id) [
      | none ↦ acked w
      | some message ↦
          if not (message.conversation_id == envelope.payload.conversation_id)
            || is_some message.deleted_at
          then acked w
          else elim (find_member P w.db envelope.payload.conversation_id user_id) [
            | none ↦ acked w
            | some _ ↦ add_outcome w (add_transaction env envelope user_id w.db)
          ]
    ]
  ]

  unfoldable pub remove_transaction : Env → CommandEnvelope AddReactionCommand → String → Db → Tx Db
  remove_transaction env envelope user_id db =
      let (reactions, count) =
        P.delete_many Reaction
          (λ r.
            same_reaction envelope.payload user_id r
            && r.conversation_id == envelope.payload.conversation_id)
          db.reactions in
      if count == 0 then ok db else do
        outbox ← create_outbox P (removed_row env envelope user_id) db.outbox
        ok (record db { reactions = reactions; outbox = outbox })

  unfoldable pub handle_reaction_remove : Env → CommandEnvelope AddReactionCommand → World → Outcome
  unfolding remove_transaction
  handle_reaction_remove env envelope w = elim (truthy envelope.actor.user_id) [
    | none ↦ acked w
    | some user_id ↦ elim (find_member P w.db envelope.payload.conversation_id user_id) [
      | none ↦ acked w
      | some _ ↦ elim (remove_transaction env envelope user_id w.db) [
        | ok db ↦ acked (record w { db = db })
        | fail failure ↦ thrown failure w
      ]
    ]
  ]
