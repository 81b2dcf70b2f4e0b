-- ===== src/Worker/Messages/Outcome.antt =====
-- The ways in which `handleMessageSend` can end.
use mqtt_chat.Base.{String, none, some, ◌≡◌, refl, ◌⊎◌, inl, inr, arith, Option-cases, suc}
use mqtt_chat.Contracts.Envelope.{CommandEnvelope, truthy}
use mqtt_chat.Contracts.Commands.{SendMessageCommand}
use mqtt_chat.Store.Prisma.{tables}
use mqtt_chat.Store.Redis.{RedisClient}
use mqtt_chat.Worker.Context.{
  Env, World, Failure, unique_violation, conversation_not_found, publish_failed, after, ok,
}
use mqtt_chat.Worker.Messages.Send.{
  reject_send, check_send, store_message, recover_send, commit_send, handle_message_send,
}
use mqtt_chat.Worker.Messages.Sequence.{
  stored_message, stored_db, last_of, advanced, store_message-cases,
}

module _ (R : RedisClient) (env : Env) (envelope : CommandEnvelope SendMessageCommand)
    (w : World) where
  abbrev pub sent_world : World
  sent_world = after (handle_message_send tables R env envelope w)

  recover_send-db : (f : Failure) → (after (recover_send tables env envelope f w)).db ≡ w.db
  unfolding recover_send
  recover_send-db unique_violation = ground arith
  recover_send-db conversation_not_found = refl
  recover_send-db publish_failed = refl

  -- A send that stored its message.
  pub record IsCommitted : Type 0 where
    pub user_id : String
    pub identified : truthy envelope.actor.user_id ≡ some user_id
    pub allowed : check_send tables w.db envelope.payload user_id ≡ none
    pub stored :
        store_message tables env envelope user_id w.db
        ≡ ok (stored_message env envelope user_id w.db, stored_db env envelope user_id w.db)
    pub grown :
        last_of envelope.payload.conversation_id
          (advanced env.now envelope.payload.conversation_id w.db.conversations)
        ≡ suc (last_of envelope.payload.conversation_id w.db.conversations)
    pub result : sent_world.db ≡ stored_db env envelope user_id w.db

  commit_send-cases :
      (user_id : String)
      → truthy envelope.actor.user_id ≡ some user_id
      → check_send tables w.db envelope.payload user_id ≡ none
      → (sent_world.db ≡ w.db) ⊎ IsCommitted
  unfolding handle_message_send commit_send
  commit_send-cases user_id identified allowed =
      elim (store_message-cases env envelope user_id w.db) [
        | inl (stored, grown) ↦ inr (record {
          user_id = user_id;
          identified = identified;
          allowed = allowed;
          stored = stored;
          grown = grown;
          result = ground arith;
        })
        | inr (f, failed) ↦ inl (ground (arith, recover_send-db f))
      ]

  -- The database stays as it was, or it is the one that the transaction commits.
  pub sent_world-cases : (sent_world.db ≡ w.db) ⊎ IsCommitted
  unfolding handle_message_send reject_send
  sent_world-cases = elim (Option-cases (truthy envelope.actor.user_id)) [
    | inl anonymous ↦ inl (ground arith)
    | inr (user_id, identified) ↦
        elim (Option-cases (check_send tables w.db envelope.payload user_id)) [
          | inl allowed ↦ commit_send-cases user_id identified allowed
          | inr (reason, refused) ↦ inl (ground arith)
        ]
  ]
