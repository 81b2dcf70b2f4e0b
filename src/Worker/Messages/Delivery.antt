-- ===== src/Worker/Messages/Delivery.antt =====
-- The database after `handleMessageSend`, whatever its outcome.
use mqtt_chat.Base.{
  suc, String, some, [], ◌∷◌, ◌++◌, string_eq, nat_eq, ◌≡◌, refl, sym, subst, ◌⊎◌, inl, inr,
}
use mqtt_chat.Contracts.Envelope.{CommandEnvelope, truthy}
use mqtt_chat.Contracts.Commands.{SendMessageCommand}
use mqtt_chat.Store.Rows.{Db, Message}
use mqtt_chat.Store.Prisma.{Prisma, IsPrisma, by_tables}
use mqtt_chat.Store.Redis.{RedisClient}
use mqtt_chat.Worker.Context.{Env, World, after}
use mqtt_chat.Worker.Messages.Send.{new_message, created_row, handle_message_send}
use mqtt_chat.Worker.Messages.Sequence.{IsNumbered, last_of, stored_message, stored_db-IsNumbered}
use mqtt_chat.Worker.Messages.Outcome.{sent_world-cases}

-- After any send, whatever its outcome, the messages of every conversation are still numbered
-- 1, 2, … with no gap up to the conversation's last sequence, if they were so before.
pub send-IsNumbered :
    (P : Prisma) (h : IsPrisma P) (R : RedisClient) (env : Env)
    (envelope : CommandEnvelope SendMessageCommand) (w : World)
    → IsNumbered w.db
    → IsNumbered (after (handle_message_send P R env envelope w)).db
send-IsNumbered P h R env envelope w numbered =
    by_tables (λ P. IsNumbered (after (handle_message_send P R env envelope w)).db) h
      (elim (sent_world-cases R env envelope w) [
        | inl same ↦ subst IsNumbered (sym same) numbered
        | inr c ↦
            subst IsNumbered (sym c.result)
              (stored_db-IsNumbered env envelope c.user_id w.db c.grown numbered)
      ])

-- The message of the send and its `message.created` event, added to the database together.
pub record IsStoredOnce (env : Env) (envelope : CommandEnvelope SendMessageCommand) (old new : Db)
    : Type 0 where
  pub user_id : String
  pub message : Message
  pub authored : truthy envelope.actor.user_id ≡ some user_id
  pub described :
      message
      ≡ new_message env envelope.payload user_id
          (suc (last_of envelope.payload.conversation_id old.conversations))
  pub messages : new.messages ≡ old.messages ++ message ∷ []
  pub outbox : new.outbox ≡ old.outbox ++ created_row env envelope user_id message ∷ []
  pub sequence : last_of envelope.payload.conversation_id new.conversations ≡ message.sequence
  pub members : new.members ≡ old.members
  pub reactions : new.reactions ≡ old.reactions

-- A send leaves the database as it was, or adds exactly one message, with the next sequence of its
-- conversation, together with exactly one outbox row, the canonical event of that message.
pub send_atomic :
    (P : Prisma) (h : IsPrisma P) (R : RedisClient) (env : Env)
    (envelope : CommandEnvelope SendMessageCommand) (w : World)
    → let db = (after (handle_message_send P R env envelope w)).db in
      (db ≡ w.db) ⊎ IsStoredOnce env envelope w.db db
send_atomic P h R env envelope w =
    by_tables
      (λ P.
        ((after (handle_message_send P R env envelope w)).db ≡ w.db)
        ⊎ IsStoredOnce env envelope w.db (after (handle_message_send P R env envelope w)).db)
      h
      (elim (sent_world-cases R env envelope w) [
        | inl same ↦ inl same
        | inr c ↦ inr (
            subst (IsStoredOnce env envelope w.db) (sym c.result) (record {
              user_id = c.user_id;
              message = stored_message env envelope c.user_id w.db;
              authored = c.identified;
              described = refl;
              messages = refl;
              outbox = refl;
              sequence = c.grown;
              members = refl;
              reactions = refl;
            }))
      ])
