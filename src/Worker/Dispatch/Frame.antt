-- ===== src/Worker/Dispatch/Frame.antt =====
-- The handlers that touch neither messages nor conversations.
use mqtt_chat.Base.{◌==◌, string_eq, nat_eq, find, ◌≡◌, sym, subst, inl, inr, arith, Option-cases}
use mqtt_chat.Contracts.Envelope.{CommandEnvelope, truthy}
use mqtt_chat.Contracts.Commands.{
  AddReactionCommand, ReadReceiptCommand, DeliveredReceiptCommand, PresenceSetCommand,
  TypingSetCommand, DeleteMessageCommand,
}
use mqtt_chat.Store.Rows.{Db}
use mqtt_chat.Store.Prisma.{Prisma, IsPrisma, tables, tables-IsPrisma, by_tables}
use mqtt_chat.Store.Redis.{RedisClient}
use mqtt_chat.Worker.Context.{Env, World, after}
use mqtt_chat.Worker.Messages.Sequence.{IsNumbered}
use mqtt_chat.Worker.Messages.Edit.{handle_message_delete}
use mqtt_chat.Worker.Messages.Edit.Tombstone.{delete-IsNumbered}
use mqtt_chat.Worker.Reactions.{
  handle_reaction_add, handle_reaction_remove, add_transaction, add_outcome, remove_transaction,
}
use mqtt_chat.Worker.Receipts.{
  handle_receipt_read, handle_receipt_delivered, advance_phase, advance_delivered, read_transaction,
}
use mqtt_chat.Worker.Presence.{handle_presence_set, go_online, go_offline, queue_presence}
use mqtt_chat.Worker.Typing.{handle_typing_set}

-- The same messages and conversations.
abbrev pub IsSameThread : Db → Db → Type 0
IsSameThread old new = (new.messages ≡ old.messages) × (new.conversations ≡ old.conversations)

pub typing-same :
    (R : RedisClient) (env : Env) (e : CommandEnvelope TypingSetCommand) (w : World)
    → IsSameThread w.db (after (handle_typing_set tables R env e w)).db
unfolding handle_typing_set
typing-same R env e w = (ground arith, ground arith)

pub presence-same :
    (R : RedisClient) (env : Env) (e : CommandEnvelope PresenceSetCommand) (w : World)
    → IsSameThread w.db (after (handle_presence_set tables R env e w)).db
unfolding handle_presence_set go_online go_offline queue_presence
presence-same R env e w = (ground arith, ground arith)

pub add-same :
    (env : Env) (e : CommandEnvelope AddReactionCommand) (w : World)
    → IsSameThread w.db (after (handle_reaction_add tables env e w)).db
unfolding handle_reaction_add add_transaction add_outcome
add-same env e w = (ground arith, ground arith)

pub remove-same :
    (env : Env) (e : CommandEnvelope AddReactionCommand) (w : World)
    → IsSameThread w.db (after (handle_reaction_remove tables env e w)).db
unfolding handle_reaction_remove remove_transaction
remove-same env e w = (ground arith, ground arith)

pub read-same :
    (R : RedisClient) (env : Env) (e : CommandEnvelope ReadReceiptCommand) (w : World)
    → IsSameThread w.db (after (handle_receipt_read tables R env e w)).db
unfolding handle_receipt_read read_transaction advance_phase
read-same R env e w = (ground arith, ground arith)

pub delivered-same :
    (env : Env) (e : CommandEnvelope DeliveredReceiptCommand) (w : World)
    → IsSameThread w.db (after (handle_receipt_delivered tables env e w)).db
unfolding handle_receipt_delivered advance_delivered
delivered-same env e w = (ground arith, ground arith)

pub same-IsNumbered : (old new : Db) → IsSameThread old new → IsNumbered old → IsNumbered new
same-IsNumbered old new (messages, conversations) numbered k =
    rw (messages, conversations) (numbered k)

pub delete_any-IsNumbered :
    (P : Prisma) (h : IsPrisma P) (env : Env) (e : CommandEnvelope DeleteMessageCommand) (w : World)
    → IsNumbered w.db
    → IsNumbered (after (handle_message_delete P env e w)).db
unfolding handle_message_delete
delete_any-IsNumbered P h env e w numbered =
    by_tables (λ P. IsNumbered (after (handle_message_delete P env e w)).db) h at_tables
  where
    unchanged :
        (after (handle_message_delete tables env e w)).db ≡ w.db
        → IsNumbered (after (handle_message_delete tables env e w)).db
    unchanged same = subst IsNumbered (sym same) numbered

    at_tables : IsNumbered (after (handle_message_delete tables env e w)).db
    at_tables = elim (Option-cases (truthy e.actor.user_id)) [
      | inl anonymous ↦ unchanged (ground arith)
      | inr (user_id, identified) ↦
          elim (Option-cases (find (λ m. m.id == e.payload.message_id) w.db.messages)) [
            | inl missing ↦ unchanged (ground arith)
            | inr (m, found) ↦
                delete-IsNumbered tables tables-IsPrisma env e w user_id m identified found numbered
          ]
    ]
