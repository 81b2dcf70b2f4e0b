-- ===== src/Worker/Dispatch/Run.antt =====
-- A run of deliveries.
use mqtt_chat.Base.{
  suc, string_eq, Option, none, some, List, [], ◌∷◌, inl, inr, Option-cases, Bool-cases,
}
use mqtt_chat.Contracts.Envelope.{CommandEnvelope}
use mqtt_chat.Store.Prisma.{Prisma, IsPrisma, tables, tables-IsPrisma, by_tables}
use mqtt_chat.Store.Redis.{RedisClient}
use mqtt_chat.Worker.Context.{Env, World, Outcome, acked, thrown, after}
use mqtt_chat.Worker.Messages.Sequence.{IsNumbered}
use mqtt_chat.Worker.Messages.Delivery.{send-IsNumbered}
use mqtt_chat.Worker.Messages.Edit.Tombstone.{edit-IsNumbered}
use mqtt_chat.Worker.BotSend.Numbering.{bot-IsNumbered}
use mqtt_chat.Worker.Dispatch.{
  Schemas, CommandType, message_send, message_edit, message_delete, reaction_add, reaction_remove,
  receipt_read, receipt_delivered, presence_set, typing_set, bot_send, Lookup, own, inherited,
  undefined, command_schema, with_payload, parsed_by, handle, ChatWorker, type_error, resolved,
  rejected, world_after, worker_after, settle_handler, consume,
}
use mqtt_chat.Worker.Messages.Send.{handle_message_send}
use mqtt_chat.Worker.Messages.Edit.{handle_message_edit, handle_message_delete}
use mqtt_chat.Worker.Reactions.{handle_reaction_add, handle_reaction_remove}
use mqtt_chat.Worker.Receipts.{handle_receipt_read, handle_receipt_delivered}
use mqtt_chat.Worker.Presence.{handle_presence_set}
use mqtt_chat.Worker.Typing.{handle_typing_set}
use mqtt_chat.Worker.BotSend.{handle_bot_send}
use mqtt_chat.Worker.Dispatch.Frame.{
  typing-same, presence-same, add-same, remove-same, read-same, delivered-same, same-IsNumbered,
  delete_any-IsNumbered,
}

abbrev IsNumberedAfter : Option Outcome → Type 0
IsNumberedAfter none = Unit
IsNumberedAfter (some o) = IsNumbered (after o).db

parsed-IsNumbered :
    {A B : Type 0} (parse : A → Option B) (handler : CommandEnvelope B → Outcome)
    (e : CommandEnvelope A)
    → ((c : CommandEnvelope B) → IsNumbered (after (handler c)).db)
    → IsNumberedAfter (parsed_by parse handler e)
parsed-IsNumbered {A} {B} parse handler e h = by_result (parse e.payload)
  where
    by_result :
        (o : Option B)
        → IsNumberedAfter (elim o [ none ↦ none | some p ↦ some (handler (with_payload e p)) ])
    by_result none = tt
    by_result (some p) = h (with_payload e p)

module _ {Buffer Raw : Type 0} (S : Schemas Buffer Raw) (R : RedisClient) where
  handle-IsNumbered :
      (command : CommandType) (env : Env) (e : CommandEnvelope Raw) (w : World)
      → IsNumbered w.db
      → IsNumberedAfter (handle S tables R command env e w)
  unfolding handle
  handle-IsNumbered message_send env e w n =
      parsed-IsNumbered S.send_message (λ c. handle_message_send tables R env c w) e
        (λ c. send-IsNumbered tables tables-IsPrisma R env c w n)
  handle-IsNumbered message_edit env e w n =
      parsed-IsNumbered S.edit_message (λ c. handle_message_edit tables env c w) e
        (λ c. edit-IsNumbered tables tables-IsPrisma env c w n)
  handle-IsNumbered message_delete env e w n =
      parsed-IsNumbered S.delete_message (λ c. handle_message_delete tables env c w) e
        (λ c. delete_any-IsNumbered tables tables-IsPrisma env c w n)
  handle-IsNumbered reaction_add env e w n =
      parsed-IsNumbered S.add_reaction (λ c. handle_reaction_add tables env c w) e
        (λ c.
          same-IsNumbered w.db (after (handle_reaction_add tables env c w)).db (add-same env c w) n)
  handle-IsNumbered reaction_remove env e w n =
      parsed-IsNumbered S.remove_reaction (λ c. handle_reaction_remove tables env c w) e
        (λ c.
          same-IsNumbered w.db (after (handle_reaction_remove tables env c w)).db
            (remove-same env c w) n)
  handle-IsNumbered receipt_read env e w n =
      parsed-IsNumbered S.read_receipt (λ c. handle_receipt_read tables R env c w) e
        (λ c.
          same-IsNumbered w.db (after (handle_receipt_read tables R env c w)).db
            (read-same R env c w) n)
  handle-IsNumbered receipt_delivered env e w n =
      parsed-IsNumbered S.delivered_receipt (λ c. handle_receipt_delivered tables env c w) e
        (λ c.
          same-IsNumbered w.db (after (handle_receipt_delivered tables env c w)).db
            (delivered-same env c w) n)
  handle-IsNumbered presence_set env e w n =
      parsed-IsNumbered S.presence_set (λ c. handle_presence_set tables R env c w) e
        (λ c.
          same-IsNumbered w.db (after (handle_presence_set tables R env c w)).db
            (presence-same R env c w) n)
  handle-IsNumbered typing_set env e w n =
      parsed-IsNumbered S.typing_set (λ c. handle_typing_set tables R env c w) e
        (λ c.
          same-IsNumbered w.db (after (handle_typing_set tables R env c w)).db
            (typing-same R env c w) n)
  handle-IsNumbered bot_send env e w n =
      parsed-IsNumbered S.bot_send (λ c. handle_bot_send tables env c w) e
        (λ c. bot-IsNumbered tables tables-IsPrisma env c w n)

  settle-IsNumbered :
      (worker : ChatWorker) (o : Outcome)
      → IsNumbered (after o).db
      → IsNumbered (world_after (settle_handler worker o)).db
  unfolding settle_handler
  settle-IsNumbered worker (acked w) n = n
  settle-IsNumbered worker (thrown f w) n = n

  dispatched-IsNumbered :
      (worker : ChatWorker) (w : World) (o : Option Outcome)
      → IsNumbered w.db
      → IsNumberedAfter o
      → IsNumbered
          (world_after (elim o [
            | none ↦ resolved worker w
            | some outcome ↦
                settle_handler (record worker { processing = suc worker.processing }) outcome
          ])).db
  dispatched-IsNumbered worker w none n h = n
  dispatched-IsNumbered worker w (some o) n h =
      settle-IsNumbered (record worker { processing = suc worker.processing }) o h

  consume-IsNumbered :
      (env : Env) (payload : Buffer) (worker : ChatWorker) (w : World)
      → IsNumbered w.db
      → IsNumbered (world_after (consume S tables R env payload worker w)).db
  unfolding consume
  consume-IsNumbered env payload worker w n = elim (Bool-cases worker.stopped) [
    | inl stopped ↦ rw stopped n
    | inr running ↦ elim (Option-cases (S.parse_command_envelope payload)) [
      | inl malformed ↦ rw (running, malformed) n
      | inr (e, parsed) ↦ rw (running, parsed) (by_lookup (command_schema e.command_type) e)
    ]
  ]
    where
      by_lookup :
          (found : Lookup) (e : CommandEnvelope Raw)
          → IsNumbered
              (world_after (elim found [
                | undefined ↦ resolved worker w
                | inherited ↦ rejected type_error worker w
                | own command ↦ elim (handle S tables R command env e w) [
                  | none ↦ resolved worker w
                  | some outcome ↦
                      settle_handler (record worker { processing = suc worker.processing }) outcome
                ]
              ])).db
      by_lookup undefined e = n
      by_lookup inherited e = n
      by_lookup (own command) e =
          dispatched-IsNumbered worker w (handle S tables R command env e w) n
            (handle-IsNumbered command env e w n)

-- Deliveries one after the other, each with what the runtime supplies to it.
unfoldable pub run :
    {Buffer Raw : Type 0}
    → Schemas Buffer Raw
    → Prisma
    → RedisClient
    → List (Env × Buffer)
    → ChatWorker
    → World
    → ChatWorker × World
run S P R [] worker w = (worker, w)
run S P R ((env, payload) ∷ rest) worker w =
    let done = consume S P R env payload worker w in
    run S P R rest (worker_after done) (world_after done)

module _ {Buffer Raw : Type 0} (S : Schemas Buffer Raw) (R : RedisClient) where
  run-tables :
      (deliveries : List (Env × Buffer)) (worker : ChatWorker) (w : World)
      → IsNumbered w.db
      → IsNumbered (run S tables R deliveries worker w).1.db
  unfolding run
  run-tables [] worker w n = n
  run-tables ((env, payload) ∷ rest) worker w n =
      run-tables rest (worker_after (consume S tables R env payload worker w))
        (world_after (consume S tables R env payload worker w))
        (consume-IsNumbered S R env payload worker w n)

-- Whatever payloads a worker is delivered, in whatever order and however often, whether they are
-- malformed, refused or handled, the messages of every conversation stay numbered 1, 2, … with no
-- gap up to the conversation's last sequence, if they were so before.
pub run-IsNumbered :
    {Buffer Raw : Type 0} (S : Schemas Buffer Raw) (P : Prisma) (h : IsPrisma P) (R : RedisClient)
    (deliveries : List (Env × Buffer)) (worker : ChatWorker) (w : World)
    → IsNumbered w.db
    → IsNumbered (run S P R deliveries worker w).1.db
run-IsNumbered S P h R deliveries worker w numbered =
    by_tables (λ P. IsNumbered (run S P R deliveries worker w).1.db) h
      (run-tables S R deliveries worker w numbered)
