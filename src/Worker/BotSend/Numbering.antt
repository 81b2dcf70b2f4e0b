-- ===== src/Worker/BotSend/Numbering.antt =====
-- The database after `handleBotSend`.
use mqtt_chat.Base.{
  suc, String, true, false, [], ◌∷◌, ◌++◌, ◌==◌, string_eq, nat_eq, find, any, ◌≡◌, refl, sym, ap,
  ◌∙◌, subst, ◌⊎◌, inl, inr, arith, Option-cases, Bool-cases, any_never,
}
use mqtt_chat.Contracts.Envelope.{CommandEnvelope}
use mqtt_chat.Contracts.Commands.{BotSendCommand}
use mqtt_chat.Store.Rows.{Db, Message}
use mqtt_chat.Store.Prisma.{Prisma, IsPrisma, tables, by_tables}
use mqtt_chat.Worker.Context.{
  Env, World, Failure, unique_violation, conversation_not_found, publish_failed, after, ok, fail,
}
use mqtt_chat.Worker.Messages.Send.{message_clash, next_sequence}
use mqtt_chat.Worker.Messages.Sequence.{
  IsNumbered, last_of, advanced, find-advanced, concat-IsNumbered,
}
use mqtt_chat.Worker.BotSend.{
  bot_message, bot_row, bot_may_send, store_bot_message, bot_outcome, handle_bot_send,
}

module _ (env : Env) (envelope : CommandEnvelope BotSendCommand) (db : Db) where
  abbrev k : String
  k = envelope.payload.conversation_id

  abbrev pub bot_stored : Message
  bot_stored = bot_message env envelope.payload (suc (last_of k db.conversations))

  abbrev pub bot_db : Db
  bot_db = record db {
    conversations = advanced env.now k db.conversations;
    messages = db.messages ++ bot_stored ∷ [];
    outbox = db.outbox ++ bot_row env envelope bot_stored ∷ [];
  }

  store_bot_message-cases :
      (store_bot_message tables env envelope db ≡ ok bot_db)
        × (last_of k (advanced env.now k db.conversations) ≡ suc (last_of k db.conversations))
        × (any (message_clash bot_stored) db.messages ≡ false)
      ⊎ ((f : Failure) × (store_bot_message tables env envelope db ≡ fail f))
  unfolding store_bot_message
  store_bot_message-cases =
      elim (Option-cases (find (λ c. c.id == k) (advanced env.now k db.conversations))) [
        | inl missing ↦ inr (conversation_not_found, rw (missing, next_sequence))
        | inr (c, found) ↦
            let e = find-advanced env.now k db.conversations c found in
            elim (Bool-cases (
              any (message_clash (bot_message env envelope.payload c.last_sequence)) db.messages)) [
                | inl clash ↦ inr (unique_violation, rw (found, next_sequence, clash))
                | inr free ↦ inl (
                  ground (arith, found, free, e, any_never db.outbox),
                  rw found e,
                  subst
                      (λ n.
                        any (message_clash (bot_message env envelope.payload n)) db.messages
                        ≡ false)
                      e free,
                )
              ]
      ]

module _ (env : Env) (envelope : CommandEnvelope BotSendCommand) (w : World) where
  -- The one way in which a bot's command changes the database.
  pub record IsBotStored (P : Prisma) (new : Db) : Type 0 where
    pub allowed : bot_may_send P w.db envelope.payload ≡ true
    pub stored : new ≡ bot_db env envelope w.db
    pub grown :
        last_of envelope.payload.conversation_id new.conversations
        ≡ suc (last_of envelope.payload.conversation_id w.db.conversations)
    pub fresh : any (message_clash (bot_stored env envelope w.db)) w.db.messages ≡ false

  bot_outcome-fail : (f : Failure) → (after (bot_outcome tables w (fail f))).db ≡ w.db
  unfolding bot_outcome
  bot_outcome-fail unique_violation = refl
  bot_outcome-fail conversation_not_found = refl
  bot_outcome-fail publish_failed = refl

  abbrev bot_world : World
  bot_world = after (handle_bot_send tables env envelope w)

  bot_world-cases : (bot_world.db ≡ w.db) ⊎ IsBotStored tables bot_world.db
  unfolding handle_bot_send bot_outcome
  bot_world-cases = elim (Bool-cases (bot_may_send tables w.db envelope.payload)) [
    | inr refused ↦ inl (ground arith)
    | inl allowed ↦ elim (store_bot_message-cases env envelope w.db) [
      | inr (f, failed) ↦ inl (ground (arith, bot_outcome-fail f))
      | inl (stored, grown, fresh) ↦
          let e : bot_world.db ≡ bot_db env envelope w.db = ground arith in
          inr (record {
            allowed = allowed;
            stored = e;
            grown = ap (λ db. last_of envelope.payload.conversation_id db.conversations) e ∙ grown;
            fresh = fresh;
          })
    ]
  ]

-- After any command of a bot, whatever its outcome, the messages of every conversation are still
-- numbered 1, 2, … with no gap up to the conversation's last sequence, if they were so before.
pub bot-IsNumbered :
    (P : Prisma) (h : IsPrisma P) (env : Env) (envelope : CommandEnvelope BotSendCommand)
    (w : World)
    → IsNumbered w.db
    → IsNumbered (after (handle_bot_send P env envelope w)).db
bot-IsNumbered P h env envelope w numbered =
    by_tables (λ P. IsNumbered (after (handle_bot_send P env envelope w)).db) h
      (elim (bot_world-cases env envelope w) [
        | inl same ↦ subst IsNumbered (sym same) numbered
        | inr c ↦ subst IsNumbered (sym c.stored) (
            concat-IsNumbered env.now (bot_stored env envelope w.db) w.db
              envelope.payload.conversation_id refl refl
              (sym (ap (λ db. last_of envelope.payload.conversation_id db.conversations) c.stored)
                ∙ c.grown)
              numbered)
      ])

-- A bot's command leaves the database as it was, or the bot is allowed to send, no stored message
-- has the command's client message id or sequence, and exactly its message and the event of that
-- message are added, with the conversation's sequence advanced by one.
pub bot_atomic :
    (P : Prisma) (h : IsPrisma P) (env : Env) (envelope : CommandEnvelope BotSendCommand)
    (w : World)
    → let db = (after (handle_bot_send P env envelope w)).db in
      (db ≡ w.db) ⊎ IsBotStored env envelope w P db
bot_atomic P h env envelope w =
    by_tables
      (λ P.
        ((after (handle_bot_send P env envelope w)).db ≡ w.db)
        ⊎ IsBotStored env envelope w P (after (handle_bot_send P env envelope w)).db)
      h (bot_world-cases env envelope w)
