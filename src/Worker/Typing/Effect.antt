-- ===== src/Worker/Typing/Effect.antt =====
-- What a typing command does to the keys and to the topic.
use mqtt_chat.Base.{
  ℕ, String, Option, none, some, Bool, false, ◌&&◌, List, [], ◌∷◌, ◌++◌, ◌==◌, string_eq,
  if◌then◌else◌, ◌+◌, ◌≡◌, arith,
}
use mqtt_chat.Contracts.Envelope.{CommandEnvelope, truthy}
use mqtt_chat.Contracts.Commands.{TypingSetCommand}
use mqtt_chat.Store.Rows.{Db}
use mqtt_chat.Store.Prisma.{Prisma, IsPrisma, tables, by_tables}
use mqtt_chat.Store.Redis.{RedisClient, IsRedis, cells, by_cells, set_typing}
use mqtt_chat.Worker.Context.{Env, World, Publication, after, find_member, is_some}
use mqtt_chat.Worker.Typing.{typing_publication, handle_typing_set}

-- The user of a command, if it is a member of the conversation.
abbrev pub typist : Prisma → Db → CommandEnvelope TypingSetCommand → Option String
typist P db envelope = elim (truthy envelope.actor.user_id) [
  | none ↦ none
  | some user_id ↦
      if is_some (find_member P db envelope.payload.conversation_id user_id)
      then some user_id
      else none
]

abbrev pub types_as : Prisma → Db → CommandEnvelope TypingSetCommand → String → String → Bool
types_as P db envelope conversation_id user_id = elim (typist P db envelope) [
  | none ↦ false
  | some u ↦ conversation_id == envelope.payload.conversation_id && user_id == u
]

abbrev pub sent_after : Prisma → Env → CommandEnvelope TypingSetCommand → World → List Publication
sent_after P env envelope w = elim (typist P w.db envelope) [
  | none ↦ w.sent
  | some u ↦ if env.broker_accepts then w.sent ++ typing_publication env envelope u ∷ [] else w.sent
]

-- The key of a user in a conversation, after the command.
abbrev pub key_after :
    Prisma → Env → CommandEnvelope TypingSetCommand → World → String → String → Option ℕ
key_after P env envelope w j u =
    if types_as P w.db envelope j u
    then (if envelope.payload.is_typing then some (env.now + 8000) else none)
    else w.redis.typing j u

typing-cells :
    (env : Env) (envelope : CommandEnvelope TypingSetCommand) (w : World) (j u : String)
    → let w' = after (handle_typing_set tables cells env envelope w) in
      (w'.db ≡ w.db)
      × (w'.redis.typing j u ≡ key_after tables env envelope w j u)
      × (w'.sent ≡ sent_after tables env envelope w)
unfolding handle_typing_set set_typing
typing-cells env envelope w j u = (ground arith, ground arith, ground arith)

-- A typing command changes no row. If its user is a member of the conversation, it sets that user's key
-- there to expire in 8 seconds, or deletes it, and publishes one event if the broker takes it; it
-- changes no other key, and does nothing at all for a user who is no member.
pub typing_effect :
    (P : Prisma) (h : IsPrisma P) (R : RedisClient) (s : IsRedis R) (env : Env)
    (envelope : CommandEnvelope TypingSetCommand) (w : World) (j u : String)
    → let w' = after (handle_typing_set P R env envelope w) in
      (w'.db ≡ w.db)
      × (w'.redis.typing j u ≡ key_after P env envelope w j u)
      × (w'.sent ≡ sent_after P env envelope w)
typing_effect P h R s env envelope w j u =
    by_tables
      (λ P.
        ((after (handle_typing_set P R env envelope w)).db ≡ w.db)
        × ((after (handle_typing_set P R env envelope w)).redis.typing j u
            ≡ key_after P env envelope w j u)
        × ((after (handle_typing_set P R env envelope w)).sent ≡ sent_after P env envelope w))
      h
      (by_cells
        (λ R.
          ((after (handle_typing_set tables R env envelope w)).db ≡ w.db)
          × ((after (handle_typing_set tables R env envelope w)).redis.typing j u
              ≡ key_after tables env envelope w j u)
          × ((after (handle_typing_set tables R env envelope w)).sent
              ≡ sent_after tables env envelope w))
        s (typing-cells env envelope w j u))
