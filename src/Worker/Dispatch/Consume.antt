-- ===== src/Worker/Dispatch/Consume.antt =====
-- One delivery of a command.
use mqtt_chat.Base.{suc, string_eq, none, some, false, if◌then◌else◌, ◌≡◌, ◌⊎◌, inl, inr, arith}
use mqtt_chat.Contracts.Envelope.{CommandEnvelope}
use mqtt_chat.Store.Prisma.{Prisma}
use mqtt_chat.Store.Redis.{RedisClient}
use mqtt_chat.Worker.Context.{Env, World}
use mqtt_chat.Worker.Dispatch.{
  Schemas, CommandType, own, undefined, command_schema, handle, ChatWorker, resolved, world_after,
  worker_after, settle_handler, consume,
}

-- The ways in which a payload is not handled.
abbrev pub IsUnhandled :
    {Buffer Raw : Type 0}
    → Schemas Buffer Raw
    → Prisma
    → RedisClient
    → Env
    → Buffer
    → World
    → Type 0
IsUnhandled {Raw = Raw} S P R env payload w =
    (S.parse_command_envelope payload ≡ none)
    ⊎ ((e : CommandEnvelope Raw) × (S.parse_command_envelope payload ≡ some e)
        × (command_schema e.command_type ≡ undefined))
    ⊎ ((e : CommandEnvelope Raw) × (command : CommandType) × (S.parse_command_envelope payload
          ≡ some e)
        × (command_schema e.command_type ≡ own command)
        × (handle S P R command env e w ≡ none))

-- A running worker acknowledges a payload that does not parse, or has an unknown command type, or
-- fails the schema of its command, and changes nothing: it is dropped, never delivered again.
pub consume_drops :
    {Buffer Raw : Type 0} (S : Schemas Buffer Raw) (P : Prisma) (R : RedisClient) (env : Env)
    (payload : Buffer) (worker : ChatWorker) (w : World)
    → worker.stopped ≡ false
    → IsUnhandled S P R env payload w
    → consume S P R env payload worker w ≡ resolved worker w
unfolding consume
consume_drops S P R env payload worker w running (inl malformed) = ground arith
consume_drops S P R env payload worker w running (inr (inl (e, parsed, unknown))) = ground arith
consume_drops S P R env payload worker w running (inr (inr (e, command, parsed, known, invalid))) =
    ground arith

-- A delivery leaves the number of commands in work and the stopped flag as they were, whether a
-- handler ends or throws. A worker that is stopping counts the delivery as refused and leaves the
-- world as it was; a running one does not count it.
pub consume_counts :
    {Buffer Raw : Type 0} (S : Schemas Buffer Raw) (P : Prisma) (R : RedisClient) (env : Env)
    (payload : Buffer) (worker : ChatWorker) (w : World)
    → let done = consume S P R env payload worker w in
      ((worker_after done).processing ≡ worker.processing)
      × ((worker_after done).stopped ≡ worker.stopped)
      × ((worker_after done).nacked_on_stop
          ≡ (if worker.stopped then suc worker.nacked_on_stop else worker.nacked_on_stop))
      × ((if worker.stopped then world_after done else w) ≡ w)
unfolding consume settle_handler
consume_counts S P R env payload worker w = (ground arith, ground arith, ground arith, ground arith)
