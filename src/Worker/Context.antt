-- ===== src/Worker/Context.antt =====
-- apps/chat-worker/src/context.ts: what a handler works on, and how it can end.
use mqtt_chat.Base.{ℕ, String, Option, none, some, Bool, List, ◌==◌, string_eq, ◌&&◌}
use mqtt_chat.Contracts.Envelope.{Actor, Origin, OriginType, EventEnvelope}
use mqtt_chat.Contracts.Events.{EventData}
use mqtt_chat.Store.Rows.{Db, Member, Conversation, Message, OutboxEvent}
use mqtt_chat.Store.Prisma.{Prisma}
use mqtt_chat.Store.Redis.{Redis}

-- What the runtime supplies to one call of a handler: the topic namespace, the clock, the random
-- event id, the ids of the rows that the database makes, and whether the broker takes a publish.
pub record Env : Type 0 where
  pub namespace : String
  pub now : ℕ
  pub uuid : String
  pub message_id : String
  pub outbox_id : String → String
  pub broker_accepts : Bool

pub record Publication : Type 0 where
  pub topic : String
  pub event : EventEnvelope EventData
  pub qos : ℕ

-- `sent` is what was given to the MQTT client directly, oldest first.
pub record World : Type 0 where
  pub db : Db
  pub redis : Redis
  pub sent : List Publication

pub data Failure : Type 0 where
  -- Prisma's P2002
  unique_violation : Failure
  -- "Conversation not found: …", thrown in a transaction
  conversation_not_found : Failure
  publish_failed : Failure

-- A handler resolves, and the command is acknowledged, or throws, and it is delivered again.
pub data Outcome : Type 0 where
  acked : World → Outcome
  thrown : Failure → World → Outcome

abbrev pub after : Outcome → World
after (acked w) = w
after (thrown f w) = w

-- A transaction commits a database and a result, or rolls back.
pub data Tx {ℓ} (A : Type ℓ) : Type ℓ where
  ok : A → Tx A
  fail : Failure → Tx A

infixl 5 ◌>>=◌
abbrev pub ◌>>=◌ {ℓ κ} : {A : Type ℓ} {B : Type κ} → Tx A → (A → Tx B) → Tx B
ok a >>= f = f a
fail e >>= f = fail e

abbrev pub or_fail {ℓ} : {A : Type ℓ} → Option A → Failure → Tx A
or_fail none e = fail e
or_fail (some a) e = ok a

abbrev pub find_member : Prisma → Db → String → String → Option Member
find_member P db conversation_id user_id =
    P.find_first Member (λ m. m.conversation_id == conversation_id && m.user_id == user_id)
      db.members

abbrev pub find_message : Prisma → Db → String → Option Message
find_message P db id = P.find_first Message (λ m. m.id == id) db.messages

abbrev pub find_conversation : Prisma → Db → String → Option Conversation
find_conversation P db id = P.find_first Conversation (λ c. c.id == id) db.conversations

abbrev pub is_some {ℓ} : {A : Type ℓ} → Option A → Bool
is_some none = Bool.false
is_some (some _) = Bool.true

-- `tx.outboxEvent.create`: its only unique key is the generated id.
abbrev pub create_outbox : Prisma → OutboxEvent → List OutboxEvent → Tx (List OutboxEvent)
create_outbox P row rows =
    or_fail (P.create OutboxEvent (λ _. Bool.false) row rows) unique_violation

abbrev pub outbox_row :
    Env → String → String → String → String → EventEnvelope EventData → OutboxEvent
outbox_row env event_type aggregate_type aggregate_id topic event = record {
  id = env.outbox_id aggregate_id;
  event_type = event_type;
  aggregate_type = aggregate_type;
  aggregate_id = aggregate_id;
  payload = event;
  topic = topic;
  created_at = env.now;
  published_at = none;
  attempt_count = 0;
  last_error = none;
}

abbrev pub user_origin : String → Origin
user_origin user_id = record { type = OriginType.user; id = some user_id; rule_id = none }

-- The actor of an event that a user's device caused.
abbrev pub user_actor : String → Option String → Option Actor
user_actor user_id device_id =
    some (record { user_id = some user_id; device_id = device_id; bot_id = none })
