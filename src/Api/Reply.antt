-- ===== src/Api/Reply.antt =====
-- How an endpoint of apps/api ends, and the parts that its transactions share.
use mqtt_chat.Base.{
  ℕ, String, Option, none, some, Bool, true, false, List, [], ◌∷◌, ◌==◌, string_eq, if◌then◌else◌,
  find, ◌≡◌, refl, ◌⊎◌, inl, inr,
}
use Prim.Native.String
use mqtt_chat.Contracts.Envelope.{OriginType, EventEnvelope, build_event_envelope}
use mqtt_chat.Contracts.Events.{EventData, MemberSummary}
use mqtt_chat.Store.Rows.{Db, Member, Conversation, OutboxEvent}
use mqtt_chat.Store.Prisma.{Prisma}

-- The namespace, the clock, and what is random: the event's id and the ids of the new rows.
pub record Env : Type 0 where
  pub namespace : String
  pub now : ℕ
  pub uuid : String
  pub conversation_id : String
  pub outbox_id : String

pub data Status : Type 0 where
  bad_request not_found forbidden : Status

-- What an endpoint throws: an exception with a status, or one that the global filter answers with
-- 500: Prisma's P2002 and P2025, and an event that fails its schema.
pub data Raised : Type 0 where
  http : Status → String → String → Raised
  unique_violation : Raised
  record_not_found : Raised
  schema_error : Raised

-- A transaction, or a whole endpoint: what it throws rolls it back.
pub data Attempt (A : Type 0) : Type 0 where
  done : A → Attempt A
  raised : Raised → Attempt A

infixl 5 ◌>>=◌
abbrev pub ◌>>=◌ : {A B : Type 0} → Attempt A → (A → Attempt B) → Attempt B
done a >>= f = f a
raised e >>= f = raised e

pub Attempt-cases :
    {A : Type 0} (x : Attempt A) → ((a : A) × (x ≡ done a)) ⊎ ((e : Raised) × (x ≡ raised e))
Attempt-cases (done a) = inl (a, refl)
Attempt-cases (raised e) = inr (e, refl)

-- The database after an endpoint.
abbrev pub db_after : {A : Type 0} → Db → Attempt (A × Db) → Db
db_after db (done (a, db')) = db'
db_after db (raised e) = db

abbrev pub bad : {A : Type 0} → String → Attempt A
bad message = raised (http bad_request "BAD_REQUEST" message)

abbrev pub join : String → List String → String
join separator [] = ""
join separator (s ∷ []) = s
join separator (s ∷ t ∷ rest) =
    let others = join separator (t ∷ rest) in String.◌++◌ s (String.◌++◌ separator others)

abbrev pub includes : List String → String → Bool
includes [] x = false
includes (y ∷ ys) x = if y == x then true else includes ys x

-- The ids that no user has.
abbrev pub unknown_ids : List String → List String → List String
unknown_ids users [] = []
unknown_ids users (id ∷ ids) =
    let rest = unknown_ids users ids in if includes users id then rest else id ∷ rest

abbrev pub conversation_row : Prisma → Db → String → Option Conversation
conversation_row P db id = P.find_first Conversation (λ c. c.id == id) db.conversations

abbrev pub members_of : Prisma → Db → String → List Member
members_of P db id = P.find_many Member (λ m. m.conversation_id == id) db.members

-- `members.find((m) => m.userId === userId)`.
abbrev pub member_named : String → List Member → Option Member
member_named user_id members = find (λ m. m.user_id == user_id) members

abbrev pub summary_of : Member → MemberSummary
summary_of m = record {
  user_id = m.user_id;
  role = m.role;
  last_read_sequence = m.last_read_sequence;
}

-- `buildEventEnvelope` as the endpoints call it.
abbrev pub user_event : Env → String → String → String → EventData → EventEnvelope EventData
user_event env event_type user_id conversation_id payload =
    build_event_envelope env.uuid env.now (record {
      event_type = event_type;
      origin = record { type = OriginType.user; id = some user_id; rule_id = none };
      actor = some (record { user_id = some user_id; device_id = none; bot_id = none });
      conversation_id = some conversation_id;
      correlation_id = none;
      causation_id = none;
      payload = payload;
    })

abbrev pub conversation_outbox :
    Env → String → String → String → EventEnvelope EventData → OutboxEvent
conversation_outbox env event_type conversation_id topic event = record {
  id = env.outbox_id;
  event_type = event_type;
  aggregate_type = "Conversation";
  aggregate_id = conversation_id;
  payload = event;
  topic = topic;
  created_at = env.now;
  published_at = none;
  attempt_count = 0;
  last_error = none;
}

abbrev pub enqueue : Prisma → OutboxEvent → Db → Attempt Db
enqueue P row db = elim (P.create OutboxEvent (λ _. false) row db.outbox) [
  | none ↦ raised unique_violation
  | some outbox ↦ done (record db { outbox = outbox })
]
