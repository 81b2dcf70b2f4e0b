-- ===== src/Contracts/Envelope.antt =====
-- packages/mqtt-contracts/src/envelope.ts, and `buildEventEnvelope` of index.ts. A date is its
-- number of milliseconds; what the source spells as an ISO text is that number here.
use mqtt_chat.Base.{ℕ, String, Option, none, some, if◌then◌else◌, ◌==◌, string_eq}

pub record Actor : Type 0 where
  pub user_id : Option String
  pub device_id : Option String
  pub bot_id : Option String

pub data OriginType : Type 0 where
  user bot system : OriginType

pub record Origin : Type 0 where
  pub type : OriginType
  pub id : Option String
  pub rule_id : Option String

pub record CommandEnvelope (T : Type 0) : Type 0 where
  pub request_id : String
  pub command_type : String
  pub version : ℕ
  pub timestamp : ℕ
  pub actor : Actor
  pub client_message_id : Option String
  pub correlation_id : Option String
  pub causation_id : Option String
  pub payload : T

pub record EventEnvelope (T : Type 0) : Type 0 where
  pub event_id : String
  pub event_type : String
  pub version : ℕ
  pub timestamp : ℕ
  pub actor : Option Actor
  pub conversation_id : Option String
  pub origin : Origin
  pub correlation_id : Option String
  pub causation_id : Option String
  pub payload : T

-- JavaScript's test of a text that may be missing: `undefined`, `null` and "" are false.
abbrev pub truthy : Option String → Option String
truthy none = none
truthy (some s) = if s == "" then none else some s

-- The arguments of `buildEventEnvelope`.
pub record EventParams (T : Type 0) : Type 0 where
  pub event_type : String
  pub origin : Origin
  pub actor : Option Actor
  pub conversation_id : Option String
  pub correlation_id : Option String
  pub causation_id : Option String
  pub payload : T

-- `crypto.randomUUID()` and the clock are arguments.
unfoldable pub build_event_envelope : {T : Type 0} → String → ℕ → EventParams T → EventEnvelope T
build_event_envelope uuid now params = record {
  event_id = uuid;
  event_type = params.event_type;
  version = 1;
  timestamp = now;
  actor = params.actor;
  conversation_id = truthy params.conversation_id;
  origin = params.origin;
  correlation_id = truthy params.correlation_id;
  causation_id = truthy params.causation_id;
  payload = params.payload;
}
