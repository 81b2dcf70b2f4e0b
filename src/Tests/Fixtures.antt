-- ===== src/Tests/Fixtures.antt =====
-- A small database: Alice, who is an admin, and Bob in a group with one message, and their DIRECT
-- conversation.
use mqtt_chat.Base.{
  ℕ, String, Option, none, some, true, false, [], ◌∷◌, ◌≡◌, ◌≢◌, ◌==◌, string_eq, arith,
}
use mqtt_chat.Contracts.Envelope.{CommandEnvelope}
use mqtt_chat.Contracts.Commands.{MessageType, SendMessageCommand}
use mqtt_chat.Contracts.Events.{MemberRole, ConversationType, SenderType}
use mqtt_chat.Store.Rows.{Db, Conversation, Member, Message}
use mqtt_chat.Store.Redis.{Redis}
use mqtt_chat.Worker.Context.{Env, World}
use mqtt_chat.Worker.Messages.Sequence.{IsNumbered}

abbrev pub env : Env
env = record {
  namespace = "chat/v1";
  now = 100;
  uuid = "e-1";
  message_id = "m2";
  outbox_id = λ id. id;
  broker_accepts = true;
}

abbrev pub conversation : String → ConversationType → ℕ → Option String → Conversation
conversation id type last key = record {
  id = id;
  type = type;
  direct_pair_key = key;
  title = none;
  created_by = "alice";
  last_sequence = last;
  created_at = 1;
  updated_at = 1;
  deleted_at = none;
  deleted_by = none;
}

abbrev pub group : Conversation
group = conversation "g" ConversationType.group 1 none

abbrev pub direct : Conversation
direct = conversation "d" ConversationType.direct 0 (some "alice:bob")

abbrev pub member : String → String → MemberRole → Member
member conversation_id user_id role = record {
  conversation_id = conversation_id;
  user_id = user_id;
  role = role;
  last_read_sequence = 0;
  last_delivered_sequence = 0;
  joined_at = 1;
}

abbrev pub alice : Member
alice = member "g" "alice" MemberRole.admin

abbrev pub bob : Member
bob = member "g" "bob" MemberRole.member

abbrev pub hello : Message
hello = record {
  id = "m1";
  client_message_id = "k1";
  conversation_id = "g";
  sender_id = "alice";
  sender_type = SenderType.user;
  sequence = 1;
  type = MessageType.text;
  content = "hello";
  reply_to_id = none;
  metadata = none;
  created_at = 50;
  edited_at = none;
  deleted_at = none;
}

abbrev pub db : Db
db = record {
  users = "alice" ∷ "bob" ∷ "carol" ∷ [];
  conversations = group ∷ direct ∷ [];
  members =
      alice
      ∷ bob
      ∷ member "g" "bot" MemberRole.member
      ∷ member "d" "alice" MemberRole.member
      ∷ member "d" "bob" MemberRole.member
      ∷ [];
  messages = hello ∷ [];
  reactions = [];
  outbox = [];
  bots = record { id = "bot"; enabled = true } ∷ [];
  devices = [];
}

abbrev pub redis : Redis
redis = record {
  presence_user = λ user_id. [];
  presence_last_seen = λ user_id. none;
  connection = λ user_id device_id. none;
  activity = λ user_id. none;
  typing = λ conversation_id user_id. none;
  unread = λ user_id conversation_id. none;
}

abbrev pub world : World
world = record { db = db; redis = redis; sent = [] }

-- A command of a user's phone.
abbrev pub command : {T : Type 0} → String → String → T → CommandEnvelope T
command type user_id payload = record {
  request_id = "r-1";
  command_type = type;
  version = 1;
  timestamp = 90;
  actor = record { user_id = some user_id; device_id = some "phone"; bot_id = none };
  client_message_id = none;
  correlation_id = none;
  causation_id = none;
  payload = payload;
}

abbrev pub send_command : String → String → CommandEnvelope SendMessageCommand
send_command user_id client_message_id = command "message.send" user_id (record {
  conversation_id = "g";
  client_message_id = client_message_id;
  type = MessageType.text;
  content = "hi";
  reply_to_id = none;
  metadata = none;
})

pub db-IsNumbered : IsNumbered db
db-IsNumbered k = ground arith

-- Two texts that the test tells apart.
pub apart : (s t : String) → (s == t) ≡ false → s ≢ t
apart s t e = ground arith
