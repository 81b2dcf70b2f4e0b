-- ===== src/Bots/Rules.antt =====
-- apps/bot-worker/src/rule-engine.ts. What the rules do to the outside is a list of effects, and what the
-- outside answers is an argument: whether it takes an effect, and what a request returns.
use mqtt_chat.Base.{
  ℕ, String, Option, none, some, Bool, true, false, ◌&&◌, List, ◌==◌, string_eq, nat_eq,
  if◌then◌else◌,
}
use Prim.Native.Char.{code}
use Prim.Native.String.{◌++◌ as ◌+++◌}
use mqtt_chat.Contracts.Envelope.{Actor, Origin, OriginType, EventEnvelope}
use mqtt_chat.Bots.Value.{
  Numbers, Value, undefined, null, string, array, object, Fields, empty, field, own_field,
}
use mqtt_chat.Bots.Conditions.{Condition, resolve_path}
use mqtt_chat.Bots.State.{BotRedis}

-- What the rules use of JavaScript's texts.
pub record Language : Type 1 where
  pub M : Numbers
  pub regex : String → String → Option Bool
  -- `String(v)`, where `v` is not null or undefined
  pub show : Value M.Number → String
  pub lower : String → String
  -- `content.trim().slice(1).split(/\s+/)`, which is never empty
  pub command_word : String → String
  -- each `{{ path }}` of a template replaced
  pub template : (String → String) → String → String

pub data Trigger : Type 0 where
  on_event on_command : String → Trigger

pub data ActionType : Type 0 where
  send_message reply reply_status reply_users reply_stats reply_room add_reaction : ActionType
  set_key delete_key increment delay schedule publish_event http_request : ActionType

pub record Action (N : Type 0) : Type 0 where
  pub type : ActionType
  pub content : Option String
  pub emoji : Option String
  pub key : Option String
  pub value : Value N
  pub counter : Option String
  pub ms : Option ℕ
  pub run_at_ms : Option ℕ
  pub payload : Option (Fields N)
  pub url : Option String

pub record LoadedRule (N : Type 0) : Type 0 where
  pub id : String
  pub name : String
  pub priority : ℕ
  pub trigger : Trigger
  pub conditions : List (Condition N)
  pub actions : List (Action N)

pub data Status : Type 0 where
  success failure : Status

pub data Effect (N : Type 0) : Type 0 where
  -- conversation, content, reply to, rule
  bot_command : String → String → Option String → String → Effect N
  -- conversation, message, emoji, rule
  reaction : String → String → String → String → Effect N
  -- bot, rule, conversation, when it runs, the action
  scheduled : String → String → String → ℕ → Action N → Effect N
  -- bot, payload
  bot_event : String → Fields N → Effect N
  -- url
  requested : String → Effect N
  -- bot, rule, action, status
  logged : String → String → ActionType → Status → Effect N

pub record World (N : Type 0) : Type 0 where
  pub redis : BotRedis N
  pub now : ℕ
  pub effects : List (Effect N)

pub record BotSettings : Type 0 where
  pub allow_bot_messages : Bool
  pub command_prefix : String

pub record BotRow (N : Type 0) : Type 0 where
  pub enabled : Bool
  pub settings : Fields N

-- The two maps of the engine.
pub record Engine (N : Type 0) : Type 0 where
  pub rules : List (String × List (LoadedRule N))
  pub settings_cache : List (String × BotSettings)

pub record Outside (N : Type 0) : Type 0 where
  -- whether the broker or the database takes what is sent to it
  pub takes : Effect N → Bool
  pub fetch : String → Option ℕ
  pub find_bot : String → Option (BotRow N)

abbrev pub given : Option String → Option String
given none = none
given (some s) = if s == "" then none else some s

abbrev pub or_text : Option String → String → String
or_text none t = t
or_text (some s) t = s

abbrev pub or_number : Option ℕ → ℕ → ℕ
or_number none n = n
or_number (some m) n = m

abbrev begins_with_slash : String → Bool
begins_with_slash String.[] = false
begins_with_slash (String.◌∷◌ c s) = code c == b'/'

module _ (L : Language) where
  abbrev pub N : Type 0
  N = L.M.Number

  abbrev pub V : Type 0
  V = Value N

  abbrev pub Event : Type 0
  Event = EventEnvelope V

  abbrev text : Option String → V
  text none = undefined
  text (some s) = string s

  abbrev read : V → String → V
  read (object fields) key = elim (own_field key fields) [ none ↦ undefined | some v ↦ v ]
  read _ key = undefined

  -- `String(v ?? otherwise)`.
  abbrev shown : V → String → String
  shown undefined otherwise = otherwise
  shown null otherwise = otherwise
  shown v otherwise = L.show v

  abbrev is_object : V → Bool
  is_object (object fields) = true
  is_object (array items) = true
  is_object _ = false

  abbrev pub is_created : Event → Bool
  is_created envelope = envelope.event_type == "message.created"

  unfoldable pub content_of : Event → String
  content_of envelope =
      if is_created envelope && is_object envelope.payload
      then shown (read envelope.payload "content") ""
      else ""

  abbrev pub actor_user : Event → Option String
  actor_user envelope = elim envelope.actor [ none ↦ none | some a ↦ a.user_id ]

  -- Whose session and cooldown it is: the actor, or the sender that the payload names.
  unfoldable pub sender_of : Event → String
  sender_of envelope =
      or_text (actor_user envelope)
        (if is_object envelope.payload then shown (read envelope.payload "senderId") "" else "")

  unfoldable pub session_key : Event → String
  unfolding sender_of
  session_key envelope =
      or_text envelope.conversation_id "global"
      +++ (":" +++ (or_text (given (some (sender_of envelope))) "system" +++ ":session"))

  -- `sessionScope`, by which an action finds the session.
  unfoldable pub session_scope : Event → String
  session_scope envelope =
      let sender = or_text (actor_user envelope) (
        if is_object envelope.payload
        then shown (read envelope.payload "senderId") "system"
        else "system") in
      or_text envelope.conversation_id "global" +++ (":" +++ (sender +++ ":session"))

  abbrev actor_value : Option Actor → V
  actor_value none = undefined
  actor_value (some a) = object (
      field "userId" (text a.user_id)
        (field "deviceId" (text a.device_id) (field "botId" (text a.bot_id) empty)))

  abbrev origin_type : OriginType → String
  origin_type OriginType.user = "user"
  origin_type OriginType.bot = "bot"
  origin_type OriginType.system = "system"

  abbrev origin_value : Origin → V
  origin_value o = object (
      field "type" (string (origin_type o.type))
        (field "id" (text o.id) (field "ruleId" (text o.rule_id) empty)))

  unfoldable pub context_of : Event → Fields N → V
  context_of envelope session = object (
      field "eventType" (string envelope.event_type) (
        field "conversationId" (text envelope.conversation_id) (
          field "actor" (actor_value envelope.actor) (
            field "origin" (origin_value envelope.origin)
              (field "data" envelope.payload (field "state" (object session) empty))))))

  abbrev pub starts_with_slash : Event → Bool
  starts_with_slash envelope = begins_with_slash (content_of envelope)

  -- The test of a trigger; the command of the message is parsed once for all rules of a bot.
  unfoldable pub triggers : Trigger → Event → Bool
  unfolding content_of
  triggers (on_command command) envelope =
      is_created envelope
      && (starts_with_slash envelope
          && L.lower (L.command_word (content_of envelope)) == L.lower command)
  triggers (on_event event_type) envelope = event_type == envelope.event_type

  abbrev text_in : V → Option String
  text_in (string s) = some s
  text_in _ = none

  -- `data.messageId`, a text if it is there.
  abbrev pub message_id_of : Event → Option String
  message_id_of envelope = text_in (read envelope.payload "messageId")

  abbrev printed : V → String
  printed undefined = ""
  printed null = ""
  printed v = L.show v

  unfoldable pub render : V → String → String
  unfolding resolve_path
  render context template =
      L.template (λ path. printed (resolve_path L.M L.regex context path)) template
