-- ===== src/Bots/Sdk.antt =====
-- `Bot` of packages/bot-sdk/src/bot.ts. The handlers and the middlewares of a bot are code of its author: of a
-- handler the model knows whether it ends well, and of a middleware how it calls `next`. What a handler sends
-- through its context goes to the transport, and is left out.
pub mod Once
use mqtt_chat.Base.{
  ℕ, zero, suc, ◌+◌, String, Option, none, some, Bool, true, false, not, ◌&&◌, ◌||◌, List, [], ◌∷◌,
  ◌++◌, map, any, ltb, leb, ◌==◌, string_eq, nat_eq, if◌then◌else◌,
}
use Prim.Native.Char.{code}
use Prim.Native.String.{◌++◌ as ◌+++◌}
use mqtt_chat.Contracts.Envelope.{Origin, OriginType, EventEnvelope}
use mqtt_chat.Contracts.Events.{EventData, message_created, MessageEventData}

-- What the parser of commands uses of JavaScript's texts.
pub record Words : Type 0 where
  -- `content.trim().slice(1).split(/\s+/)`: its first word, which is always there, and the others
  pub split : String → String × List String
  pub lower : String → String

pub record Command : Type 0 where
  pub command : String
  pub args : List String

pub record Context : Type 0 where
  pub event : EventEnvelope EventData
  pub message : Option MessageEventData
  pub presence : Option EventData
  pub bot_id : String
  pub args : List String
  pub parsed_command : Option Command
  -- the prefix of the keys of `getState` and its like
  pub scope_key : String

-- One call of a middleware: it ends, it throws, or it awaits `next` and goes on, knowing whether that
-- ended well.
pub data Script : Type 0 where
  ends throws : Script
  next : (Bool → Script) → Script

pub record Bot : Type 0 where
  pub id : String
  pub allow_bot_messages : Bool
  pub max_automation_depth : ℕ
  pub command_handlers : List (String × (Context → Bool))
  pub message_handlers : List (Context → Bool)
  pub event_handlers : List (String × List (Context → Bool))
  pub middlewares : List (Context → Script)

abbrev pub lookup : {A : Type 0} → String → List (String × A) → Option A
lookup key [] = none
lookup key ((k, a) ∷ rest) = if k == key then some a else lookup key rest

abbrev pub assign : {A : Type 0} → String → A → List (String × A) → List (String × A)
assign key a [] = (key, a) ∷ []
assign key a ((k, b) ∷ rest) =
    let kept = assign key a rest in if k == key then (k, a) ∷ rest else (k, b) ∷ kept

abbrev pub handlers_of : Option (List (Context → Bool)) → List (Context → Bool)
handlers_of none = []
handlers_of (some handlers) = handlers

-- `use`.
unfoldable pub use_middleware : (Context → Script) → Bot → Bot
use_middleware m bot = record bot { middlewares = bot.middlewares ++ m ∷ [] }

unfoldable pub on : String → (Context → Bool) → Bot → Bot
on event_type handler bot = record bot {
  event_handlers =
      assign event_type (handlers_of (lookup event_type bot.event_handlers) ++ handler ∷ [])
        bot.event_handlers;
}

unfoldable pub on_message : (Context → Bool) → Bot → Bot
on_message handler bot = record bot { message_handlers = bot.message_handlers ++ handler ∷ [] }

-- How far the chain of an event has come: `index` of the source is one less than `entered`.
pub record Progress : Type 0 where
  pub entered : ℕ
  -- how often the handler was called
  pub ran : ℕ

unfoldable pub play : Script → (Progress → Bool × Progress) → Progress → Bool × Progress
play ends go s = (true, s)
play throws go s = (false, s)
play (next k) go s = let r = go s in play (k r.0) go r.1

abbrev pub enter : ℕ → (Progress → Bool × Progress) → Progress → Bool × Progress
enter i body s = if ltb i s.entered then (false, s) else body (record s { entered = suc i })

-- `dispatch(i)`, with the middlewares from `i` on; whether it ends without throwing.
unfoldable pub dispatch : Bool → List Script → ℕ → Progress → Bool × Progress
unfolding play
dispatch ends_well [] i s = enter i (λ t. (ends_well, record t { ran = suc t.ran })) s
dispatch ends_well (m ∷ ms) i s = enter i (play m (dispatch ends_well ms (suc i))) s

unfoldable pub run_with_middleware :
    List (Context → Script) → (Context → Bool) → Context → Bool × Progress
unfolding dispatch
run_with_middleware middlewares handler ctx =
    dispatch (handler ctx) (map (λ m. m ctx) middlewares) 0 (record { entered = 0; ran = 0 })

-- A call of a handler.
abbrev pub Call : Type 0
Call = (Context → Bool) × Context

abbrev pub repeat : ℕ → Call → List Call
repeat zero call = []
repeat (suc n) call = call ∷ repeat n call

-- What `processEvent` returns, or that it threw, and the calls of handlers that it made, in order.
pub record Handled : Type 0 where
  pub threw : Bool
  pub handled : ℕ
  pub calls : List Call

abbrev pub nothing : Handled
nothing = record { threw = false; handled = 0; calls = [] }

abbrev pub both : Handled → Handled → Handled
both a b = record {
  threw = a.threw || b.threw;
  handled = a.handled + b.handled;
  calls = a.calls ++ b.calls;
}

-- A handler or a middleware that throws is logged, and the next one goes on.
unfoldable pub run_handlers : List (Context → Script) → List (Context → Bool) → Context → Handled
unfolding run_with_middleware
run_handlers middlewares [] ctx = nothing
run_handlers middlewares (handler ∷ handlers) ctx =
    let r = run_with_middleware middlewares handler ctx in
    both
      (record {
        threw = false;
        handled = if r.0 then 1 else 0;
        calls = repeat r.1.ran (handler, ctx);
      })
      (run_handlers middlewares handlers ctx)

abbrev is_bot : Origin → Bool
is_bot o = elim o.type [ OriginType.bot ↦ true | _ ↦ false ]

unfoldable pub automation_depth : EventEnvelope EventData → ℕ
automation_depth envelope = if is_bot envelope.origin then 1 else 0

abbrev pub message_of : EventData → Option MessageEventData
message_of (message_created m) = some m
message_of _ = none

abbrev sender_of : EventEnvelope EventData → String
sender_of envelope =
    let sender : Option String = elim envelope.actor [ none ↦ none | some a ↦ a.user_id ] in
    elim sender [
      | some s ↦ s
      | none ↦ elim (message_of envelope.payload) [ none ↦ "system" | some m ↦ m.sender_id ]
    ]

abbrev or_global : Option String → String
or_global none = "global"
or_global (some s) = s

abbrev args_of : Option Command → List String
args_of none = []
args_of (some c) = c.args

unfoldable pub create_context :
    Bot → EventEnvelope EventData → Option MessageEventData → Option Command → Context
create_context bot envelope message parsed = record {
  event = envelope;
  message = message;
  presence =
      if envelope.event_type == "presence.online" || envelope.event_type == "presence.offline"
      then some envelope.payload
      else none;
  bot_id = bot.id;
  args = args_of parsed;
  parsed_command = parsed;
  scope_key = or_global envelope.conversation_id +++ (":" +++ sender_of envelope);
}

abbrev begins_with_slash : String → Bool
begins_with_slash String.[] = false
begins_with_slash (String.◌∷◌ c s) = code c == b'/'

module _ (W : Words) where
  -- `command`: a name that is taken gets the new handler.
  unfoldable pub register_command : String → (Context → Bool) → Bot → Bot
  register_command name handler bot = record bot {
    command_handlers = assign (W.lower name) handler bot.command_handlers;
  }

  unfoldable pub parse_simple_command : String → Option Command
  parse_simple_command content =
      let (command, args) = W.split content in
      if command == "" then none else some (record { command = W.lower command; args = args })

  abbrev pub command_in : MessageEventData → Option Command
  unfolding parse_simple_command
  command_in m = if begins_with_slash m.content then parse_simple_command m.content else none

  -- The handler that is registered for the command of a message, if there is one.
  abbrev pub registered : Bot → Option Command → List (Context → Bool)
  registered bot none = []
  registered bot (some c) = elim (lookup c.command bot.command_handlers) [
    | none ↦ []
    | some handler ↦ handler ∷ []
  ]

  unfoldable pub handle_message : Bot → EventEnvelope EventData → MessageEventData → Handled
  unfolding parse_simple_command run_handlers create_context
  handle_message bot envelope m =
      let parsed = command_in m in
      let ctx = create_context bot envelope (some m) parsed in
      both (run_handlers bot.middlewares (registered bot parsed) ctx)
        (run_handlers bot.middlewares bot.message_handlers ctx)

  -- `processEvent`: a message event without a message in it throws.
  unfoldable pub process_event : Bot → EventEnvelope EventData → Handled
  unfolding handle_message automation_depth run_handlers create_context
  process_event bot envelope =
      let specific =
        run_handlers bot.middlewares (handlers_of (lookup envelope.event_type bot.event_handlers))
          (create_context bot envelope none none) in
      if not bot.allow_bot_messages && is_bot envelope.origin
      then nothing
      else if leb bot.max_automation_depth (automation_depth envelope)
      then nothing
      else if envelope.event_type == "message.created"
      then (elim (message_of envelope.payload) [
        | none ↦ record { threw = true; handled = 0; calls = [] }
        | some m ↦ both (handle_message bot envelope m) specific
      ])
      else specific
