-- ===== src/Bots/Sdk/Once.antt =====
-- How often a handler runs.
use mqtt_chat.Base.{
  ℕ, suc, ◌+◌, ◌≤◌, none, some, Bool, true, false, not, ◌&&◌, List, [], ◌∷◌, ◌++◌, ◌||◌, all,
  nat_eq, map, ltb, leb, ◌==◌, string_eq, if◌then◌else◌, ◌≡◌, refl, arith, Bool-cases, Option-cases,
  inl, inr,
}
use mqtt_chat.Contracts.Envelope.{EventEnvelope}
use mqtt_chat.Contracts.Events.{EventData, MessageEventData}
use mqtt_chat.Bots.Sdk.{
  Words, Bot, Context, Call, Script, ends, throws, next, Progress, play, dispatch,
  run_with_middleware, run_handlers, automation_depth, message_of, create_context, command_in,
  registered, handle_message, process_event, lookup, handlers_of, is_bot,
}

-- A call at position `i` of the chain: that position has been entered afterwards, and the handler was run once
-- at most, and not at all where the position was entered before.
abbrev IsBounded : ℕ → Progress → Progress → Type 0
IsBounded i s t =
    (s.entered ≤ t.entered)
    × (suc i ≤ t.entered)
    × (t.ran ≤ s.ran + (if ltb i s.entered then 0 else 1))
    × (s.ran ≤ t.ran)

play-bounded :
    (m : Script) (go : Progress → Bool × Progress) (i : ℕ) (s : Progress)
    → ((t : Progress) → IsBounded (suc i) t (go t).1)
    → (s.entered ≤ (play m go s).1.entered)
      × ((play m go s).1.ran ≤ s.ran + (if ltb (suc i) s.entered then 0 else 1))
      × (s.ran ≤ (play m go s).1.ran)
unfolding play
play-bounded ends go i s h = (omega arith, omega arith, omega arith)
play-bounded throws go i s h = (omega arith, omega arith, omega arith)
play-bounded (next k) go i s h =
    let r = go s in
    let (grows, entered, once, more) = h s in
    let (rest, idle, kept) = play-bounded (k r.0) go i r.1 h in
    (omega (arith, grows, rest), ground (arith, entered, once, idle), omega (arith, more, kept))

dispatch-IsBounded :
    (ends_well : Bool) (ms : List Script) (i : ℕ) (s : Progress)
    → IsBounded i s (dispatch ends_well ms i s).1
unfolding dispatch
dispatch-IsBounded ends_well [] i s = elim (Bool-cases (ltb i s.entered)) [
  | inl before ↦ rw before (omega arith, ground (arith, before), omega arith, omega arith)
  | inr fresh ↦ rw fresh (ground (arith, fresh), omega arith, omega arith, omega arith)
]
dispatch-IsBounded ends_well (m ∷ ms) i s = elim (Bool-cases (ltb i s.entered)) [
  | inl before ↦ rw before (omega arith, ground (arith, before), omega arith, omega arith)
  | inr fresh ↦
      let (grows, once, more) =
        play-bounded m (dispatch ends_well ms (suc i)) i (record s { entered = suc i })
          (dispatch-IsBounded ends_well ms (suc i)) in
      rw fresh (
        ground (arith, fresh, grows),
        omega (arith, grows),
        ground (arith, once),
        omega (arith, more),
      )
]

-- Whether a middleware calls `next` at all.
abbrev pub calls_next : Script → Bool
calls_next ends = false
calls_next throws = false
calls_next (next k) = true

dispatch-ran :
    (ends_well : Bool) (ms : List Script) (i : ℕ) (s : Progress)
    → s.entered ≤ i
    → (dispatch ends_well ms i s).1.ran ≡ s.ran + (if all calls_next ms then 1 else 0)
unfolding dispatch play
dispatch-ran ends_well [] i s le = ground arith
dispatch-ran ends_well (ends ∷ ms) i s le = ground arith
dispatch-ran ends_well (throws ∷ ms) i s le = ground arith
dispatch-ran ends_well (next k ∷ ms) i s le =
    let go = dispatch ends_well ms (suc i) in
    let s' : Progress = record s { entered = suc i } in
    let (grows, entered, once, more) = dispatch-IsBounded ends_well ms (suc i) s' in
    let (rest, idle, kept) =
      play-bounded (k (go s').0) go i (go s').1 (dispatch-IsBounded ends_well ms (suc i)) in
    ground (arith, dispatch-ran ends_well ms (suc i) s' (omega arith), entered, idle, kept)

abbrev pub reaches : List (Context → Script) → Context → Bool
reaches middlewares ctx = all (λ m. calls_next (m ctx)) middlewares

all-map :
    (ctx : Context) (ms : List (Context → Script))
    → all calls_next (map (λ m. m ctx) ms) ≡ reaches ms ctx
all-map ctx [] = refl
all-map ctx (m ∷ ms) = ground (arith, all-map ctx ms)

abbrev pub calls_of : Context → List (Context → Bool) → List Call
calls_of ctx handlers = map (λ handler. (handler, ctx)) handlers

-- One call of each handler, in order, if the middlewares let the context through.
abbrev pub reached : Bot → Context → List (Context → Bool) → List Call
reached bot ctx handlers = if reaches bot.middlewares ctx then calls_of ctx handlers else []

run-ran :
    (middlewares : List (Context → Script)) (handler : Context → Bool) (ctx : Context)
    → (run_with_middleware middlewares handler ctx).1.ran
      ≡ (if reaches middlewares ctx then 1 else 0)
unfolding run_with_middleware
run-ran middlewares handler ctx = ground (
  arith,
  dispatch-ran (handler ctx) (map (λ m. m ctx) middlewares) 0 (record { entered = 0; ran = 0 })
      (omega arith),
  all-map ctx middlewares,
)

run_handlers-calls :
    (bot : Bot) (handlers : List (Context → Bool)) (ctx : Context)
    → (run_handlers bot.middlewares handlers ctx).calls ≡ reached bot ctx handlers
unfolding run_handlers
run_handlers-calls bot [] ctx = ground arith
run_handlers-calls bot (handler ∷ handlers) ctx =
    let once = run-ran bot.middlewares handler ctx in
    let rest = run_handlers-calls bot handlers ctx in
    elim (Bool-cases (reaches bot.middlewares ctx)) [
      | inl passed ↦ ground (arith, passed, once, rest)
      | inr held ↦ ground (arith, held, once, rest)
    ]

-- Whether the guards of `processEvent` turn an event away.
abbrev pub refuses : Bot → EventEnvelope EventData → Bool
refuses bot envelope =
    (not bot.allow_bot_messages && is_bot envelope.origin)
    || leb bot.max_automation_depth (automation_depth envelope)

-- The handlers that are registered for the event alone, and for its message.
abbrev pub reached_specific : Bot → EventEnvelope EventData → List Call
reached_specific bot envelope =
    reached bot (create_context bot envelope none none)
      (handlers_of (lookup envelope.event_type bot.event_handlers))

abbrev pub reached_message : Words → Bot → EventEnvelope EventData → MessageEventData → List Call
reached_message W bot envelope m =
    let ctx = create_context bot envelope (some m) (command_in W m) in
    reached bot ctx (registered W bot (command_in W m)) ++ reached bot ctx bot.message_handlers

-- Whatever the middlewares do, a handler is called exactly once if each of them calls `next`, however often, and not
-- at all otherwise. So the calls that an event makes are, in order, one of each handler: of the command of its message
-- and of messages, if it is one, and then of its own kind, with the context of each, where the middlewares let
-- that context through; and there are none if the guards turn the event away, or if it should hold a message and
-- holds none.
pub handlers_once :
    (W : Words) (bot : Bot) (envelope : EventEnvelope EventData)
    → (process_event W bot envelope).calls ≡ (
        if refuses bot envelope
        then []
        else if envelope.event_type == "message.created"
        then (elim (message_of envelope.payload) [
          | none ↦ []
          | some m ↦ reached_message W bot envelope m ++ reached_specific bot envelope
        ])
        else reached_specific bot envelope)
unfolding process_event handle_message
handlers_once W bot envelope =
    let specific =
      run_handlers-calls bot (handlers_of (lookup envelope.event_type bot.event_handlers))
        (create_context bot envelope none none) in
    elim (Option-cases (message_of envelope.payload)) [
      | inl missing ↦ rw missing (grind (arith, specific))
      | inr (m, there) ↦
          let ctx = create_context bot envelope (some m) (command_in W m) in
          rw there (
            grind (
              arith,
              specific,
              run_handlers-calls bot (registered W bot (command_in W m)) ctx,
              run_handlers-calls bot bot.message_handlers ctx,
            ))
    ]
