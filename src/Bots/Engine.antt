-- ===== src/Bots/Engine.antt =====
-- `RuleEngine` of apps/bot-worker/src/rule-engine.ts: its actions.
use mqtt_chat.Base.{
  ◌+◌, min, String, Option, none, some, Bool, true, false, ◌&&◌, List, [], ◌∷◌, ◌++◌, string_eq,
  if◌then◌else◌,
}
use mqtt_chat.Bots.Value.{Value, null, Fields, empty, set_field, without_field}
use mqtt_chat.Bots.State.{BotRedis, get_state, set_state, increment_counter}
use mqtt_chat.Bots.Rules.{
  Language, Outside, World, Action, ActionType, Effect, bot_command, reaction, scheduled, bot_event,
  requested, logged, Status, success, failure, given, or_text, or_number, session_scope,
  message_id_of, render, Event, V,
}

module _ (L : Language) (O : Outside L.M.Number) where
  abbrev pub N : Type 0
  N = L.M.Number

  abbrev pub put : Effect N → World N → World N
  put e w = record w { effects = w.effects ++ e ∷ [] }

  -- `logExecution`: a write that fails is ignored.
  unfoldable pub log_execution : String → String → ActionType → Status → World N → World N
  log_execution bot_id rule_id type status w =
      if O.takes (logged bot_id rule_id type status)
      then put (logged bot_id rule_id type status) w
      else w

  -- An effect that the broker or the database may refuse: then the action throws.
  abbrev attempt : Effect N → World N → Bool × World N
  attempt e w = if O.takes e then (true, put e w) else (false, w)

  abbrev pub with_redis : BotRedis N → World N → World N
  with_redis r w = record w { redis = r }

  -- Whether an action is logged at its end.
  abbrev pub logs : ActionType → Bool
  logs ActionType.set_key = false
  logs ActionType.delete_key = false
  logs ActionType.increment = false
  logs ActionType.delay = false
  logs ActionType.schedule = false
  logs ActionType.publish_event = false
  logs ActionType.http_request = false
  logs _ = true

  abbrev reply_target : ActionType → Event L → Option String
  reply_target ActionType.reply envelope = message_id_of L envelope
  reply_target _ envelope = none

  abbrev pub conversation_of : Event L → String
  conversation_of envelope = or_text envelope.conversation_id ""

  unfoldable pub say : String → Event L → Action N → V L → World N → Bool × World N
  unfolding render
  say rule_id envelope a context w = elim (given a.content) [
    | none ↦ (true, w)
    | some content ↦
        attempt
          (bot_command (conversation_of envelope) (render L context content)
            (reply_target a.type envelope) rule_id)
          w
  ]

  unfoldable pub react : String → Event L → Action N → World N → Bool × World N
  react rule_id envelope a w = elim (given a.emoji) [
    | none ↦ (true, w)
    | some emoji ↦ elim (given (message_id_of L envelope)) [
      | none ↦ (true, w)
      | some message_id ↦ attempt (reaction (conversation_of envelope) message_id emoji rule_id) w
    ]
  ]

  abbrev pub fields_of : Option (Fields N) → Fields N
  fields_of none = empty
  fields_of (some fields) = fields

  abbrev pub or_null : V L → V L
  or_null Value.undefined = null
  or_null v = v

  -- A read of the session that throws ends the action.
  abbrev change_session : String → Event L → (Fields N → Fields N) → World N → Bool × World N
  change_session bot_id envelope change w =
      let scope = session_scope L envelope in
      elim (get_state w.now bot_id scope w.redis) [
        | none ↦ (false, w)
        | some current ↦
            (true, with_redis (set_state w.now bot_id scope (change (fields_of current)) w.redis) w)
      ]

  unfoldable pub set_session_key : String → Event L → Action N → World N → Bool × World N
  unfolding session_scope get_state set_state
  set_session_key bot_id envelope a w = elim (given a.key) [
    | none ↦ (true, w)
    | some key ↦ change_session bot_id envelope (set_field key (or_null a.value)) w
  ]

  unfoldable pub delete_session_key : String → Event L → Action N → World N → Bool × World N
  unfolding session_scope get_state set_state
  delete_session_key bot_id envelope a w = elim (given a.key) [
    | none ↦ (true, w)
    | some key ↦ change_session bot_id envelope (without_field key) w
  ]

  unfoldable pub count_session : String → Event L → Action N → World N → Bool × World N
  unfolding session_scope increment_counter
  count_session bot_id envelope a w =
      elim (increment_counter w.now bot_id (session_scope L envelope) (or_text a.counter "default")
        w.redis) [ none ↦ (false, w) | some r ↦ (true, with_redis r w) ]

  unfoldable pub request : String → String → Action N → World N → Bool × World N
  unfolding log_execution
  request bot_id rule_id a w = elim (given a.url) [
    | none ↦ (true, w)
    | some url ↦ elim (O.fetch url) [
      | none ↦ (false, put (requested url) w)
      | some status ↦ (
        true,
        log_execution bot_id rule_id ActionType.http_request success (put (requested url) w),
      )
    ]
  ]

  abbrev publish_payload : String → Option (Fields N) → World N → Bool × World N
  publish_payload bot_id none w = (true, w)
  publish_payload bot_id (some payload) w = attempt (bot_event bot_id payload) w

  -- The `switch` of `executeAction`: whether it ends without throwing.
  unfoldable pub perform :
      ActionType → String → String → Event L → Action N → V L → World N → Bool × World N
  unfolding say react set_session_key delete_session_key count_session request
  perform ActionType.reply bot_id rule_id envelope a context w = say rule_id envelope a context w
  perform ActionType.send_message bot_id rule_id envelope a context w =
      say rule_id envelope a context w
  perform ActionType.add_reaction bot_id rule_id envelope a context w = react rule_id envelope a w
  perform ActionType.set_key bot_id rule_id envelope a context w =
      set_session_key bot_id envelope a w
  perform ActionType.delete_key bot_id rule_id envelope a context w =
      delete_session_key bot_id envelope a w
  perform ActionType.increment bot_id rule_id envelope a context w =
      count_session bot_id envelope a w
  perform ActionType.delay bot_id rule_id envelope a context w =
      (true, record w { now = w.now + min (or_number a.ms 1000) 60000 })
  perform ActionType.schedule bot_id rule_id envelope a context w =
      attempt
        (scheduled bot_id rule_id (conversation_of envelope) (w.now + or_number a.run_at_ms 5000)
          (record a { type = ActionType.reply; run_at_ms = none }))
        w
  perform ActionType.publish_event bot_id rule_id envelope a context w =
      publish_payload bot_id a.payload w
  perform ActionType.http_request bot_id rule_id envelope a context w = request bot_id rule_id a w
  perform _ bot_id rule_id envelope a context w = (true, w)

  unfoldable pub execute_action :
      String → String → Event L → Action N → V L → World N → Bool × World N
  unfolding perform log_execution
  execute_action bot_id rule_id envelope a context w =
      let (done, w') = perform a.type bot_id rule_id envelope a context w in
      if done && logs a.type
      then (true, log_execution bot_id rule_id a.type success w')
      else (done, w')

  -- An action that throws is logged, and the next one goes on.
  unfoldable pub execute_actions :
      String → String → Event L → V L → List (Action N) → World N → World N
  unfolding execute_action log_execution
  execute_actions bot_id rule_id envelope context [] w = w
  execute_actions bot_id rule_id envelope context (a ∷ actions) w =
      let (done, w') = execute_action bot_id rule_id envelope a context w in
      execute_actions bot_id rule_id envelope context actions
        (if done then w' else log_execution bot_id rule_id a.type failure w')
