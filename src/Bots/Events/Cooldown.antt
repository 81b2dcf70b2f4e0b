-- ===== src/Bots/Events/Cooldown.antt =====
-- The cooldown that keeps rules from storms.
use mqtt_chat.Base.{
  ℕ, ◌+◌, ◌<◌, String, some, Bool, true, false, List, [], ◌∷◌, string_eq, if◌then◌else◌, ◌≡◌, ◌≢◌,
  refl, ap, ◌∙◌, arith, Bool-cases, Option-cases, inl, inr, ==_refl,
}
use mqtt_chat.Bots.Value.{Value}
use mqtt_chat.Bots.Conditions.{evaluate_conditions}
use mqtt_chat.Bots.State.{BotRedis, get_state, set_state, increment_counter, try_acquire_cooldown}
use mqtt_chat.Bots.Rules.{
  Language, Outside, World, LoadedRule, Action, ActionType, Status, given, or_text, sender_of,
  session_key, context_of, triggers, Event,
}
use mqtt_chat.Bots.Engine.{
  execute_action, execute_actions, perform, say, react, set_session_key, delete_session_key,
  count_session, request, log_execution, fields_of, with_redis,
}
use mqtt_chat.Bots.Events.{matched, try_rule}

module _ (L : Language) (O : Outside L.M.Number) where
  abbrev N : Type 0
  N = L.M.Number

  -- No action touches a cooldown.
  perform-cooldown :
      (type : ActionType) (bot_id rule_id : String) (envelope : Event L) (a : Action N)
      (context : Value N) (w : World N)
      → (perform L O type bot_id rule_id envelope a context w).1.redis.cooldown ≡ w.redis.cooldown
  unfolding perform say react set_session_key delete_session_key count_session request log_execution
      set_state increment_counter get_state
  perform-cooldown ActionType.reply bot_id rule_id envelope a context w = ground arith
  perform-cooldown ActionType.send_message bot_id rule_id envelope a context w = ground arith
  perform-cooldown ActionType.add_reaction bot_id rule_id envelope a context w = ground arith
  perform-cooldown ActionType.set_key bot_id rule_id envelope a context w = ground arith
  perform-cooldown ActionType.delete_key bot_id rule_id envelope a context w = ground arith
  perform-cooldown ActionType.increment bot_id rule_id envelope a context w = ground arith
  perform-cooldown ActionType.delay bot_id rule_id envelope a context w = refl
  perform-cooldown ActionType.schedule bot_id rule_id envelope a context w = ground arith
  perform-cooldown ActionType.publish_event bot_id rule_id envelope a context w = ground arith
  perform-cooldown ActionType.http_request bot_id rule_id envelope a context w = ground arith
  perform-cooldown ActionType.reply_status bot_id rule_id envelope a context w = refl
  perform-cooldown ActionType.reply_users bot_id rule_id envelope a context w = refl
  perform-cooldown ActionType.reply_stats bot_id rule_id envelope a context w = refl
  perform-cooldown ActionType.reply_room bot_id rule_id envelope a context w = refl

  log-cooldown :
      (bot_id rule_id : String) (a : Action N) (w : World N) (done : Bool)
      → (if done
          then w
          else log_execution L O bot_id rule_id a.type Status.failure w).redis.cooldown
        ≡ w.redis.cooldown
  unfolding log_execution
  log-cooldown bot_id rule_id a w done = ground arith

  action-cooldown :
      (bot_id rule_id : String) (envelope : Event L) (a : Action N) (context : Value N)
      (w : World N)
      → (execute_action L O bot_id rule_id envelope a context w).1.redis.cooldown ≡ w.redis.cooldown
  unfolding execute_action log_execution
  action-cooldown bot_id rule_id envelope a context w =
      ground (arith, perform-cooldown a.type bot_id rule_id envelope a context w)

  actions-cooldown :
      (bot_id rule_id : String) (envelope : Event L) (context : Value N) (actions : List (Action N))
      (w : World N)
      → (execute_actions L O bot_id rule_id envelope context actions w).redis.cooldown
        ≡ w.redis.cooldown
  unfolding execute_actions
  actions-cooldown bot_id rule_id envelope context [] w = refl
  actions-cooldown bot_id rule_id envelope context (a ∷ actions) w =
      let done = execute_action L O bot_id rule_id envelope a context w in
      actions-cooldown bot_id rule_id envelope context actions
        (if done.0 then done.1 else log_execution L O bot_id rule_id a.type Status.failure done.1)
      ∙ log-cooldown bot_id rule_id a done.1 done.0
      ∙ action-cooldown bot_id rule_id envelope a context w

  taken :
      (bot_id rule_id user : String) (now later : ℕ) (r s : BotRedis N)
      → (try_acquire_cooldown now bot_id rule_id user 2 r).0 ≡ true
      → s.cooldown ≡ (try_acquire_cooldown now bot_id rule_id user 2 r).1.cooldown
      → later < now + 2000
      → try_acquire_cooldown later bot_id rule_id user 2 s ≡ (false, s)
  unfolding try_acquire_cooldown
  taken bot_id rule_id user now later r s free same soon =
      let at : s.cooldown bot_id rule_id user ≡ some (now + 2000) =
        ap (λ f. f bot_id rule_id user) same
        ∙ ground (arith, free, ==_refl bot_id, ==_refl rule_id, ==_refl user) in
      ground (arith, at)

  -- By whom the cooldown of a rule is counted.
  abbrev user_of : Event L → String
  user_of envelope = or_text (given (some (sender_of L envelope))) "system"

  abbrev acquired : String → Event L → LoadedRule N → World N → Bool × BotRedis N
  acquired bot_id envelope rule w =
      try_acquire_cooldown w.now bot_id rule.id (user_of envelope) 2 w.redis

  matched-acquired :
      (bot_id : String) (envelope : Event L) (rule : LoadedRule N) (w : World N)
      → (try_rule L O bot_id envelope rule w).0 ≡ matched
      → ((acquired bot_id envelope rule w).0 ≡ true)
        × ((try_rule L O bot_id envelope rule w).1.redis.cooldown
            ≡ (acquired bot_id envelope rule w).1.cooldown)
  unfolding try_rule
  matched-acquired bot_id envelope rule w h = elim (Bool-cases (triggers L rule.trigger envelope)) [
    | inr deaf ↦ absurd (ground (arith, deaf, h))
    | inl heard ↦ elim (Option-cases (get_state w.now bot_id (session_key L envelope) w.redis)) [
      | inl broken ↦ absurd (ground (arith, heard, broken, h))
      | inr (session, read) ↦
          let context = context_of L envelope (fields_of L O session) in
          elim (Bool-cases (evaluate_conditions L.M L.regex rule.conditions context)) [
            | inr refused ↦ absurd (ground (arith, heard, read, refused, h))
            | inl met ↦ elim (Bool-cases (acquired bot_id envelope rule w).0) [
              | inr cooling ↦ absurd (ground (arith, heard, read, met, cooling, h))
              | inl free ↦ (
                free,
                ground (
                  arith,
                  heard,
                  read,
                  met,
                  free,
                  actions-cooldown bot_id rule.id envelope context rule.actions
                      (with_redis L O (acquired bot_id envelope rule w).1 w),
                ),
              )
            ]
          ]
    ]
  ]

  cooling-idle :
      (bot_id : String) (envelope : Event L) (rule : LoadedRule N) (w : World N)
      → acquired bot_id envelope rule w ≡ (false, w.redis)
      → ((try_rule L O bot_id envelope rule w).0 ≢ matched)
        × ((try_rule L O bot_id envelope rule w).1 ≡ w)
  unfolding try_rule
  cooling-idle bot_id envelope rule w cooling =
      elim (Bool-cases (triggers L rule.trigger envelope)) [
        | inr deaf ↦ (λ h. ground (arith, deaf, h), ground (arith, deaf))
        | inl heard ↦
            elim (Option-cases (get_state w.now bot_id (session_key L envelope) w.redis)) [
              | inl broken ↦ (λ h. ground (arith, heard, broken, h), ground (arith, heard, broken))
              | inr (session, read) ↦
                  let context = context_of L envelope (fields_of L O session) in
                  elim (Bool-cases (evaluate_conditions L.M L.regex rule.conditions context)) [
                    | inr refused ↦ (
                      λ h. ground (arith, heard, read, refused, h),
                      ground (arith, heard, read, refused),
                    )
                    | inl met ↦ (
                      λ h. ground (arith, heard, read, met, cooling, h),
                      ground (arith, heard, read, met, cooling),
                    )
                  ]
            ]
      ]

  -- A rule that matched for a user does not match for that user again, and has no effect at all, at any time less
  -- than two seconds after the event at which it matched, whatever has changed but the cooldowns.
  pub rule_cooldown :
      (bot_id : String) (rule : LoadedRule N) (first second : Event L) (w w' : World N)
      → (try_rule L O bot_id first rule w).0 ≡ matched
      → sender_of L second ≡ sender_of L first
      → w'.redis.cooldown ≡ (try_rule L O bot_id first rule w).1.redis.cooldown
      → w'.now < w.now + 2000
      → ((try_rule L O bot_id second rule w').0 ≢ matched)
        × ((try_rule L O bot_id second rule w').1 ≡ w')
  rule_cooldown bot_id rule first second w w' h same kept soon =
      let (free, after) = matched-acquired bot_id first rule w h in
      let cooling =
        taken bot_id rule.id (user_of first) w.now w'.now w.redis w'.redis free (kept ∙ after)
          soon in
      cooling-idle bot_id second rule w' (
        ap
          (λ u.
            try_acquire_cooldown w'.now bot_id rule.id (or_text (given (some u)) "system") 2
              w'.redis)
          same
        ∙ cooling)
