-- ===== src/Bots/Events/Poison.antt =====
-- A counter in the key of a session.
use mqtt_chat.Base.{
  ℕ, String, Option, none, some, Bool, true, false, List, [], ◌∷◌, any, ◌==◌, string_eq, ◌≡◌, refl,
  sym, subst, ◌∙◌, arith, Bool-cases, inl, inr,
}
use mqtt_chat.Bots.Value.{Value}
use mqtt_chat.Bots.State.{json, hash, Entry, BotRedis, live, get_state, increment_counter}
use mqtt_chat.Bots.Rules.{
  Language, Outside, World, LoadedRule, Action, ActionType, actor_user, sender_of, session_key,
  session_scope, triggers, Event,
}
use mqtt_chat.Bots.Engine.{execute_action, perform, count_session}
use mqtt_chat.Bots.Events.{
  passed, threw, try_rule, try_rules, process_bots, process_event, Processed, get_bot_settings,
  hears, BotSettings,
}

abbrev holds_hash : {N : Type 0} → Option (Entry N) → Bool
holds_hash none = false
holds_hash (some e) = elim e.cell [ json fields ↦ false | hash counters ↦ true ]

abbrev lasts : {N : Type 0} → Option (Entry N) → Bool
lasts none = false
lasts (some e) = elim e.expires [ none ↦ true | some t ↦ false ]

get-hash :
    {N : Type 0} (now : ℕ) (bot_id scope : String) (r : BotRedis N)
    → holds_hash (r.state bot_id scope) ≡ true
    → lasts (r.state bot_id scope) ≡ true
    → get_state now bot_id scope r ≡ none
unfolding get_state
get-hash now bot_id scope r h l = ground arith

module _ (L : Language) (O : Outside L.M.Number) where
  abbrev N : Type 0
  N = L.M.Number

  module _ (bot_id : String) (envelope : Event L) (w : World N) where
    rule-throws :
        (rule : LoadedRule N)
        → triggers L rule.trigger envelope ≡ true
        → get_state w.now bot_id (session_key L envelope) w.redis ≡ none
        → try_rule L O bot_id envelope rule w ≡ (threw, w)
    unfolding try_rule
    rule-throws rule heard broken = rw (heard, broken) refl

    rule-passed :
        (rule : LoadedRule N)
        → triggers L rule.trigger envelope ≡ false
        → try_rule L O bot_id envelope rule w ≡ (passed, w)
    unfolding try_rule
    rule-passed rule deaf = rw deaf refl

    abbrev state_with : List String → Bool → List (String × BotSettings) → Processed N
    state_with ids failed cache = record {
      matched_rules = ids;
      threw = failed;
      cache = cache;
      world = w;
    }

    rules-throw :
        (rules : List (LoadedRule N)) (ids : List String) (cache : List (String × BotSettings))
        → get_state w.now bot_id (session_key L envelope) w.redis ≡ none
        → any (λ (r : LoadedRule N). triggers L r.trigger envelope) rules ≡ true
        → try_rules L O bot_id envelope rules (state_with ids false cache)
          ≡ state_with ids true cache
    unfolding try_rules
    rules-throw [] ids cache broken heard = cc
    rules-throw (rule ∷ rules) ids cache broken heard =
        elim (Bool-cases (triggers L rule.trigger envelope)) [
          | inl here ↦ ground (arith, rule-throws rule here broken)
          | inr later ↦ ground (
            arith,
            rule-passed rule later,
            rules-throw rules ids cache broken (ground (arith, later)),
          )
        ]

    -- An event of whose session the key holds a hash without expiry is lost at the first bot that hears it and
    -- has a rule for it: nothing matches, and no later bot is reached.
    event-throws :
        (rules : List (LoadedRule N)) (others : List (String × List (LoadedRule N)))
        (cache : List (String × BotSettings))
        → holds_hash (w.redis.state bot_id (session_key L envelope)) ≡ true
        → lasts (w.redis.state bot_id (session_key L envelope)) ≡ true
        → hears L O envelope (get_bot_settings O bot_id cache).0 ≡ true
        → any (λ (r : LoadedRule N). triggers L r.trigger envelope) rules ≡ true
        → process_event L O envelope
            (record { rules = (bot_id, rules) ∷ others; settings_cache = cache })
            w
          ≡ state_with [] true (get_bot_settings O bot_id cache).1
    unfolding process_event process_bots
    event-throws rules others cache h l hearing heard =
        let broken = get-hash w.now bot_id (session_key L envelope) w.redis h l in
        rw (hearing, rules-throw rules [] (get_bot_settings O bot_id cache).1 broken heard) refl

  increment-hash :
      (bot_id rule_id : String) (envelope : Event L) (a : Action N) (context : Value N)
      (w : World N)
      → a.type ≡ ActionType.increment
      → live w.now (w.redis.state bot_id (session_scope L envelope)) ≡ none
      → let w' = (execute_action L O bot_id rule_id envelope a context w).1 in
        (holds_hash (w'.redis.state bot_id (session_scope L envelope)) ≡ true)
        × (lasts (w'.redis.state bot_id (session_scope L envelope)) ≡ true)
  unfolding execute_action perform count_session increment_counter
  increment-hash bot_id rule_id envelope a context w counts free =
      (ground (arith, counts, free), ground (arith, counts, free))

  scope-key :
      (envelope : Event L) (user : String)
      → actor_user L envelope ≡ some user
      → (user == "") ≡ false
      → session_scope L envelope ≡ session_key L envelope
  unfolding session_scope session_key sender_of
  scope-key envelope user named filled = ground (arith, named, filled)

  -- After `increment_counter` has run for a user whose session holds nothing, the next event of that user in
  -- that conversation, however much later, throws in `processEvent` if the bot that counted is the first that
  -- the engine has loaded, hears the event and has a rule that it triggers: no rule matches, nothing
  -- changes, and no later bot is reached.
  pub counter_poisons :
      (bot_id rule_id user : String) (envelope : Event L) (a : Action N) (context : Value N)
      (w : World N) (time : ℕ) (next : Event L) (rules : List (LoadedRule N))
      (others : List (String × List (LoadedRule N))) (cache : List (String × BotSettings))
      → a.type ≡ ActionType.increment
      → actor_user L envelope ≡ some user
      → (user == "") ≡ false
      → live w.now (w.redis.state bot_id (session_key L envelope)) ≡ none
      → session_key L next ≡ session_key L envelope
      → hears L O next (get_bot_settings O bot_id cache).0 ≡ true
      → any (λ (r : LoadedRule N). triggers L r.trigger next) rules ≡ true
      → let w' : World N = record ((execute_action L O bot_id rule_id envelope a context w).1) {
        now = time;
      } in
        process_event L O next
          (record { rules = (bot_id, rules) ∷ others; settings_cache = cache })
          w'
        ≡ record {
          matched_rules = [];
          threw = true;
          cache = (get_bot_settings O bot_id cache).1;
          world = w';
        }
  counter_poisons bot_id rule_id user envelope a context w time next rules others cache counts named
        filled free same hearing heard =
      let key = scope-key envelope user named filled in
      let w' : World N = record ((execute_action L O bot_id rule_id envelope a context w).1) {
        now = time;
      } in
      let done =
        increment-hash bot_id rule_id envelope a context w counts
          (subst (λ k. live w.now (w.redis.state bot_id k) ≡ none) (sym key) free) in
      let at_next = key ∙ sym same in
      event-throws bot_id next w' rules others cache
        (subst (λ k. holds_hash (w'.redis.state bot_id k) ≡ true) at_next done.0)
        (subst (λ k. lasts (w'.redis.state bot_id k) ≡ true) at_next done.1) hearing heard
