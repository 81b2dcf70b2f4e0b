-- ===== src/Bots/Events.antt =====
-- `RuleEngine` of apps/bot-worker/src/rule-engine.ts: the rules it has loaded, and its loop over the bots and
-- their rules.
pub mod Poison
pub mod Guards
pub mod Cooldown
use mqtt_chat.Base.{
  ℕ, String, Option, none, some, Bool, true, false, not, ◌&&◌, List, [], ◌∷◌, ◌++◌, ◌==◌, string_eq,
  if◌then◌else◌, find, filter, map,
}
use mqtt_chat.Contracts.Envelope.{Origin, OriginType}
use mqtt_chat.Bots.Value.{Value, boolean, string, Fields, own_field}
use mqtt_chat.Bots.Conditions.{evaluate_conditions}
use mqtt_chat.Bots.State.{get_state, try_acquire_cooldown}
use mqtt_chat.Bots.Rules.{
  Language, Outside, World, Engine, BotSettings, BotRow, LoadedRule, given, or_text, sender_of,
  session_key, context_of, triggers, Event,
}
use mqtt_chat.Bots.Engine.{with_redis, fields_of, execute_actions}

-- What a rule did with an event: it was passed over, it matched, or reading its session threw.
pub data Verdict : Type 0 where
  passed matched threw : Verdict

abbrev pub is_bot : Origin → Bool
is_bot o = elim o.type [ OriginType.bot ↦ true | _ ↦ false ]

abbrev pub cached : String → List (String × BotSettings) → Option BotSettings
cached bot_id [] = none
cached bot_id ((id, s) ∷ rest) = if id == bot_id then some s else cached bot_id rest

module _ {N : Type 0} where
  abbrev allows : Option (Value N) → Bool
  allows (some (boolean true)) = true
  allows _ = false

  abbrev prefix : Option (Value N) → String
  prefix (some (string s)) = s
  prefix _ = "/"

  unfoldable pub settings_of : BotRow N → BotSettings
  settings_of b = record {
    allow_bot_messages = allows (own_field "allowBotMessages" b.settings);
    command_prefix = prefix (own_field "commandPrefix" b.settings);
  }

  -- `getBotSettings`; what is read is cached.
  unfoldable pub get_bot_settings :
      Outside N
      → String
      → List (String × BotSettings)
      → Option BotSettings × List (String × BotSettings)
  unfolding settings_of
  get_bot_settings O bot_id cache = elim (cached bot_id cache) [
    | some s ↦ (some s, cache)
    | none ↦ elim (O.find_bot bot_id) [
      | none ↦ (none, cache)
      | some b ↦
          let s = settings_of b in
          if b.enabled then (some s, cache ++ (bot_id, s) ∷ []) else (none, cache)
    ]
  ]

-- The rules of a bot as they are stored, in the order of their priorities; the schema of a rule
-- (packages/bot-rules/src/schema.ts) parses it, or refuses it.
pub record StoredBot (R : Type 0) : Type 0 where
  pub id : String
  pub rules : List R

module _ {N R : Type 0} (parse : R → Option (LoadedRule N)) where
  -- A rule that does not parse is skipped.
  unfoldable pub load_rules : List R → List (LoadedRule N)
  load_rules [] = []
  load_rules (r ∷ rs) =
      let rest = load_rules rs in elim (parse r) [ none ↦ rest | some rule ↦ rule ∷ rest ]

  -- `refresh`; `none` where the query fails.
  unfoldable pub refresh : Option (List (StoredBot R)) → Engine N → Engine N
  unfolding load_rules
  refresh none engine = engine
  refresh (some bots) engine = record {
    rules = map (λ (b : StoredBot R). (b.id, load_rules b.rules)) bots;
    settings_cache = [];
  }

-- What `processEvent` has done: the rules that matched, and whether it threw.
pub record Processed (N : Type 0) : Type 0 where
  pub matched_rules : List String
  pub threw : Bool
  pub cache : List (String × BotSettings)
  pub world : World N

module _ (L : Language) (O : Outside L.M.Number) where
  abbrev N : Type 0
  N = L.M.Number

  -- The body of the loop over the rules of a bot.
  unfoldable pub try_rule : String → Event L → LoadedRule N → World N → Verdict × World N
  unfolding triggers sender_of session_key context_of get_state evaluate_conditions
      try_acquire_cooldown execute_actions
  try_rule bot_id envelope rule w =
      if triggers L rule.trigger envelope
      then (elim (get_state w.now bot_id (session_key L envelope) w.redis) [
        | none ↦ (Verdict.threw, w)
        | some session ↦
            let context = context_of L envelope (fields_of L O session) in
            let user = or_text (given (some (sender_of L envelope))) "system" in
            let (allowed, redis) = try_acquire_cooldown w.now bot_id rule.id user 2 w.redis in
            if evaluate_conditions L.M L.regex rule.conditions context
            then (if allowed
                then (
                  Verdict.matched,
                  execute_actions L O bot_id rule.id envelope context rule.actions
                      (with_redis L O redis w),
                )
                else (Verdict.passed, with_redis L O redis w))
            else (Verdict.passed, w)
      ])
      else (Verdict.passed, w)

  unfoldable pub try_rules : String → Event L → List (LoadedRule N) → Processed N → Processed N
  unfolding try_rule
  try_rules bot_id envelope [] p = p
  try_rules bot_id envelope (rule ∷ rules) p =
      let (verdict, w) = try_rule bot_id envelope rule p.world in
      elim verdict [
        | Verdict.passed ↦ try_rules bot_id envelope rules (record p { world = w })
        | Verdict.matched ↦
            try_rules bot_id envelope rules
              (record p { world = w; matched_rules = p.matched_rules ++ rule.id ∷ [] })
        | Verdict.threw ↦ record p { world = w; threw = true }
      ]

  -- A bot that is gone or disabled is passed over, and so is an event of a bot, unless the bot
  -- allows these.
  abbrev hears : Event L → Option BotSettings → Bool
  hears envelope none = false
  hears envelope (some settings) = not (is_bot envelope.origin && not settings.allow_bot_messages)

  unfoldable pub process_bots :
      Event L → List (String × List (LoadedRule N)) → Processed N → Processed N
  unfolding try_rules get_bot_settings
  process_bots envelope [] p = p
  process_bots envelope ((bot_id, rules) ∷ bots) p =
      let (settings, cache) = get_bot_settings O bot_id p.cache in
      let q : Processed N = record p { cache = cache } in
      let r = if hears envelope settings then try_rules bot_id envelope rules q else q in
      if r.threw then r else process_bots envelope bots r

  unfoldable pub process_event : Event L → Engine N → World N → Processed N
  unfolding process_bots
  process_event envelope engine w =
      process_bots envelope engine.rules
        (record { matched_rules = []; threw = false; cache = engine.settings_cache; world = w })
