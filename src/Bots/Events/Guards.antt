-- ===== src/Bots/Events/Guards.antt =====
-- The silence of rules towards other bots.
use mqtt_chat.Base.{
  String, some, Bool, true, false, not, List, [], ◌∷◌, ◌++◌, all, string_eq, ◌≡◌, refl, arith,
  Option-cases, inl, inr,
}
use mqtt_chat.Bots.Rules.{Language, Outside, World, Engine, LoadedRule, BotSettings, BotRow, Event}
use mqtt_chat.Bots.Events.{
  process_bots, process_event, get_bot_settings, settings_of, cached, hears, is_bot,
}

abbrev silent : List (String × BotSettings) → Bool
silent cache = all (λ (e : String × BotSettings). not e.1.allow_bot_messages) cache

silent-cached :
    (bot_id : String) (cache : List (String × BotSettings)) (s : BotSettings)
    → silent cache ≡ true
    → cached bot_id cache ≡ some s
    → s.allow_bot_messages ≡ false
silent-cached bot_id [] s h e = cc
silent-cached bot_id ((id, x) ∷ cache) s h e = ground (arith, silent-cached bot_id cache s)

silent-append :
    (cache : List (String × BotSettings)) (bot_id : String) (s : BotSettings)
    → silent cache ≡ true
    → s.allow_bot_messages ≡ false
    → silent (cache ++ (bot_id, s) ∷ []) ≡ true
silent-append [] bot_id s h e = ground arith
silent-append ((id, x) ∷ cache) bot_id s h e = ground (arith, silent-append cache bot_id s)

module _ (L : Language) (O : Outside L.M.Number) where
  abbrev N : Type 0
  N = L.M.Number

  -- No row allows the events of bots.
  abbrev pub IsSilent : Type 0
  IsSilent =
      (id : String) (b : BotRow N)
      → O.find_bot id ≡ some b
      → (settings_of b).allow_bot_messages ≡ false

  settings-silent :
      (envelope : Event L) (bot_id : String) (cache : List (String × BotSettings))
      → IsSilent
      → is_bot envelope.origin ≡ true
      → silent cache ≡ true
      → (hears L O envelope (get_bot_settings O bot_id cache).0 ≡ false)
        × (silent (get_bot_settings O bot_id cache).1 ≡ true)
  unfolding get_bot_settings
  settings-silent envelope bot_id cache rows from_bot h =
      elim (Option-cases (cached bot_id cache)) [
        | inr (s, known) ↦
            (ground (arith, known, silent-cached bot_id cache s h known), ground (arith, known))
        | inl unknown ↦ elim (Option-cases (O.find_bot bot_id)) [
          | inl gone ↦ (ground (arith, unknown, gone), ground (arith, unknown, gone))
          | inr (b, found) ↦
              let deaf = rows bot_id b found in
              (
                ground (arith, unknown, found, deaf),
                ground (arith, unknown, found, silent-append cache bot_id (settings_of b) h deaf),
              )
        ]
      ]

  bots-silent :
      (envelope : Event L) (bots : List (String × List (LoadedRule N)))
      (cache : List (String × BotSettings)) (w : World N)
      → IsSilent
      → is_bot envelope.origin ≡ true
      → silent cache ≡ true
      → let p =
          process_bots L O envelope bots
            (record { matched_rules = []; threw = false; cache = cache; world = w }) in
        (p.matched_rules ≡ []) × (p.threw ≡ false) × (p.world ≡ w)
  unfolding process_bots
  bots-silent envelope [] cache w rows from_bot h = (refl, refl, refl)
  bots-silent envelope ((bot_id, rules) ∷ bots) cache w rows from_bot h =
      let (deaf, still) = settings-silent envelope bot_id cache rows from_bot h in
      rw deaf (bots-silent envelope bots (get_bot_settings O bot_id cache).1 w rows from_bot still)

  -- While no bot allows the events of bots, in its row or in the settings that are cached, an event that a bot
  -- caused matches no rule, throws nothing and has no effect at all.
  pub loop_protection :
      (envelope : Event L) (engine : Engine N) (w : World N)
      → IsSilent
      → is_bot envelope.origin ≡ true
      → silent engine.settings_cache ≡ true
      → let p = process_event L O envelope engine w in
        (p.matched_rules ≡ []) × (p.threw ≡ false) × (p.world ≡ w)
  unfolding process_event
  loop_protection envelope engine w rows from_bot h =
      bots-silent envelope engine.rules engine.settings_cache w rows from_bot h
