-- ===== src/Bots/State.antt =====
-- `BotStateRepository` of packages/redis/src/index.ts. A Redis key holds a text or a hash, and a command for the
-- one refuses a key that holds the other (WRONGTYPE): `none` where the call throws.
use mqtt_chat.Base.{
  ℕ, suc, ◌+◌, ◌*◌, String, Option, none, some, Bool, true, false, ◌&&◌, List, [], ◌∷◌, ltb, ◌==◌,
  string_eq, if◌then◌else◌,
}
use mqtt_chat.Store.Redis.{update₂}
use mqtt_chat.Bots.Value.{Fields}

-- The text is the JSON of an object.
pub data Cell (N : Type 0) : Type 0 where
  json : Fields N → Cell N
  hash : List (String × ℕ) → Cell N

pub record Entry (N : Type 0) : Type 0 where
  pub cell : Cell N
  pub expires : Option ℕ

pub record BotRedis (N : Type 0) : Type 0 where
  -- bot, scope
  pub state : String → String → Option (Entry N)
  -- bot, rule, user: when the cooldown ends
  pub cooldown : String → String → String → Option ℕ

abbrev pub is_live : ℕ → Option ℕ → Bool
is_live now none = true
is_live now (some t) = ltb now t

unfoldable pub incremented : String → List (String × ℕ) → List (String × ℕ)
incremented name [] = (name, 1) ∷ []
incremented name ((key, n) ∷ counters) =
    let rest = incremented name counters in
    if key == name then (key, suc n) ∷ counters else (key, n) ∷ rest

module _ {N : Type 0} where
  abbrev pub live : ℕ → Option (Entry N) → Option (Entry N)
  live now none = none
  live now (some e) = if is_live now e.expires then some e else none

  unfoldable pub get_state : ℕ → String → String → BotRedis N → Option (Option (Fields N))
  get_state now bot_id scope r = elim (live now (r.state bot_id scope)) [
    | none ↦ some none
    | some e ↦ elim e.cell [ json fields ↦ some (some fields) | hash counters ↦ none ]
  ]

  -- `defaultStateTtlSeconds` is half an hour.
  unfoldable pub set_state : ℕ → String → String → Fields N → BotRedis N → BotRedis N
  set_state now bot_id scope fields r = record r {
    state =
        update₂ r.state bot_id scope
          (some (record { cell = json fields; expires = some (now + 1800000) }));
  }

  unfoldable pub delete_state : String → String → BotRedis N → BotRedis N
  delete_state bot_id scope r = record r { state = update₂ r.state bot_id scope none }

  -- HINCRBY: a new hash has no expiry.
  unfoldable pub increment_counter : ℕ → String → String → String → BotRedis N → Option (BotRedis N)
  unfolding incremented
  increment_counter now bot_id scope name r = elim (live now (r.state bot_id scope)) [
    | none ↦ some (record r {
      state =
          update₂ r.state bot_id scope
            (some (record { cell = hash (incremented name []); expires = none }));
    })
    | some e ↦ elim e.cell [
      | json fields ↦ none
      | hash counters ↦ some (record r {
        state =
            update₂ r.state bot_id scope
              (some (record e { cell = hash (incremented name counters) }));
      })
    ]
  ]

  -- SET NX EX: whether the cooldown was free, and is now taken.
  unfoldable pub try_acquire_cooldown :
      ℕ → String → String → String → ℕ → BotRedis N → Bool × BotRedis N
  try_acquire_cooldown now bot_id rule_id user_id seconds r =
      let taken : Bool = elim (r.cooldown bot_id rule_id user_id) [
        | none ↦ false
        | some t ↦ ltb now t
      ] in
      if taken then (false, r) else (
        true,
        record r {
          cooldown = λ b k u.
              if b == bot_id && (k == rule_id && u == user_id)
              then some (now + 1000 * seconds)
              else r.cooldown b k u;
        },
      )
