-- ===== src/Tests/Automation.antt =====
-- A rule of one bot, a counter in its session, and a scheduled job.
use mqtt_chat.Base.{
  ℕ, ◌+◌, ◌≤◌, String, string_discrete, none, some, true, false, List, [], ◌∷◌, find, ltb, nat_eq,
  ◌==◌, string_eq, ◌≡◌, ◌≢◌, refl, arith,
}
use mqtt_chat.Contracts.Envelope.{EventEnvelope, OriginType}
use mqtt_chat.Client.Sort.{sort_by, count-sort_by, sort_by-IsSorted}
use mqtt_chat.Bots.Value.{Numbers, Value, undefined, null, empty}
use mqtt_chat.Bots.Rules.{
  Language, Outside, World, Engine, LoadedRule, Action, ActionType, on_event, triggers,
}
use mqtt_chat.Bots.Engine.{execute_action}
use mqtt_chat.Bots.Events.{matched, try_rule, process_event, get_bot_settings, settings_of}
use mqtt_chat.Bots.Events.Poison.{counter_poisons}
use mqtt_chat.Bots.Events.Guards.{loop_protection}
use mqtt_chat.Bots.Events.Cooldown.{rule_cooldown}
use mqtt_chat.Bots.Scheduler.{Job, JobStatus, Answers, process_due_jobs}
use mqtt_chat.Bots.Scheduler.Attempts.{count_runs, runs_bounded}
use mqtt_chat.Bots.Scheduler.Due.{undue_untouched}

abbrev naturals : Numbers
naturals = record {
  Number = ℕ;
  same = λ m n. m == n;
  less = ltb;
  print = λ n. "n";
  read = λ s. none;
  of_nat = λ n. n;
}

abbrev language : Language
language = record {
  M = naturals;
  regex = λ pattern text. none;
  show = λ v. "shown";
  lower = λ s. s;
  command_word = λ s. s;
  template = λ f s. s;
}

-- Every bot is enabled, with the settings it has by default.
abbrev outside : Outside ℕ
outside = record {
  takes = λ e. true;
  fetch = λ url. none;
  find_bot = λ id. some (record { enabled = true; settings = empty });
}

abbrev event : OriginType → EventEnvelope (Value ℕ)
event type = record {
  event_id = "e1";
  event_type = "message.created";
  version = 1;
  timestamp = 100;
  actor = some (record { user_id = some "alice"; device_id = none; bot_id = none });
  conversation_id = some "g";
  origin = record { type = type; id = none; rule_id = none };
  correlation_id = none;
  causation_id = none;
  payload = undefined;
}

abbrev action : ActionType → Action ℕ
action type = record {
  type = type;
  content = some "hello";
  emoji = none;
  key = none;
  value = null;
  counter = none;
  ms = none;
  run_at_ms = none;
  payload = none;
  url = none;
}

abbrev rule : ActionType → LoadedRule ℕ
rule type = record {
  id = "r1";
  name = "greet";
  priority = 0;
  trigger = on_event "message.created";
  conditions = [];
  actions = action type ∷ [];
}

abbrev world : World ℕ
world = record {
  redis = record { state = λ bot scope. none; cooldown = λ bot rule user. none };
  now = 100;
  effects = [];
}

abbrev engine : Engine ℕ
engine = record { rules = ("b", rule ActionType.send_message ∷ []) ∷ []; settings_cache = [] }

-- A day later, the next message of the same user.
counter_poisons_example :
    process_event language outside
      (event OriginType.user)
      engine
      (record ((execute_action language outside "b" "r0"
        (event OriginType.user)
        (action ActionType.increment)
        undefined
        world).1) { now = 86400100 })
    ≡ record {
      matched_rules = [];
      threw = true;
      cache = (get_bot_settings outside "b" []).1;
      world =
          record ((execute_action language outside "b" "r0"
            (event OriginType.user)
            (action ActionType.increment)
            undefined
            world).1) { now = 86400100 };
    }
unfolding get_bot_settings string_discrete triggers
counter_poisons_example =
    counter_poisons language outside "b" "r0" "alice" (event OriginType.user)
      (action ActionType.increment) undefined world 86400100 (event OriginType.user)
      (rule ActionType.send_message ∷ []) [] [] refl refl refl refl refl refl refl

loop_protection_example :
    ((process_event language outside (event OriginType.bot) engine world).matched_rules ≡ [])
    × ((process_event language outside (event OriginType.bot) engine world).threw ≡ false)
    × ((process_event language outside (event OriginType.bot) engine world).world ≡ world)
unfolding string_discrete settings_of
loop_protection_example =
    loop_protection language outside (event OriginType.bot) engine world
      (λ id b found. ground (arith, found)) refl refl

abbrev greeted : World ℕ
unfolding try_rule
greeted =
    (try_rule language outside "b" (event OriginType.user) (rule ActionType.send_message) world).1

rule_cooldown_example :
    ((try_rule language outside "b"
        (event OriginType.user)
        (rule ActionType.send_message)
        (record greeted { now = 2099 })).0
      ≢ matched)
    × ((try_rule language outside "b"
          (event OriginType.user)
          (rule ActionType.send_message)
          (record greeted { now = 2099 })).1
        ≡ record greeted { now = 2099 })
unfolding try_rule string_discrete
rule_cooldown_example =
    rule_cooldown language outside "b" (rule ActionType.send_message) (event OriginType.user)
      (event OriginType.user) world (record greeted { now = 2099 }) refl refl refl (omega arith)

abbrev job : String → JobStatus → ℕ → Job String
job id status run_at = record {
  id = id;
  bot_id = "b";
  payload = record {
    rule_id = none;
    actions = "broken" ∷ [];
    conversation_id = some "g";
    causation_id = none;
  };
  recurring = false;
  interval_ms = none;
  attempts = 3;
  status = status;
  run_at = run_at;
  completed_at = none;
  last_error = none;
}

-- No action parses.
abbrev answers : Answers ℕ String
answers = record {
  parse = λ r. none;
  takes = λ c. true;
  saves = λ id status. true;
  message = "invalid";
}

runs_bounded_example :
    count_runs
        ((100, answers) ∷ (5100, answers) ∷ (99999, answers) ∷ [])
        (job "j1" JobStatus.pending 90)
      + 3
    ≤ 5
runs_bounded_example =
    runs_bounded ((100, answers) ∷ (5100, answers) ∷ (99999, answers) ∷ [])
      (job "j1" JobStatus.pending 90) refl (omega arith)

abbrev jobs : List (Job String)
jobs = job "j1" JobStatus.pending 90 ∷ job "j2" JobStatus.running 80 ∷ []

undue_untouched_example :
    find
      (λ (j : Job String). j.id == "j2")
      (process_due_jobs answers (sort_by (λ j. j.run_at)) (λ j. false) 100 jobs).0
    ≡ some (job "j2" JobStatus.running 80)
unfolding string_discrete
undue_untouched_example =
    undue_untouched answers 100 (sort_by (λ j. j.run_at)) (λ j. false) jobs "j2"
      (record {
        same_rows = count-sort_by (λ (j : Job String). j.run_at);
        sorted = sort_by-IsSorted (λ (j : Job String). j.run_at);
      })
      refl
