-- ===== src/Bots/Scheduler.antt =====
-- apps/bot-worker/src/scheduler.ts: the runner of the jobs in the table BotScheduledJob.
pub mod Attempts
pub mod Due
use mqtt_chat.Base.{
  ℕ, suc, ◌+◌, String, Option, none, some, Bool, true, false, ◌&&◌, List, [], ◌∷◌, ◌++◌, map,
  filter, take, leb, not, ◌==◌, string_eq, nat_eq, if◌then◌else◌,
}
use mqtt_chat.Bots.Rules.{Action, ActionType, given}

pub data JobStatus : Type 0 where
  pending running completed failed : JobStatus

-- `JobPayload`; `R` is the JSON of an action.
pub record JobPayload (R : Type 0) : Type 0 where
  pub rule_id : Option String
  pub actions : List R
  pub conversation_id : Option String
  pub causation_id : Option String

pub record Job (R : Type 0) : Type 0 where
  pub id : String
  pub bot_id : String
  pub payload : JobPayload R
  pub recurring : Bool
  pub interval_ms : Option ℕ
  pub attempts : ℕ
  pub status : JobStatus
  pub run_at : ℕ
  pub completed_at : Option ℕ
  pub last_error : Option String

-- The arguments of `sendBotCommand`.
pub record BotCommand : Type 0 where
  pub conversation_id : String
  pub content : String
  pub causation_id : Option String
  pub rule_id : Option String

-- How the schema, the broker and the database answer.
pub record Answers (N R : Type 0) : Type 0 where
  -- `parseRuleDefinition` of one action, or `none` where it throws
  pub parse : R → Option (Action N)
  pub takes : BotCommand → Bool
  -- whether an update of the row to a status succeeds
  pub saves : String → JobStatus → Bool
  pub message : String

abbrev pub is_due : {R : Type 0} → ℕ → Job R → Bool
is_due now job = elim job.status [ pending ↦ leb job.run_at now | _ ↦ false ]

-- `MAX_ATTEMPTS`.
abbrev pub max_attempts : ℕ
max_attempts = 5

abbrev positive : Option ℕ → Option ℕ
positive none = none
positive (some n) = if n == 0 then none else some n

abbrev is_message : ActionType → Bool
is_message ActionType.reply = true
is_message ActionType.send_message = true
is_message _ = false

-- What the run of a job leaves: the commands that were sent, and whether it threw.
pub record Sent : Type 0 where
  pub commands : List BotCommand
  pub threw : Bool

-- The row after a run, the commands, and whether `processDueJobs` itself threw.
pub record JobRun (R : Type 0) : Type 0 where
  pub row : Job R
  pub commands : List BotCommand
  pub stopped : Bool

module _ {R : Type 0} where
  -- The row of a job whose actions have ended well.
  unfoldable pub finished : ℕ → Job R → Job R
  finished now job =
      let interval = if job.recurring then positive job.interval_ms else none in
      elim interval [
        | some ms ↦ record job { status = pending; run_at = now + ms; attempts = 0 }
        | none ↦ record job { status = completed; completed_at = some now }
      ]

  abbrev pub set_row : Job R → List (Job R) → List (Job R)
  set_row row = map (λ j. if j.id == row.id then row else j)

  -- The rows that the query returns: those that are due and that no other transaction locks, in the order of their
  -- times, 10 at most. The locks of the query end with it.
  unfoldable pub due_jobs :
      (List (Job R) → List (Job R)) → (Job R → Bool) → ℕ → List (Job R) → List (Job R)
  due_jobs order locked now jobs =
      take 10 (order (filter (λ j. is_due now j && not (locked j)) jobs))

module _ {N R : Type 0} (A : Answers N R) where
  -- The command of an action, if it has one.
  unfoldable pub command_of : JobPayload R → Action N → Option BotCommand
  command_of payload a =
      if is_message a.type
      then (elim (given a.content) [
        | none ↦ none
        | some content ↦ elim (given payload.conversation_id) [
          | none ↦ none
          | some conversation ↦ some (record {
            conversation_id = conversation;
            content = content;
            causation_id = payload.causation_id;
            rule_id = payload.rule_id;
          })
        ]
      ])
      else none

  unfoldable pub send_actions : JobPayload R → List R → List BotCommand → Sent
  unfolding command_of
  send_actions payload [] sent = record { commands = sent; threw = false }
  send_actions payload (r ∷ rs) sent = elim (A.parse r) [
    | none ↦ record { commands = sent; threw = true }
    | some a ↦ elim (command_of payload a) [
      | none ↦ send_actions payload rs sent
      | some command ↦
          let rest = send_actions payload rs (sent ++ command ∷ []) in
          if A.takes command then rest else record { commands = sent; threw = true }
    ]
  ]

  -- The row of a job of which the run has thrown.
  unfoldable pub retried : ℕ → Job R → Job R
  retried now job =
      let attempts = job.attempts + 1 in
      if leb max_attempts attempts
      then record job {
        status = failed;
        attempts = attempts;
        last_error = some A.message;
        completed_at = some now;
      }
      else record job {
        status = pending;
        run_at = now + 5000;
        attempts = attempts;
        last_error = some A.message;
      }

  -- The `catch` block: an update that fails is ignored, and the row stays RUNNING.
  unfoldable pub recover : ℕ → Job R → List BotCommand → JobRun R
  unfolding retried
  recover now job commands =
      let row = retried now job in
      record {
        row = if A.saves job.id row.status then row else record job { status = running };
        commands = commands;
        stopped = false;
      }

  -- The body of the loop over the jobs.
  unfoldable pub run_job : ℕ → Job R → JobRun R
  unfolding send_actions finished recover
  run_job now job =
      let sent = send_actions job.payload job.payload.actions [] in
      let row = finished now job in
      if not (A.saves job.id running)
      then record { row = job; commands = []; stopped = true }
      else if sent.threw
      then recover now job sent.commands
      else if A.saves job.id row.status
      then record { row = row; commands = sent.commands; stopped = false }
      else recover now job sent.commands

  -- The jobs table and the commands sent, the earliest first.
  unfoldable pub run_jobs :
      ℕ → List (Job R) → List (Job R) × List BotCommand → List (Job R) × List BotCommand
  unfolding run_job
  run_jobs now [] state = state
  run_jobs now (job ∷ jobs) (table, commands) =
      let r = run_job now job in
      let state : List (Job R) × List BotCommand = (set_row r.row table, commands ++ r.commands) in
      let rest = run_jobs now jobs state in if r.stopped then state else rest

  -- `processDueJobs`, with what `tick` does of an error that leaves it.
  unfoldable pub process_due_jobs :
      (List (Job R) → List (Job R))
      → (Job R → Bool)
      → ℕ
      → List (Job R)
      → List (Job R) × List BotCommand
  unfolding run_jobs due_jobs
  process_due_jobs order locked now table =
      run_jobs now (due_jobs order locked now table) (table, [])
