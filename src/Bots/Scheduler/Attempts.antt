-- ===== src/Bots/Scheduler/Attempts.antt =====
-- How often a job is run.
use mqtt_chat.Base.{
  ℕ, suc, ◌+◌, ◌≤◌, ◌<◌, Bool, true, false, ◌&&◌, List, [], ◌∷◌, leb, nat_eq, if◌then◌else◌, ◌≡◌,
  refl, arith, Bool-cases, inl, inr, ◌⊎◌,
}
use mqtt_chat.Bots.Scheduler.{
  Job, pending, running, Answers, is_due, max_attempts, finished, retried, recover, run_job,
  send_actions,
}

abbrev is_pending : {R : Type 0} → Job R → Bool
is_pending job = elim job.status [ pending ↦ true | _ ↦ false ]

module _ {N R : Type 0} where
  -- A poll, and how its surroundings answer, seen from one job.
  abbrev pub poll_job : ℕ × Answers N R → Job R → Job R
  poll_job (now, A) job = if is_due now job then (run_job A now job).row else job

  -- Whether a poll starts to send the job's commands.
  abbrev pub starts : ℕ × Answers N R → Job R → Bool
  starts (now, A) job = is_due now job && A.saves job.id running

  unfoldable pub count_runs : List (ℕ × Answers N R) → Job R → ℕ
  count_runs [] job = 0
  count_runs (p ∷ polls) job =
      let rest = count_runs polls (poll_job p job) in if starts p job then suc rest else rest

  settled-runs :
      (polls : List (ℕ × Answers N R)) (job : Job R)
      → is_pending job ≡ false
      → count_runs polls job ≡ 0
  unfolding count_runs
  settled-runs [] job h = refl
  settled-runs ((now, A) ∷ polls) job h = ground (arith, settled-runs polls job h)

  retried-cases :
      (A : Answers N R) (now : ℕ) (job : Job R)
      → job.recurring ≡ false
      → let row = retried A now job in
        (row.recurring ≡ false)
        × ((is_pending row ≡ false) ⊎ ((row.attempts ≡ job.attempts + 1) × (job.attempts + 1 < 5)))
  unfolding retried
  retried-cases A now job once = elim (Bool-cases (leb max_attempts (job.attempts + 1))) [
    | inl last ↦ (ground (arith, last, once), inl (ground (arith, last)))
    | inr more ↦ (ground (arith, more, once), inr (ground (arith, more), ground (arith, more)))
  ]

  recover-cases :
      (A : Answers N R) (now : ℕ) (job : Job R) (commands : List _)
      → job.recurring ≡ false
      → let row = (recover A now job commands).row in
        (row.recurring ≡ false)
        × ((is_pending row ≡ false) ⊎ ((row.attempts ≡ job.attempts + 1) × (job.attempts + 1 < 5)))
  unfolding recover
  recover-cases A now job commands once =
      elim (Bool-cases (A.saves job.id (retried A now job).status)) [
        | inl saved ↦ rw saved (retried-cases A now job once)
        | inr lost ↦ rw lost (once, inl refl)
      ]

  run-cases :
      (A : Answers N R) (now : ℕ) (job : Job R)
      → job.recurring ≡ false
      → A.saves job.id running ≡ true
      → let row = (run_job A now job).row in
        (row.recurring ≡ false)
        × ((is_pending row ≡ false) ⊎ ((row.attempts ≡ job.attempts + 1) × (job.attempts + 1 < 5)))
  unfolding run_job
  run-cases A now job once saved =
      let sent = send_actions A job.payload job.payload.actions [] in
      let row : Job R = finished now job in
      let done : (row.recurring ≡ false) × (is_pending row ≡ false) =
        unfold finished in (ground (arith, once), ground (arith, once)) in
      elim (Bool-cases sent.threw) [
        | inl threw ↦ rw (saved, threw) (recover-cases A now job sent.commands once)
        | inr well ↦ elim (Bool-cases (A.saves job.id row.status)) [
          | inl kept ↦ rw (saved, well, kept) (done.0, inl done.1)
          | inr lost ↦ rw (saved, well, lost) (recover-cases A now job sent.commands once)
        ]
      ]

  idle-job :
      (A : Answers N R) (now : ℕ) (job : Job R)
      → A.saves job.id running ≡ false
      → (run_job A now job).row ≡ job
  unfolding run_job
  idle-job A now job lost = rw lost refl

  -- However the schema, the broker and the database answer from poll to poll, a job that does not recur, pending
  -- with fewer than five attempts, is run at most as often as it has attempts left of five.
  pub runs_bounded :
      (polls : List (ℕ × Answers N R)) (job : Job R)
      → job.recurring ≡ false
      → job.attempts < 5
      → count_runs polls job + job.attempts ≤ 5
  unfolding count_runs
  runs_bounded [] job once few = omega arith
  runs_bounded ((now, A) ∷ polls) job once few = elim (Bool-cases (is_due now job)) [
    | inr early ↦ ground (arith, early, runs_bounded polls job once few)
    | inl due ↦ elim (Bool-cases (A.saves job.id running)) [
      | inr lost ↦
          ground (arith, due, lost, idle-job A now job lost, runs_bounded polls job once few)
      | inl saved ↦
          let row = (run_job A now job).row in
          let (still, cases) = run-cases A now job once saved in
          elim cases [
            | inl settled ↦ ground (arith, due, saved, settled-runs polls row settled)
            | inr (more, left) ↦
                ground (arith, due, saved, runs_bounded polls row still (omega arith), more)
          ]
    ]
  ]
