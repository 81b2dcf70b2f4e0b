-- ===== src/Bots/Scheduler/Due.antt =====
-- Which jobs a poll touches.
use mqtt_chat.Base.{
  ℕ, String, Bool, false, not, ◌&&◌, List, [], ◌∷◌, ◌++◌, filter, find, any, take, ◌==◌, string_eq,
  ◌≡◌, refl, arith, Bool-cases, inl, inr, count-take-le, count-filter, any-count, count-any,
}
use mqtt_chat.Store.Order.{IsOrderBy}
use mqtt_chat.Bots.Scheduler.{
  Job, Answers, is_due, set_row, due_jobs, run_jobs, run_job, recover, retried, finished,
  process_due_jobs, BotCommand,
}

module _ {N R : Type 0} (A : Answers N R) (now : ℕ) where
  run-id : (job : Job R) → (run_job A now job).row.id ≡ job.id
  unfolding run_job recover retried finished
  run-id job = ground arith

  find-set_row :
      (k : String) (row : Job R) (table : List (Job R))
      → (row.id == k) ≡ false
      → find (λ (j : Job R). j.id == k) (set_row row table) ≡ find (λ (j : Job R). j.id == k) table
  find-set_row k row [] other = refl
  find-set_row k row (j ∷ table) other = ground (arith, find-set_row k row table other)

  find-run_jobs :
      (k : String) (jobs table : List (Job R)) (commands : List BotCommand)
      → any (λ (j : Job R). j.id == k) jobs ≡ false
      → find (λ (j : Job R). j.id == k) (run_jobs A now jobs (table, commands)).0
        ≡ find (λ (j : Job R). j.id == k) table
  unfolding run_jobs
  find-run_jobs k [] table commands h = refl
  find-run_jobs k (job ∷ jobs) table commands h =
      let r = run_job A now job in
      ground (
        arith,
        run-id job,
        find-set_row k r.row table,
        find-run_jobs k jobs (set_row r.row table) (commands ++ r.commands),
      )

  -- A poll leaves alone every row that is not PENDING, or whose time has not come, or that another transaction locks.
  -- In particular it leaves a row that is RUNNING.
  pub undue_untouched :
      (order : List (Job R) → List (Job R)) (locked : Job R → Bool) (table : List (Job R))
      (k : String)
      → IsOrderBy (λ (j : Job R). j.run_at) order
      → any (λ j. j.id == k && (is_due now j && not (locked j))) table ≡ false
      → find (λ (j : Job R). j.id == k) (process_due_jobs A order locked now table).0
        ≡ find (λ (j : Job R). j.id == k) table
  unfolding process_due_jobs due_jobs
  undue_untouched order locked table k sorts undue =
      let due = λ (j : Job R). is_due now j && not (locked j) in
      let has_id = λ (j : Job R). j.id == k in
      let rows = order (filter due table) in
      let none_due : any has_id (take 10 rows) ≡ false =
        elim (Bool-cases (any has_id (take 10 rows))) [
          | inr none_there ↦ none_there
          | inl some_there ↦ absurd (
              omega (
                arith,
                any-count has_id (take 10 rows) some_there,
                count-take-le has_id 10 rows,
                sorts.same_rows has_id (filter due table),
                count-filter has_id due table,
                count-any (λ j. has_id j && due j) table undue,
              ))
        ] in
      find-run_jobs k (take 10 rows) table [] none_due
