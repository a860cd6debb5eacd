-- ===== src/Jobs/Runs.antt =====
-- The runs of `executeQueuedJobs` of services/JobService.go over a table with one job.
use holvit_backend.Prelude.{
  ℕ, zero, suc, ◌+◌, ◌≤◌, String, str_eq, List, [], ◌∷◌, length, ◌≡◌, refl, ap, ◌∙◌, Bool, true,
  false, Option, none, some, arith, if◌then◌else◌,
}
use holvit_backend.Go.{Outcome, done, Go, Result, ok, ◌>>◌, pure}
use holvit_backend.Filter.{ℤ, pos, negsuc}
use holvit_backend.Tokens.Store.{Json}
use holvit_backend.Repos.Database.{Database, execute}
use holvit_backend.Repos.Filters.{no_filter}
use holvit_backend.Repos.Rows.{find_paged, scan_rows, paged_rows}
use holvit_backend.Repos.Jobs.{
  SendMailJobDetails, QueuedJob, job_assignments, scan_queued_job, find_queued_jobs,
  update_queued_job,
}
use holvit_backend.Jobs.{job_update, execute_jobs, execute_queued_jobs}
use holvit_backend.Jobs.Lifecycle.{
  JobRow, set_columns, pass, passes, passes_bounds, queued, IsSettled,
}
use holvit_backend.Jobs.Table.{IsJobTable, columns_of, rows_if, select_jobs_lem}

-- The job that is scanned from the columns.
abbrev job_of : ℕ → SendMailJobDetails → JobRow → QueuedJob
job_of id details row = record {
  id = id;
  status = row.status;
  job_type = "send_mail";
  details = details;
  failure_count = row.failure_count;
  error = row.error;
}

abbrev jobs_if : Bool → QueuedJob → List QueuedJob
jobs_if b job = if b then job ∷ [] else []

one_more : (n : ℕ) → suc n ≡ 1 + n
one_more n = omega arith

add_first : (k m n total : ℕ) → total ≡ k + (m + n) → total ≡ (m + k) + n
add_first k m n total h = omega arith

at_most_four : (m n total : ℕ) → total ≡ m + n → m ≤ 4 → total ≤ 4 + n
at_most_four m n total h less = omega arith

module _ {W : Type 0} (db : Database W) (json : Json SendMailJobDetails)
    (send_mail : SendMailJobDetails → Go W (Result (Unit {0}))) where
  -- `executeQueuedJobs`, so many times in a row
  pub runs : ℕ → Go W (Unit {0})
  unfolding execute_queued_jobs
  runs zero = pure tt
  runs (suc n) = do execute_queued_jobs db json send_mail; runs n

  module _ (id : ℕ) (raw : String) (details : SendMailJobDetails) (row : W → JobRow) (sent : W → ℕ)
      (is_table : IsJobTable db json send_mail id raw details row sent) where
    scanned_row :
        (status : String) (count : ℤ) (e : Option String)
        → let r : JobRow = record { status = status; failure_count = count; error = e } in
          scan_rows (scan_queued_job json) (columns_of id raw r ∷ [])
          ≡ done ((negsuc 0, job_of id details r) ∷ [])
    unfolding scan_rows scan_queued_job
    scanned_row status count none = rw (scan_rows, is_table.unmarshals) refl
    scanned_row status count (some x) = rw (scan_rows, is_table.unmarshals) refl

    scanned_rows :
        (b : Bool) (r : JobRow)
        → scan_rows (scan_queued_job json) (rows_if b (columns_of id raw r))
          ≡ done (if b then (negsuc 0, job_of id details r) ∷ [] else [])
    unfolding scan_rows scan_queued_job
    scanned_rows false r = refl
    scanned_rows true r = scanned_row r.status r.failure_count r.error

    found_jobs :
        (w : W) (b : Bool)
        → str_eq (row w).status "pending" ≡ b
        → (total : ℤ) × (find_queued_jobs json db
              (record { base = no_filter; ignore_locked = true; status = some "pending" })
              w
            ≡ (
              done (record { values = jobs_if b (job_of id details (row w)); total_count = total }),
              w,
            ))
    unfolding find_queued_jobs find_paged paged_rows
    found_jobs w true e = (
      negsuc 0,
      rw
          (
            is_table.in_tx,
            select_jobs_lem db json send_mail id raw details row sent is_table,
            is_table.selects,
            e,
            scanned_rows true,
          )
          refl,
    )
    found_jobs w false e = (
      pos 0,
      rw
          (
            is_table.in_tx,
            select_jobs_lem db json send_mail id raw details row sent is_table,
            is_table.selects,
            e,
          )
          refl,
    )

    -- What one run does to the row and to the number of mails is one pass over the row.
    IsPass : W → Result (Unit {0}) → Outcome (Unit {0}) × W → Type 0
    IsPass w result (o, w') =
        (o ≡ done tt)
        × (sent w' ≡ (pass result (row w)).0 + sent w)
        × (row w' ≡ (pass result (row w)).1)

    idle :
        (w : W)
        → str_eq (row w).status "pending" ≡ false
        → IsPass w (ok tt) (execute_jobs db json send_mail [] w)
    unfolding IsPass pass execute_jobs
    idle w e = (refl, (rw e (omega arith)), (rw e refl))

    execute_one :
        (w : W)
        → str_eq (row w).status "pending" ≡ true
        → (result : Result (Unit {0})) × IsPass w result
            (execute_jobs db json send_mail (job_of id details (row w) ∷ []) w)
    unfolding IsPass pass execute_jobs update_queued_job execute
    execute_one w pending =
        let (result, (returned, same, counted)) = is_table.sends w in
        let upd = job_assignments (job_update (row w).failure_count result) in
        let (answered, changed, unsent) = is_table.updates upd (send_mail details w).1 in
        (
          result,
          (
            rw (returned, is_table.in_tx, answered) refl,
            (rw (returned, is_table.in_tx, answered, pending)
                (unsent ∙ counted ∙ one_more (sent w))),
            (rw (returned, is_table.in_tx, answered, pending)
                (changed ∙ ap (set_columns upd) same)),
          ),
        )

    run-IsPass :
        (w : W) (b : Bool)
        → str_eq (row w).status "pending" ≡ b
        → (result : Result (Unit {0})) × IsPass w result (execute_queued_jobs db json send_mail w)
    unfolding execute_queued_jobs
    run-IsPass w true e = rw (found_jobs w true e).1 (execute_one w e)
    run-IsPass w false e = (ok tt, rw (found_jobs w false e).1 (idle w e))

    -- So many runs are as many passes.
    runs-passes :
        (n : ℕ) (w : W)
        → (results : List (Result (Unit {0}))) × ((length results ≡ n)
            × ((runs n w).0 ≡ done tt)
            × (sent (runs n w).1 ≡ (passes results (row w)).0 + sent w)
            × (row (runs n w).1 ≡ (passes results (row w)).1))
    unfolding runs passes IsPass
    runs-passes zero w = ([], (refl, refl, omega arith, refl))
    runs-passes (suc n) w =
        let (r, (ended, counted, changed)) = run-IsPass w _ refl in
        let (rs, (l, done_all, counts, changes)) =
          runs-passes n (execute_queued_jobs db json send_mail w).1 in
        (
          r ∷ rs,
          (
            ap suc l,
            (rw ended done_all),
            (rw ended (add_first _ _ _ _ (rw (changed, counted) at counts))),
            (rw ended (rw changed at changes)),
          ),
        )

    -- Where the database and the lexer are as `IsJobTable` says, with one job that was just queued,
    -- and each sending of its mail returns, with an error or without: every run of
    -- `executeQueuedJobs` returns, all runs together send the mail at most four times, and after
    -- four runs the job is completed or failed.
    pub runs_bounds :
        (n : ℕ) (w : W)
        → row w ≡ queued
        → ((runs n w).0 ≡ done tt)
          × (sent (runs n w).1 ≤ 4 + sent w)
          × (4 ≤ n → IsSettled (row (runs n w).1))
    runs_bounds n w start =
        let (results, (l, ended, counted, changed)) = runs-passes n w in
        let (at_most, settled) = passes_bounds results in
        (
          ended,
          at_most_four _ _ _ (rw start at counted) at_most,
          λ four. rw (changed, start) (settled (rw l four)),
        )
