-- ===== src/Jobs.antt =====
-- Queued jobs: services/JobService.go.
pub mod Lifecycle
pub mod Runs
pub mod Table
use holvit_backend.Prelude.{
  ℕ, zero, suc, String, str_eq, str_append, List, [], ◌∷◌, Bool, true, false, Option, none, some,
  if◌then◌else◌, ◌==◌,
}
use holvit_backend.Go.{
  Error, http_error, plain_error, Go, Result, ok, err, ◌>>=◌, ◌>>◌, pure, panic,
}
use holvit_backend.Filter.{ℤ, pos, negsuc}
use holvit_backend.Sqlb.Query.{itoa}
use holvit_backend.Tokens.Store.{Json}
use holvit_backend.Repos.Database.{Database}
use holvit_backend.Repos.Filters.{no_filter}
use holvit_backend.Repos.Jobs.{
  SendMailJobDetails, QueuedJob, QueuedJobUpdate, find_queued_jobs, create_queued_job,
  update_queued_job,
}

-- `error.Error()`
unfoldable pub error_text : Error → String
unfolding itoa
error_text (http_error status message) =
    let prefix = str_append "HttpError_(" (str_append (itoa status) ")") in
    if str_eq message "" then prefix else str_append prefix (str_append ": " message)
error_text (plain_error message) = message

-- `n + 1` and `n == 3` of an `int`, which has 64 bits
abbrev pub increment : ℤ → ℤ
increment (pos n) = if n == 9223372036854775807 then negsuc 9223372036854775807 else pos (suc n)
increment (negsuc zero) = pos 0
increment (negsuc (suc n)) = negsuc n

abbrev is_three : ℤ → Bool
is_three (pos n) = n == 3
is_three (negsuc n) = false

-- The update of a job after its execution.
unfoldable pub job_update : (failure_count : ℤ) → Result (Unit {0}) → QueuedJobUpdate
unfolding error_text
job_update failure_count (ok _) = record {
  status = some "completed";
  failure_count = none;
  error = none;
}
job_update failure_count (err e) = record {
  status = some (if is_three failure_count then "failed" else "pending");
  failure_count = some (increment failure_count);
  error = some (error_text e);
}

module _ {W : Type 0} (db : Database W) (json : Json SendMailJobDetails)
    (send_mail : SendMailJobDetails → Go W (Result (Unit {0}))) where
  -- `executors[job.Type].Execute`; there is no executor of another type, and its call panics.
  abbrev execute_details : QueuedJob → Go W (Result (Unit {0}))
  execute_details job =
      if str_eq job.job_type "send_mail"
      then send_mail job.details
      else panic (plain_error "invalid memory address or nil pointer dereference")

  -- the loop over the jobs
  unfoldable pub execute_jobs : List QueuedJob → Go W (Unit {0})
  unfolding update_queued_job job_update
  execute_jobs [] = pure tt
  execute_jobs (job ∷ jobs) = do
    result ← execute_details job
    update_queued_job db job.id (job_update job.failure_count result)
    execute_jobs jobs

  -- `executeQueuedJobs`, inside of `RunWithScope`
  unfoldable pub execute_queued_jobs : Go W (Unit {0})
  unfolding find_queued_jobs execute_jobs
  execute_queued_jobs = do
    queued_jobs ←
        find_queued_jobs json db
          (record { base = no_filter; ignore_locked = true; status = some "pending" })
    execute_jobs queued_jobs.values

  -- What `QueueJob` gives to `OnAfterTx`, by whether the transaction was committed.
  abbrev after_tx : (commit : Bool) → Go W (Unit {0})
  unfolding execute_queued_jobs
  after_tx commit = if commit then execute_queued_jobs else pure tt

  -- `QueueJob`; its result is the handler that it registers.
  unfoldable pub queue_job : SendMailJobDetails → Go W ((commit : Bool) → Go W (Unit {0}))
  unfolding create_queued_job execute_queued_jobs
  queue_job details = do
    id ← create_queued_job json db (record {
      id = 0;
      status = "pending";
      job_type = "send_mail";
      details = details;
      failure_count = pos 0;
      error = none;
    })
    pure after_tx
