-- ===== src/Repos/Jobs.antt =====
-- repos/QueuedJobRepository.go.
use holvit_backend.Prelude.{
  ℕ, String, str_eq, List, [], ◌∷◌, Bool, true, false, Option, none, some, if◌then◌else◌,
}
use holvit_backend.Go.{plain_error, Outcome, done, Go, ◌>>=◌, ◌>>◌, pure, panic, lift}
use holvit_backend.Filter.{ℤ, PagedResult, single_or_none}
use holvit_backend.Sqlb.Syntax.{string, value, SelectQuery}
use holvit_backend.Sqlb.Select.{add_from, add_where, set_lock}
use holvit_backend.Sqlb.Insert.{add_values, add_returning}
use holvit_backend.Repos.Database.{
  Value, uuid, text, int, bytes, Database, Row, selected, inserted, build_of_insert, execute,
  create,
}
use holvit_backend.Repos.Filters.{BaseFilter, by_id, count_col, if_some, page_and_sort}
use holvit_backend.Repos.Rows.{
  uuid_column, text_column, bytes_column, int_column, text_or_null, end_of_row, find_paged, columns,
  nullable_text, id_column,
}
use holvit_backend.Prelude.{◌++◌}
use holvit_backend.Repos.Realms.{assigned}
use holvit_backend.Tokens.Store.{Json}

-- `SendMailJobDetails`, the only type of details
pub record SendMailJobDetails : Type 0 where
  pub to : List String
  pub cc : List String
  pub bcc : List String
  pub subject : String
  pub body : String

pub record QueuedJob : Type 0 where
  pub id : ℕ
  pub status : String
  pub job_type : String
  pub details : SendMailJobDetails
  pub failure_count : ℤ
  pub error : Option String

pub record QueuedJobFilter : Type 0 where
  pub base : BaseFilter
  pub ignore_locked : Bool
  pub status : Option String

pub record QueuedJobUpdate : Type 0 where
  pub status : Option String
  pub failure_count : Option ℤ
  pub error : Option String

-- the query of `FindQueuedJobs`
unfoldable pub queued_jobs_query : QueuedJobFilter → Outcome (SelectQuery Value)
unfolding selected add_from add_where set_lock page_and_sort
queued_jobs_query filter =
    selected (string (if filter.ignore_locked then "-1" else count_col filter.base))
      (columns ("id" ∷ "status" ∷ "type" ∷ "details" ∷ "failure_count" ∷ "error" ∷ []))
      (do
        add_from (string "queued_jobs")
        if_some filter.base.id λ x. add_where (string "id = ?") (value (uuid x) ∷ [])
        if_some filter.status λ x. add_where (string "status = ?") (string x ∷ [])
        page_and_sort filter.base
        if filter.ignore_locked then set_lock true else pure tt)

unfoldable pub job_assignments : QueuedJobUpdate → List (String × Value)
job_assignments upd =
    assigned "status" text upd.status
    ++ (assigned "error" text upd.error ++ assigned "failure_count" int upd.failure_count)

-- `FromRawMessage(...).Unwrap()`
abbrev pub from_raw_message : {A : Type 0} → Json A → String → Row A
from_raw_message json message = elim (json.unmarshal message) [
  | none ↦ panic (plain_error "invalid JSON")
  | some a ↦ pure a
]

module _ (json : Json SendMailJobDetails) where
  -- `switch row.Type`; another type ends the program, as a panic here.
  abbrev job_details : (job_type details_raw : String) → Row SendMailJobDetails
  job_details job_type details_raw =
      if str_eq job_type "send_mail"
      then from_raw_message json details_raw
      else panic (plain_error "Unsupported job type")

  unfoldable pub scan_queued_job : Row (ℤ × QueuedJob)
  scan_queued_job = do
    total ← int_column
    id ← uuid_column
    status ← text_column
    job_type ← text_column
    details_raw ← bytes_column
    failure_count ← int_column
    error ← text_or_null
    end_of_row
    details ← job_details job_type details_raw
    pure (
      total,
      record {
        id = id;
        status = status;
        job_type = job_type;
        details = details;
        failure_count = failure_count;
        error = error;
      },
    )

  module _ {W : Type 0} (db : Database W) where
    -- `FindQueuedJobs`
    unfoldable pub find_queued_jobs : QueuedJobFilter → Go W (PagedResult QueuedJob)
    unfolding find_paged queued_jobs_query scan_queued_job
    find_queued_jobs filter = find_paged db (queued_jobs_query filter) scan_queued_job

    -- `FindQueuedJobById`
    unfoldable pub find_queued_job_by_id : ℕ → Go W (Option QueuedJob)
    unfolding find_queued_jobs
    find_queued_job_by_id id = do
      found ← find_queued_jobs (record { base = by_id id; ignore_locked = false; status = none })
      lift (single_or_none found.values)

    -- `CreateQueuedJob`
    unfoldable pub create_queued_job : QueuedJob → Go W ℕ
    unfolding create
    create_queued_job job = create db (
        build_of_insert db (
          inserted "queued_jobs" ("status" ∷ "type" ∷ "details" ∷ "failure_count" ∷ "error" ∷ [])
            (do
              add_values (
                  string job.status
                  ∷ string job.job_type
                  ∷ value (bytes (json.marshal job.details))
                  ∷ value (int job.failure_count)
                  ∷ nullable_text job.error
                  ∷ [])
              add_returning id_column)))

module _ {W : Type 0} (db : Database W) where
  -- `UpdateQueuedJob`
  unfoldable pub update_queued_job : ℕ → QueuedJobUpdate → Go W (Unit {0})
  unfolding execute job_assignments
  update_queued_job id upd =
      execute db (done (db.sqlbuilder_update "queued_jobs" (job_assignments upd) "id" (uuid id)))
