-- ===== src/Jobs/Table.antt =====
-- The table of queued jobs with one job in it, as `executeQueuedJobs` of services/JobService.go and
-- repos/QueuedJobRepository.go read and update it.
use holvit_backend.Prelude.{
  ℕ, suc, String, str_eq, List, [], ◌∷◌, ◌≡◌, refl, Bool, true, false, Option, none, some,
  if◌then◌else◌,
}
use holvit_backend.Go.{done, Go, Result, ok}
use holvit_backend.Filter.{negsuc}
use holvit_backend.Sqlb.Syntax.{string}
use holvit_backend.Sqlb.Query.{SqlQuery, build_query, render, itoa}
use holvit_backend.Sqlb.Writer.{
  write, append_param, build_fragments, build_with, build_where, build_having, fragments_from,
  conditions_from,
}
use holvit_backend.Sqlb.Build.{
  param_at, scan_runes, scan_tokens, build_columns, build_clause, build_bound, build_lock,
  build_select,
}
use holvit_backend.Tokens.Store.{Json}
use holvit_backend.Oidc.Grants.{contains}
use holvit_backend.Repos.Database.{
  Value, null, uuid, text, int, bytes, Database, answer, build_of_select, built,
}
use holvit_backend.Repos.Filters.{no_filter}
use holvit_backend.Repos.Jobs.{SendMailJobDetails, queued_jobs_query}
use holvit_backend.Jobs.Lifecycle.{JobRow, set_columns}

-- The statement that selects the jobs of a status which no other transaction has locked.
abbrev pub select_jobs : (status : String) → SqlQuery Value
select_jobs status = record {
  sql =
      "SELECT -1, id, status, type, details, failure_count, error FROM queued_jobs WHERE status = $1 FOR UPDATE SKIP LOCKED";
  parameters = string status ∷ [];
}

abbrev pub or_null : Option String → Value
or_null none = null
or_null (some s) = text s

-- The columns that the statement selects, for a job that sends a mail.
abbrev pub columns_of : (id : ℕ) (details : String) → JobRow → List Value
columns_of id details row =
    int (negsuc 0)
    ∷ uuid id
    ∷ text row.status
    ∷ text "send_mail"
    ∷ bytes details
    ∷ int row.failure_count
    ∷ or_null row.error
    ∷ []

abbrev pub rows_if : Bool → List Value → List (List Value)
rows_if b columns = if b then columns ∷ [] else []

module _ {W : Type 0} (db : Database W) (json : Json SendMailJobDetails)
    (send_mail : SendMailJobDetails → Go W (Result (Unit {0}))) (id : ℕ) (raw : String)
    (details : SendMailJobDetails) (row : W → JobRow) (sent : W → ℕ) where
  -- The lexer makes one token of a name, and five of the condition; the database selects the one job
  -- by its status and executes updates of it; the text of its details is valid; the sending of its
  -- mail returns, with an error or without, and is counted.
  pub record IsJobTable : Type 0 where
    pub names :
        (s : String)
        → contains
            ("-1" ∷ "id" ∷ "status" ∷ "type" ∷ "details" ∷ "failure_count" ∷ "error" ∷ "queued_jobs"
              ∷ [])
            s
          ≡ true
        → db.scan_all s ≡ record { is_operator = false; value = s } ∷ []
    pub condition :
        db.scan_all "status = ?"
        ≡ record { is_operator = false; value = "status" }
          ∷ record { is_operator = false; value = " " }
          ∷ record { is_operator = true; value = "=" }
          ∷ record { is_operator = false; value = " " }
          ∷ record { is_operator = true; value = "?" }
          ∷ []
    pub in_tx : (w : W) → db.get_tx w ≡ (done (ok tt), w)
    pub selects :
        (status : String) (w : W)
        → db.query (select_jobs status) w
          ≡ (answer (rows_if (str_eq (row w).status status) (columns_of id raw (row w))), w)
    pub unmarshals : json.unmarshal raw ≡ some details
    pub updates :
        (assigned : List (String × Value)) (w : W)
        → let r = db.exec (db.sqlbuilder_update "queued_jobs" assigned "id" (uuid id)) w in
          (r.0 ≡ answer tt) × (row r.1 ≡ set_columns assigned (row w)) × (sent r.1 ≡ sent w)
    pub sends :
        (w : W)
        → (result : Result (Unit {0})) × (((send_mail details w).0 ≡ done result)
            × (row (send_mail details w).1 ≡ row w)
            × (sent (send_mail details w).1 ≡ suc (sent w)))

  module _ (is_table : IsJobTable) where
    pub select_jobs_lem :
        build_of_select db (
          queued_jobs_query
            (record { base = no_filter; ignore_locked = true; status = some "pending" }))
        ≡ done (select_jobs "pending")
    unfolding build_query render itoa build_select scan_tokens scan_runes param_at build_columns
        build_clause build_bound build_lock build_with build_where build_having build_fragments
        fragments_from conditions_from write append_param queued_jobs_query built
    select_jobs_lem =
        rw
          (
            is_table.names "-1" refl,
            is_table.names "id" refl,
            is_table.names "status" refl,
            is_table.names "type" refl,
            is_table.names "details" refl,
            is_table.names "failure_count" refl,
            is_table.names "error" refl,
            is_table.names "queued_jobs" refl,
            is_table.condition,
          )
          refl
