-- ===== src/Jobs/Lifecycle.antt =====
-- A job from its creation on: the updates of services/JobService.go on a row of `queued_jobs`.
use holvit_backend.Prelude.{
  ℕ, zero, suc, ◌+◌, ◌≤◌, ◌<◌, ◌==◌, ◌∙◌, ap, String, str_eq, List, [], ◌∷◌, false, Option, none,
  some, length, if◌then◌else◌, ◌≡◌, refl, ◌⊎◌, inl, inr, arith,
}
use holvit_backend.Go.{Error, Result, ok, err}
use holvit_backend.Filter.{ℤ, pos}
use holvit_backend.Repos.Database.{Value, text, int}
use holvit_backend.Repos.Jobs.{job_assignments}
use holvit_backend.Jobs.{job_update, error_text}

-- The columns of a row that the updates change.
pub record JobRow : Type 0 where
  pub status : String
  pub failure_count : ℤ
  pub error : Option String

-- `UPDATE ... SET`: each column that is named takes its value.
abbrev set_column : String × Value → JobRow → JobRow
set_column (column, text s) row =
    if str_eq column "status"
    then record row { status = s }
    else if str_eq column "error"
    then record row { error = some s }
    else row
set_column (column, int n) row =
    if str_eq column "failure_count" then record row { failure_count = n } else row
set_column (column, _) row = row

abbrev pub set_columns : List (String × Value) → JobRow → JobRow
set_columns [] row = row
set_columns (c ∷ cols) row = set_columns cols (set_column c row)

-- What a run of `executeQueuedJobs` comes to for the row, where the execution of the job would end
-- so; the number says how often the job is executed. Runs has the runs themselves.
unfoldable pub pass : Result (Unit {0}) → JobRow → ℕ × JobRow
unfolding job_update job_assignments
pass result row =
    if str_eq row.status "pending"
    then (1, set_columns (job_assignments (job_update row.failure_count result)) row)
    else (0, row)

unfoldable pub passes : List (Result (Unit {0})) → JobRow → ℕ × JobRow
unfolding pass
passes [] row = (0, row)
passes (r ∷ rs) row =
    let (n, row') = pass r row in let (m, row'') = passes rs row' in (n + m, row'')

-- The row that `QueueJob` creates.
abbrev pub queued : JobRow
queued = record { status = "pending"; failure_count = pos 0; error = none }

-- A job that is pending after `n` failures, or that is done with for good.
PendingAfter : ℕ → JobRow → Type 0
PendingAfter n row = (row.status ≡ "pending") × (row.failure_count ≡ pos n)

abbrev pub IsSettled : JobRow → Type 0
IsSettled row = (row.status ≡ "completed") ⊎ (row.status ≡ "failed")

pass-settled : (r : Result (Unit {0})) (row : JobRow) → IsSettled row → pass r row ≡ (0, row)
unfolding pass
pass-settled r row (inl e) = rw e refl
pass-settled r row (inr e) = rw e refl

passes-settled :
    (rs : List (Result (Unit {0}))) (row : JobRow) → IsSettled row → passes rs row ≡ (0, row)
unfolding passes
passes-settled [] row h = refl
passes-settled (r ∷ rs) row h = rw (pass-settled r row h, passes-settled rs row h) refl

pass-ok :
    (row : JobRow) (n : ℕ) (u : Unit {0})
    → PendingAfter n row
    → pass (ok u) row ≡ (1, record row { status = "completed" })
unfolding pass PendingAfter
pass-ok row n u (pending, count) = rw pending refl

-- The fourth failure is the last one.
pass-err-last :
    (row : JobRow) (e : Error)
    → PendingAfter 3 row
    → pass (err e) row
      ≡ (1, record { status = "failed"; failure_count = pos 4; error = some (error_text e) })
unfolding pass PendingAfter
pass-err-last row e (pending, count) = rw (pending, count) refl

not_three : (n : ℕ) → n < 3 → (n == 3) ≡ false
not_three n h = ground arith

not_last : (n : ℕ) → n < 3 → (n == 9223372036854775807) ≡ false
not_last n h = ground arith

abbrev failed_once : ℕ → Error → JobRow
failed_once n e = record {
  status = "pending";
  failure_count = pos (suc n);
  error = some (error_text e);
}

pass-err :
    (row : JobRow) (n : ℕ) (e : Error)
    → n < 3
    → PendingAfter n row
    → pass (err e) row ≡ (1, failed_once n e)
unfolding pass PendingAfter
pass-err row n e less (pending, count) = rw (pending, count, not_three n less, not_last n less) refl

-- What `k` more failures than one leave of a job: it is executed at most once more than that, and
-- after as many passes it is settled.
abbrev Ends : ℕ → List (Result (Unit {0})) → ℕ × JobRow → Type 0
Ends k rs (n, row) = (n ≤ suc k) × (k < length rs → IsSettled row)

Ends-settled :
    (k : ℕ) (rs : List (Result (Unit {0}))) (row row' : JobRow) (r : Result (Unit {0}))
    → pass r row ≡ (1, row')
    → IsSettled row'
    → Ends k (r ∷ rs) (passes (r ∷ rs) row)
unfolding passes
Ends-settled k rs row row' r p h = rw (p, passes-settled rs row' h) (omega arith, λ _. h)

passes-Ends :
    (rs : List (Result (Unit {0}))) (k n : ℕ) (row : JobRow)
    → n + k ≡ 3
    → PendingAfter n row
    → Ends k rs (passes rs row)
unfolding passes PendingAfter
passes-Ends [] k n row budget h = (omega arith, λ l. absurd (omega arith))
passes-Ends (ok u ∷ rs) k n row budget h =
    Ends-settled k rs row _ (ok u) (pass-ok row n u h) (inl refl)
passes-Ends (err e ∷ rs) zero n row budget h =
    Ends-settled zero rs row _ (err e) (pass-err-last row e (h.0, h.1 ∙ ap pos (omega arith)))
      (inr refl)
passes-Ends (err e ∷ rs) (suc k) n row budget h =
    let next : Ends k rs (passes rs (failed_once n e)) =
      passes-Ends rs k (suc n) (failed_once n e) (omega arith) (refl, refl) in
    rw (pass-err row n e (omega arith) h) (omega (arith, next.0), λ l. next.1 (omega arith))

-- Whatever its executions give, a job is executed at most four times; after four passes it is
-- completed or failed, and a pass changes it no more.
pub passes_bounds :
    (rs : List (Result (Unit {0})))
    → ((passes rs queued).0 ≤ 4) × (4 ≤ length rs → IsSettled (passes rs queued).1)
unfolding PendingAfter
passes_bounds rs =
    let ends = passes-Ends rs 3 0 queued refl (refl, refl) in (ends.0, λ l. ends.1 (omega arith))

-- A job that is completed or failed is executed no more, and its row stays as it is.
pub settled_stays :
    (rs : List (Result (Unit {0}))) (row : JobRow) → IsSettled row → passes rs row ≡ (0, row)
settled_stays rs row h = passes-settled rs row h
