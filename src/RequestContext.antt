-- ===== src/RequestContext.antt =====
-- The transaction and the errors of one request: requestContext/RequestContextService.go, and
-- what the middlewares of middlewares/ErrorHandlingMiddleware.go and middlewares/ScopeMiddleware.go
-- do around a handler. Beginning, committing and rolling back a transaction do not fail.
pub mod Commit
use holvit_backend.Prelude.{
  ℕ, String, List, [], ◌∷◌, ◌++◌, Bool, true, false, ◌&&◌, ◌==◌, Option, none, some, str_append,
  if◌then◌else◌,
}
use holvit_backend.Go.{Error, http_error, plain_error, Outcome, done, panicked, Go}

-- `AfterTxEventArgs`
pub record AfterTxEventArgs : Type 0 where
  pub commit : Bool
  pub rollback : Bool

-- `RequestContextServiceImpl`, with the database that others see: `tx` is what the transaction
-- sees, once there is one. The answer is the status and the body that were sent.
pub record Context (D : Type 0) : Type 0 where
  pub database : D
  pub tx : Option D
  pub errors : List Error
  pub published : List AfterTxEventArgs
  pub response : Option (ℕ × String)

-- `IsProduction` and `IsDevelopment` of the configuration
pub record Mode : Type 0 where
  pub production : Bool
  pub development : Bool

module _ {D : Type 0} where
  -- `NewRequestContextService`
  abbrev pub new_context : D → Context D
  new_context db = record { database = db; tx = none; errors = []; published = []; response = none }

  abbrev pub begun : D → Option D → D
  begun db none = db
  begun db (some d) = d

  -- `GetTx`
  unfoldable pub get_tx : Go (Context D) D
  get_tx c = let d = begun c.database c.tx in (done d, record c { tx = some d })

  -- a statement of the transaction that writes
  unfoldable pub exec : (D → D) → Go (Context D) (Unit {0})
  exec f c = (done tt, record c { tx = some (f (begun c.database c.tx)) })

  -- `Error`
  unfoldable pub add_error : Error → Go (Context D) (Unit {0})
  add_error e c = (done tt, record c { errors = c.errors ++ e ∷ [] })

  -- what `Close` does with a transaction, by the errors
  abbrev finish_tx : D → List Error → Context D → Context D
  finish_tx d [] c = record c {
    database = d;
    published = c.published ++ record { commit = true; rollback = false } ∷ [];
  }
  finish_tx d (_ ∷ _) c = record c {
    published = c.published ++ record { commit = false; rollback = true } ∷ [];
  }

  -- `Close`
  unfoldable pub close : Context D → Context D
  close c = elim c.tx [
    | none ↦ record c {
      published = c.published ++ record { commit = false; rollback = false } ∷ [];
    }
    | some d ↦ finish_tx d c.errors c
  ]

-- `handleError`: the status and the text of the answer
unfoldable pub handle_error : Mode → Error → ℕ × String
handle_error mode (http_error status message) =
    (status, if mode.production && status == 401 then "" else message)
handle_error mode (plain_error message) =
    (500, if mode.development then message else "An internal server error occurred")

-- `http.Error`: a status that was sent before stays, and the text is added to what was sent.
abbrev pub http_answer : ℕ × String → Option (ℕ × String) → Option (ℕ × String)
http_answer (status, message) none = some (status, str_append message "\n")
http_answer (status, message) (some (sent, body)) =
    some (sent, str_append body (str_append message "\n"))

abbrev first_error : Mode → List Error → Option (ℕ × String) → Option (ℕ × String)
first_error mode [] response = response
first_error mode (e ∷ _) response = http_answer (handle_error mode e) response

module _ {D : Type 0} (mode : Mode) where
  -- the end of `ErrorHandlingMiddleware`, whose deferred function recovers a panic
  abbrev pub handled : Outcome (Unit {0}) → Context D → Context D
  handled (panicked e) c = record c { response = http_answer (handle_error mode e) c.response }
  handled (done _) c = record c { response = first_error mode c.errors c.response }

  -- `ErrorHandlingMiddleware`
  unfoldable pub handle_errors : Go (Context D) (Unit {0}) → Context D → Context D
  unfolding handle_error
  handle_errors handler c = let (o, c') = handler c in handled o c'

  -- `ScopeMiddleware` around it: a new scope, which is closed at the end
  unfoldable pub serve : Go (Context D) (Unit {0}) → D → Context D
  unfolding handle_errors close
  serve handler db = close (handle_errors handler (new_context db))
