-- ===== src/RequestContext/Commit.antt =====
-- Which requests change the database: requestContext/RequestContextService.go and its middlewares.
use holvit_backend.Prelude.{List, [], ◌∷◌, ◌≡◌, some, arith}
use holvit_backend.Go.{Error, Outcome, done, panicked, Go}
use holvit_backend.RequestContext.{
  Context, Mode, new_context, close, handle_error, handle_errors, http_answer, serve,
}

-- The error that a request with the recorded error `e` is answered with.
abbrev pub answered_error : Outcome (Unit {0}) → Error → Error
answered_error (done _) e = e
answered_error (panicked x) e = x

module _ {D : Type 0} (mode : Mode) where
  -- A request whose handler recorded an error, and then returned or panicked, changes nothing in the
  -- database, whatever it wrote through its transaction. It is answered with the first error that it
  -- recorded where it returned, and with what it panicked with where it panicked; where the handler
  -- had sent a status, that stays, and the text is added to what was sent.
  pub serve-rolls_back :
      (handler : Go (Context D) (Unit {0})) (db : D) (o : Outcome (Unit {0})) (c : Context D)
      (e : Error) (rest : List Error)
      → handler (new_context db) ≡ (o, c)
      → c.database ≡ db
      → c.errors ≡ e ∷ rest
      → ((serve mode handler db).database ≡ db)
        × ((serve mode handler db).response
            ≡ http_answer (handle_error mode (answered_error o e)) c.response)
  unfolding serve handle_errors close
  serve-rolls_back handler db (done u) c e rest h kept failed = rw h (ground arith)
  serve-rolls_back handler db (panicked x) c e rest h kept failed = rw h (ground arith)

  -- A handler that panics before it recorded an error is answered with what it panicked with,
  -- unless it had sent a status, and what it had written until then is committed.
  pub serve-commits_panic :
      (handler : Go (Context D) (Unit {0})) (db d : D) (c : Context D) (e : Error)
      → handler (new_context db) ≡ (panicked e, c)
      → c.tx ≡ some d
      → c.errors ≡ []
      → ((serve mode handler db).database ≡ d)
        × ((serve mode handler db).response ≡ http_answer (handle_error mode e) c.response)
  unfolding serve handle_errors close
  serve-commits_panic handler db d c e h began none_failed = rw h (ground arith)
