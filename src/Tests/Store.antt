-- ===== src/Tests/Store.antt =====
-- A database for the tests, which keeps the statements that it is sent.
use holvit_backend.Prelude.{List, [], ◌∷◌, ◌++◌, str_append}
use holvit_backend.Go.{done, ok}
use holvit_backend.Sqlb.Syntax.{value}
use holvit_backend.Sqlb.Query.{SqlQuery}
use holvit_backend.Repos.Database.{Value, Database, answer}
use holvit_backend.Tests.Queries.{lex}

abbrev pub Log : Type 0
Log = List (SqlQuery Value)

-- Every query is answered with these rows.
abbrev pub recorder : List (List Value) → Database Log
recorder rows = record {
  get_tx = λ w. (done (ok tt), w);
  now = λ w. 100;
  scan_all = lex;
  query = λ q w. (answer rows, w ++ q ∷ []);
  query_row = λ q w. (answer 1, w ++ q ∷ []);
  exec = λ q w. (answer tt, w ++ q ∷ []);
  sqlbuilder_update =
      λ table cols column v. record { sql = str_append "UPDATE " table; parameters = value v ∷ [] };
  sqlbuilder_delete =
      λ table column v. record { sql = str_append "DELETE FROM " table; parameters = value v ∷ [] };
  sqlbuilder_insert =
      λ table cols rows. record { sql = str_append "INSERT INTO " table; parameters = [] };
}
