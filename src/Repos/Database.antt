-- ===== src/Repos/Database.antt =====
-- The database as the repositories see it: the transaction's methods, the values that go in and out,
-- repos/errors.go, and the steps that each method of a repository takes.
use holvit_backend.Prelude.{ℕ, String, str_eq, List, Bool, ◌&&◌, if◌then◌else◌}
use holvit_backend.Go.{
  Error, plain_error, Outcome, done, panicked, Go, Result, ok, err, ◌>>=◌, ◌>>◌, pure, lift,
  unwrap_result,
}
use holvit_backend.Filter.{ℤ}
use holvit_backend.Sqlb.Syntax.{Any, SelectQuery, no_fragments}
use holvit_backend.Sqlb.Writer.{Build}
use holvit_backend.Sqlb.Query.{SqlQuery, build_query}
use holvit_backend.Sqlb.Build.{Token, build_select}
use holvit_backend.Sqlb.Select
use holvit_backend.Sqlb.Insert
use holvit_backend.Sqlb.Insert.{InsertQuery}
use holvit_backend.Sqlb.Insert.Build.{build_insert}
use holvit_backend.Sqlb.Update
use holvit_backend.Sqlb.Update.{UpdateQuery, build_update}
use holvit_backend.Sqlb.Delete
use holvit_backend.Sqlb.Delete.{DeleteQuery, build_delete}

-- What the database takes and gives; ids and times are numbers, JSON and addresses are texts.
-- `uuids` and `texts` are what `pq.Array` makes of a slice; `string_slice` is a slice as it is.
pub data Value : Type 0 where
  null : Value
  uuid : ℕ → Value
  text : String → Value
  int : ℤ → Value
  bool : Bool → Value
  time : ℕ → Value
  uuids : List ℕ → Value
  texts : List String → Value
  string_slice : List String → Value
  bytes : String → Value

-- An `error` of the driver: `*pq.Error` with its code, the code's name, its constraint and its text,
-- or some other error.
pub data DbError : Type 0 where
  pq_error : (code name constraint message : String) → DbError
  other_error : Error → DbError

pub data DbResult {ℓ} (A : Type ℓ) : Type ℓ where
  answer : A → DbResult A
  refused : DbError → DbResult A

abbrev pub error_of : DbError → Error
error_of (pq_error code name constraint message) = plain_error message
error_of (other_error e) = e

-- `mapCustomErrorCodes`
abbrev pub map_custom_error_codes : DbError → Error
map_custom_error_codes (pq_error code name constraint message) =
    if str_eq code "VV001" then plain_error "Realms do not match" else plain_error message
map_custom_error_codes (other_error e) = e

-- The transaction of a request and the libraries, over a world `W`: `GetTx`; the lexer; `tx.Query`
-- with the rows that are read from it, `tx.QueryRow` with the id that is scanned, `tx.Exec`; and
-- the statements of the package `go-sqlbuilder`, which tests one column for equality.
pub record Database (W : Type 0) : Type 0 where
  pub get_tx : Go W (Result (Unit {0}))
  pub now : W → ℕ
  pub scan_all : String → List Token
  pub query : SqlQuery Value → W → DbResult (List (List Value)) × W
  pub query_row : SqlQuery Value → W → DbResult ℕ × W
  pub exec : SqlQuery Value → W → DbResult (Unit {0}) × W
  pub sqlbuilder_update :
      (table : String) (assigned : List (String × Value)) (column : String) → Value → SqlQuery Value
  pub sqlbuilder_delete : (table column : String) → Value → SqlQuery Value
  pub sqlbuilder_insert :
      (table : String) (cols : List String) (rows : List (List Value)) → SqlQuery Value

module _ {S : Type 0} where
  abbrev pub end_of : Outcome (Unit {0}) × S → Outcome S
  end_of (done _, s) = done s
  end_of (panicked e, s) = panicked e

module _ {A B : Type 0} where
  abbrev pub after : Outcome A → (A → Outcome B) → Outcome B
  after (done a) go_on = go_on a
  after (panicked e) go_on = panicked e

-- `sqlb.Select(col, cols...)`, and the methods that are called on it
unfoldable pub selected :
    Any Value → List (Any Value) → Select.Method Value → Outcome (SelectQuery Value)
unfolding Select.select_from
selected col cols setup =
    after (Select.select_from {S = Unit {0}} col cols tt).0
      (λ s. after (end_of (setup s)) (λ q. done (Select.to_query q)))

-- `sqlb.InsertInto`, `sqlb.Update` and `sqlb.DeleteFrom`, and the methods that are called on them
abbrev pub inserted : String → List String → Insert.Method Value → Outcome (InsertQuery Value)
inserted table cols setup = end_of (setup (Insert.insert_into no_fragments table cols))

abbrev pub updated : String → Update.Method Value → Outcome (UpdateQuery Value)
updated table setup = end_of (setup (Update.update no_fragments table))

abbrev pub deleted : String → Delete.Method Value → Outcome (DeleteQuery Value)
deleted table setup = end_of (setup (Delete.delete_from no_fragments table))

-- An error of the database panics.
abbrev pub answer_or_panic : {A : Type 0} → DbResult A → Outcome A
answer_or_panic (answer a) = done a
answer_or_panic (refused e) = panicked (map_custom_error_codes e)

abbrev pub unmapped : {A : Type 0} → DbResult A → Outcome A
unmapped (answer a) = done a
unmapped (refused e) = panicked (error_of e)

-- A violation of the unique constraint `name` is an error value, and every other error panics.
abbrev pub unless_unique : {A : Type 0} → (name : String) → Error → DbResult A → Outcome (Result A)
unless_unique name e (answer a) = done (ok a)
unless_unique name e (refused (other_error x)) = panicked x
unless_unique name e (refused (pq_error code class constraint message)) =
    if str_eq class "unique_violation" && str_eq constraint name
    then done (err e)
    else panicked (map_custom_error_codes (pq_error code class constraint message))

-- The columns of a row that `rows.Scan` has not read; a column of another type is an error.
abbrev pub Row : Type 0 → Type 0
Row A = Go (List Value) A

module _ {W : Type 0} (db : Database W) where
  -- `GetTx`, whose error panics
  abbrev pub begin : Go W (Unit {0})
  begin = do r ← db.get_tx; lift (unwrap_result r)

  -- `q.Build()`
  unfoldable pub built : {Q : Type 0} → (Q → Build Value) → Outcome Q → Outcome (SqlQuery Value)
  unfolding build_query
  built build q = after q (λ query. build_query (record { build = build query }))

  abbrev pub build_of_select : Outcome (SelectQuery Value) → Outcome (SqlQuery Value)
  build_of_select q = built (build_select db.scan_all) q

  abbrev pub build_of_insert : Outcome (InsertQuery Value) → Outcome (SqlQuery Value)
  build_of_insert q = built (build_insert db.scan_all) q

  abbrev pub build_of_update : Outcome (UpdateQuery Value) → Outcome (SqlQuery Value)
  build_of_update q = built (build_update db.scan_all) q

  abbrev pub build_of_delete : Outcome (DeleteQuery Value) → Outcome (SqlQuery Value)
  build_of_delete q = built (build_delete db.scan_all) q

  -- `tx.Query`, `tx.Exec` and `tx.QueryRow(...).Scan(&id)`
  abbrev pub run_query : SqlQuery Value → Go W (List (List Value))
  run_query sql w = let (r, w') = db.query sql w in (answer_or_panic r, w')

  abbrev pub run_exec : SqlQuery Value → Go W (DbResult (Unit {0}))
  run_exec sql w = let (r, w') = db.exec sql w in (done r, w')

  abbrev pub run_query_row : SqlQuery Value → Go W (DbResult ℕ)
  run_query_row sql w = let (r, w') = db.query_row sql w in (done r, w')

  -- A method that executes a statement and panics on any error.
  unfoldable pub execute : Outcome (SqlQuery Value) → Go W (Unit {0})
  execute build = do begin; sql ← lift build; r ← run_exec sql; lift (answer_or_panic r)

  -- A `Create` method that panics on any error.
  unfoldable pub create : Outcome (SqlQuery Value) → Go W ℕ
  create build = do begin; sql ← lift build; r ← run_query_row sql; lift (answer_or_panic r)

  -- A `Create` method with a unique constraint. Where there is no transaction, it returns the error.
  abbrev create_in_tx :
      Outcome (SqlQuery Value) → (name : String) → Error → Result (Unit {0}) → Go W (Result ℕ)
  create_in_tx build name e (err x) = pure (err x)
  create_in_tx build name e (ok _) = do
    sql ← lift build
    r ← run_query_row sql
    lift (unless_unique name e r)

  unfoldable pub create_unique :
      Outcome (SqlQuery Value) → (name : String) → Error → Go W (Result ℕ)
  create_unique build name e = do r ← db.get_tx; create_in_tx build name e r
