-- ===== src/Repos/Rows.antt =====
-- The rows of an answer: `rows.Scan` into the variables of one row, and the loop over the rows.
use holvit_backend.Prelude.{ℕ, String, List, [], ◌∷◌, Bool, Option, none, some}
use holvit_backend.Go.{plain_error, Outcome, done, panicked, Go, ◌>>=◌, ◌>>◌, pure, lift}
use holvit_backend.Filter.{ℤ, pos, PagedResult}
use holvit_backend.Sqlb.Syntax.{Any, string, value, SelectQuery}
use holvit_backend.Repos.Database.{
  Value, null, uuid, text, int, bool, time, uuids, texts, bytes, Row, Database, begin,
  build_of_select, run_query, built,
}

abbrev scan_error : {A : Type 0} → Outcome A
scan_error = panicked (plain_error "sql: Scan error")

-- The next column by its value; there may be none left.
abbrev next_column : {A : Type 0} → (Value → Outcome A) → Row A
next_column read [] = (scan_error, [])
next_column read (v ∷ row) = (read v, row)

abbrev read_uuid : Value → Outcome ℕ
read_uuid (uuid id) = done id
read_uuid _ = scan_error

abbrev read_text : Value → Outcome String
read_text (text s) = done s
read_text _ = scan_error

abbrev read_bytes : Value → Outcome String
read_bytes (bytes s) = done s
read_bytes _ = scan_error

abbrev read_int : Value → Outcome ℤ
read_int (int n) = done n
read_int _ = scan_error

abbrev read_bool : Value → Outcome Bool
read_bool (bool b) = done b
read_bool _ = scan_error

abbrev read_time : Value → Outcome ℕ
read_time (time t) = done t
read_time _ = scan_error

-- `pq.Array`
abbrev read_uuids : Value → Outcome (List ℕ)
read_uuids (uuids ids) = done ids
read_uuids _ = scan_error

abbrev read_texts : Value → Outcome (List String)
read_texts (texts ts) = done ts
read_texts _ = scan_error

-- `Opt.AsMutPtr`: NULL is none.
abbrev read_some : {A : Type 0} → Outcome A → Outcome (Option A)
read_some (done a) = done (some a)
read_some (panicked e) = panicked e

abbrev read_nullable : {A : Type 0} → (Value → Outcome A) → Value → Outcome (Option A)
read_nullable read null = done none
read_nullable read v = read_some (read v)

abbrev pub uuid_column : Row ℕ
uuid_column = next_column read_uuid

abbrev pub text_column : Row String
text_column = next_column read_text

abbrev pub bytes_column : Row String
bytes_column = next_column read_bytes

abbrev pub int_column : Row ℤ
int_column = next_column read_int

abbrev pub bool_column : Row Bool
bool_column = next_column read_bool

abbrev pub time_column : Row ℕ
time_column = next_column read_time

abbrev pub uuids_column : Row (List ℕ)
uuids_column = next_column read_uuids

abbrev pub texts_column : Row (List String)
texts_column = next_column read_texts

abbrev pub uuid_or_null : Row (Option ℕ)
uuid_or_null = next_column (read_nullable read_uuid)

abbrev pub text_or_null : Row (Option String)
text_or_null = next_column (read_nullable read_text)

-- There are as many columns as variables.
abbrev pub end_of_row : Row (Unit {0})
end_of_row [] = (done tt, [])
end_of_row (v ∷ row) = (scan_error, v ∷ row)

-- The `any`s of the calls: names of columns, and `ToNillablePtr`.
abbrev pub columns : List String → List (Any Value)
columns [] = []
columns (c ∷ cols) = string c ∷ columns cols

abbrev pub id_column : List (Any Value)
id_column = string "id" ∷ []

abbrev pub nullable_text : Option String → Any Value
nullable_text none = value null
nullable_text (some s) = value (text s)

abbrev pub nullable_uuid : Option ℕ → Any Value
nullable_uuid none = value null
nullable_uuid (some id) = value (uuid id)

module _ {A : Type 0} where
  -- `for rows.Next()`
  unfoldable pub scan_rows : Row A → List (List Value) → Outcome (List A)
  scan_rows scan [] = done []
  scan_rows scan (row ∷ rows) = elim (scan row).0 [
    | panicked e ↦ panicked e
    | done a ↦ elim (scan_rows scan rows) [ panicked e ↦ panicked e | done rest ↦ done (a ∷ rest) ]
  ]

  -- `totalCount` and `result` after the loop: each row sets the one and extends the other.
  unfoldable pub paged_rows : ℤ → List (ℤ × A) → PagedResult A
  paged_rows total [] = record { values = []; total_count = total }
  paged_rows total ((n, a) ∷ rows) =
      let rest = paged_rows n rows in record rest { values = a ∷ rest.values }

module _ {W : Type 0} (db : Database W) {A : Type 0} where
  -- A `Find` method that returns a slice.
  unfoldable pub find_rows : Outcome (SelectQuery Value) → Row A → Go W (List A)
  unfolding built scan_rows
  find_rows query scan = do
    begin db
    sql ← lift (build_of_select db query)
    rows ← run_query db sql
    lift (scan_rows scan rows)

  -- A `Find` method that returns a `FilterResult`.
  unfoldable pub find_paged : Outcome (SelectQuery Value) → Row (ℤ × A) → Go W (PagedResult A)
  unfolding built scan_rows paged_rows
  find_paged query scan = do
    begin db
    sql ← lift (build_of_select db query)
    rows ← run_query db sql
    scanned ← lift (scan_rows scan rows)
    pure (paged_rows (pos 0) scanned)
