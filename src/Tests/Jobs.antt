-- ===== src/Tests/Jobs.antt =====
-- A job whose mail is never taken by the mail server.
use holvit_backend.Prelude.{
  ℕ, suc, ◌+◌, ◌≤◌, String, List, [], ◌∷◌, ◌≡◌, refl, ap, true, false, some, if◌then◌else◌,
}
use holvit_backend.Go.{plain_error, done, Go, Result, ok, err}
use holvit_backend.Tokens.Store.{Json}
use holvit_backend.Sqlb.Syntax.{Any, string, value}
use holvit_backend.Sqlb.Build.{Token}
use holvit_backend.Oidc.Grants.{contains}
use holvit_backend.Prelude.{str_eq}
use holvit_backend.Repos.Database.{Value, Database, answer}
use holvit_backend.Repos.Jobs.{SendMailJobDetails}
use holvit_backend.Jobs.Lifecycle.{JobRow, set_columns, queued, IsSettled}
use holvit_backend.Jobs.Table.{columns_of, rows_if, IsJobTable}
use holvit_backend.Jobs.Runs.{runs, runs_bounds}

-- The row of the job, and the number of mails
abbrev World : Type 0
World = JobRow × ℕ

abbrev one_token : String → List Token
one_token s = record { is_operator = false; value = s } ∷ []

abbrev operator : String → List Token → List Token
operator s ts = record { is_operator = true; value = s } ∷ ts

abbrev other : String → List Token → List Token
other s ts = record { is_operator = false; value = s } ∷ ts

abbrev names : List String
names = "-1" ∷ "id" ∷ "status" ∷ "type" ∷ "details" ∷ "failure_count" ∷ "error" ∷ "queued_jobs" ∷ []

-- A lexer for the names and the condition of one query.
abbrev lexer : String → List Token
lexer s =
    if contains names s
    then one_token s
    else other "status" (other " " (operator "=" (other " " (operator "?" []))))

-- An update's parameters are the names of the columns and their values.
abbrev encode : List (String × Value) → List (Any Value)
encode [] = []
encode ((c, v) ∷ cols) = string c ∷ value v ∷ encode cols

abbrev decode : List (Any Value) → List (String × Value)
decode (string c ∷ value v ∷ ps) = let cols = decode ps in (c, v) ∷ cols
decode _ = []

decode-encode : (cols : List (String × Value)) → decode (encode cols) ≡ cols
decode-encode [] = refl
decode-encode ((c, v) ∷ cols) = ap (λ l. (c, v) ∷ l) (decode-encode cols)

abbrev with_status : List (Any Value) → JobRow → List (List Value)
with_status (string s ∷ ps) row = rows_if (str_eq row.status s) (columns_of 4 "mail" row)
with_status _ row = []

abbrev db : Database World
db = record {
  get_tx = λ w. (done (ok tt), w);
  now = λ w. 100;
  scan_all = lexer;
  query = λ q w. (answer (with_status q.parameters w.0), w);
  query_row = λ q w. (answer 1, w);
  exec = λ q w. (answer tt, (set_columns (decode q.parameters) w.0, w.1));
  sqlbuilder_update =
      λ table cols column v. record { sql = "UPDATE queued_jobs"; parameters = encode cols };
  sqlbuilder_delete = λ table column v. record { sql = table; parameters = [] };
  sqlbuilder_insert = λ table cols rows. record { sql = table; parameters = [] };
}

abbrev mail : SendMailJobDetails
mail = record { to = "ada" ∷ []; cc = []; bcc = []; subject = "hello"; body = "" }

abbrev json : Json SendMailJobDetails
json = record { marshal = λ d. "mail"; unmarshal = λ s. some mail }

abbrev send_mail : SendMailJobDetails → Go World (Result (Unit {0}))
send_mail details (row, n) = (done (err (plain_error "timeout")), (row, suc n))

abbrev row_of : World → JobRow
row_of w = w.0

abbrev sent_of : World → ℕ
sent_of w = w.1

table : IsJobTable db json send_mail 4 "mail" mail row_of sent_of
table = record {
  names = λ s known. rw known refl;
  condition = refl;
  in_tx = λ w. refl;
  selects = λ status w. refl;
  unmarshals = refl;
  updates = λ cols w. (refl, ap (λ l. set_columns l w.0) (decode-encode cols), refl);
  sends = λ w. (err (plain_error "timeout"), (refl, refl, refl));
}

runs_bounds_example :
    ((runs db json send_mail 5 (queued, 0)).0 ≡ done tt)
    × (sent_of (runs db json send_mail 5 (queued, 0)).1 ≤ 4 + sent_of (queued, 0))
    × (4 ≤ 5 → IsSettled (row_of (runs db json send_mail 5 (queued, 0)).1))
runs_bounds_example =
    runs_bounds db json send_mail 4 "mail" mail row_of sent_of table 5 (queued, 0) refl
