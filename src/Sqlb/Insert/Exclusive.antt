-- ===== src/Sqlb/Insert/Exclusive.antt =====
-- What the methods of an insert query keep apart: sqlb/insert.go.
use holvit_backend.Prelude.{String, List, [], ◌∷◌, Option, none, some, arith}
use holvit_backend.Go.{Error, Outcome, done, panicked, Go, continue, ◌>>=◌, ◌>>◌, pure, panic}
use holvit_backend.Sqlb.Syntax.{Any, string, raw, select, value, Fragments, Nillable, nil, set}
use holvit_backend.Sqlb.Query.{Query}
use holvit_backend.Sqlb.Fragment.{make_raw_fragment, make_raw_fragments}
use holvit_backend.Sqlb.Insert.{
  InsertQuery, insert_into, Conflict, Method, add_values, set_query, set_on_conflict_raw,
  on_conflict, set_cols, set_constraint, do_nothing_on_conflict, do_update_on_conflict, add_set,
  add_where, add_returning, change_conflict, require_update, both_error,
}

-- A call of a method of `InsertQuery` or of what `OnConflict` and `DoUpdate` return.
pub data Call (V : Type 0) : Type 0 where
  values_call : List (Any V) → Call V
  query_call : Query V → Call V
  on_conflict_raw_call : String → List (Any V) → Call V
  on_conflict_call do_nothing_call do_update_call : Call V
  cols_call : List String → Call V
  constraint_call : String → Call V
  set_call : String → Any V → List (Any V) → Call V
  where_call : Any V → List (Any V) → Call V
  returning_call : List (Any V) → Call V

module _ {V : Type 0} where
  -- There are rows of values or there is a query, never both.
  abbrev pub OneSource : List (Fragments V) → Option (Query V) → Type 0
  OneSource (_ ∷ _) (some _) = ⊥
  OneSource (_ ∷ _) none = Unit
  OneSource [] query = Unit

  -- There is an `ON CONFLICT` in parts or there is a raw one, never both.
  abbrev pub OneConflict : Option (Conflict V) → Nillable V → Type 0
  OneConflict (some _) (set _) = ⊥
  OneConflict (some _) nil = Unit
  OneConflict none _ = Unit

  abbrev pub IsExclusive : InsertQuery V → Type 0
  IsExclusive q = OneSource q.values q.query × OneConflict q.on_conflict q.on_conflict_raw

  unfoldable pub run : Call V → Method V
  unfolding add_values set_query set_on_conflict_raw on_conflict set_cols set_constraint
      do_nothing_on_conflict do_update_on_conflict add_set add_where add_returning
  run (values_call vals) = add_values vals
  run (query_call query) = set_query query
  run (on_conflict_raw_call sql params) = set_on_conflict_raw sql params
  run on_conflict_call = on_conflict
  run do_nothing_call = do_nothing_on_conflict
  run do_update_call = do_update_on_conflict
  run (cols_call cols) = set_cols cols
  run (constraint_call constraint) = set_constraint constraint
  run (set_call name new params) = add_set name new params
  run (where_call condition params) = add_where condition params
  run (returning_call exprs) = add_returning exprs

  -- Calls one after the other, up to the first that panics.
  unfoldable pub run_all : List (Call V) → Method V
  run_all [] = pure tt
  run_all (c ∷ cs) = run c >> run_all cs

  record Keeps {A : Type 0} (m : Go (InsertQuery V) A) : Type 0 where
    at : (q : InsertQuery V) → IsExclusive q → IsExclusive (m q).1

  Keeps-pure : {A : Type 0} (a : A) → Keeps (pure a)
  Keeps-pure a = record { at = λ q h. h }

  Keeps-panic : {A : Type 0} (e : Error) → Keeps (panic {A = A} e)
  Keeps-panic e = record { at = λ q h. h }

  Keeps-continue :
      {A B : Type 0} (k : A → Go (InsertQuery V) B) (o : Outcome A) (q : InsertQuery V)
      → ((a : A) → Keeps (k a))
      → IsExclusive q
      → IsExclusive (continue k o q).1
  Keeps-continue k (done a) q hk h = (hk a).at q h
  Keeps-continue k (panicked e) q hk h = h

  Keeps-bind :
      {A B : Type 0} (m : Go (InsertQuery V) A) (k : A → Go (InsertQuery V) B)
      → Keeps m
      → ((a : A) → Keeps (k a))
      → Keeps (m >>= k)
  Keeps-bind m k hm hk = record { at = λ q h. Keeps-continue k (m q).0 (m q).1 hk (hm.at q h) }

  Keeps-make_raw_fragment : (a : Any V) (params : List (Any V)) → Keeps (make_raw_fragment a params)
  unfolding make_raw_fragment
  Keeps-make_raw_fragment (string s) params = Keeps-pure _
  Keeps-make_raw_fragment (raw f) (p ∷ params) = Keeps-panic _
  Keeps-make_raw_fragment (select f) (p ∷ params) = Keeps-panic _
  Keeps-make_raw_fragment (value v) (p ∷ params) = Keeps-panic _
  Keeps-make_raw_fragment (raw f) [] = Keeps-pure _
  Keeps-make_raw_fragment (select f) [] = Keeps-pure _
  Keeps-make_raw_fragment (value v) [] = Keeps-panic _

  Keeps-require_update : (method : String) → Keeps (require_update method)
  unfolding require_update
  Keeps-require_update method = record { at = λ q h. ground arith }

  Keeps-change_conflict : (f : Conflict V → Conflict V) → Keeps (change_conflict f)
  unfolding change_conflict
  Keeps-change_conflict f = record { at = λ q h. ground arith }

  Keeps-make_raw_fragments : (exprs : List (Any V)) → Keeps (make_raw_fragments exprs)
  unfolding make_raw_fragments
  Keeps-make_raw_fragments [] = Keeps-pure _
  Keeps-make_raw_fragments (e ∷ exprs) =
      Keeps-bind _ _ (Keeps-make_raw_fragment e [])
        λ f. Keeps-bind _ _ (Keeps-make_raw_fragments exprs) λ fs. Keeps-pure _

  Keeps-raw_conflict :
      (sql : String) (params : List (Any V)) → Keeps (set_on_conflict_raw sql params)
  unfolding set_on_conflict_raw make_raw_fragment
  Keeps-raw_conflict sql params = record { at = λ q h. ground arith }

  run-Keeps : (c : Call V) → Keeps (run c)
  unfolding run both_error
  run-Keeps (values_call vals) = record { at = λ q h. ground arith }
  run-Keeps (query_call query) = record { at = λ q h. ground arith }
  run-Keeps (on_conflict_raw_call sql params) = Keeps-raw_conflict sql params
  run-Keeps on_conflict_call = record { at = λ q h. ground arith }
  run-Keeps do_nothing_call = Keeps-change_conflict _
  run-Keeps do_update_call = Keeps-change_conflict _
  run-Keeps (cols_call cols) = Keeps-change_conflict _
  run-Keeps (constraint_call constraint) = Keeps-change_conflict _
  run-Keeps (set_call name new params) =
      Keeps-bind _ _ (Keeps-require_update _)
        λ _. Keeps-bind _ _ (Keeps-make_raw_fragment new params) λ f. Keeps-change_conflict _
  run-Keeps (where_call condition params) =
      Keeps-bind _ _ (Keeps-require_update _)
        λ _. Keeps-bind _ _ (Keeps-make_raw_fragment condition params) λ f. Keeps-change_conflict _
  run-Keeps (returning_call exprs) =
      Keeps-bind _ _ (Keeps-make_raw_fragments exprs) λ fs. record { at = λ q h. h }

  run_all-Keeps : (calls : List (Call V)) → Keeps (run_all calls)
  unfolding run_all
  run_all-Keeps [] = Keeps-pure _
  run_all-Keeps (c ∷ cs) = Keeps-bind _ _ (run-Keeps c) λ _. run_all-Keeps cs

  -- Whatever methods are called on a new insert query, and wherever a panic ends them, it has one
  -- source of rows and one kind of conflict clause at most.
  pub run_all-IsExclusive :
      (withs : Fragments V) (table : String) (columns : List String) (calls : List (Call V))
      → IsExclusive (run_all calls (insert_into withs table columns)).1
  run_all-IsExclusive withs table columns calls =
      (run_all-Keeps calls).at (insert_into withs table columns) (tt, tt)
