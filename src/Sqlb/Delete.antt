-- ===== src/Sqlb/Delete.antt =====
-- Delete queries: sqlb/delete.go.
use holvit_backend.Prelude.{String, List, []}
use holvit_backend.Go.{Outcome, Go, ◌>>=◌, ◌>>◌}
use holvit_backend.Sqlb.Syntax.{Any, Fragments, no_fragments}
use holvit_backend.Sqlb.Writer.{Build, write, build_with, build_where}
use holvit_backend.Sqlb.Build.{Token, builds, build_clause}
use holvit_backend.Sqlb.Fragment.{
  append_fragments, append_fragment, make_raw_fragment, make_raw_fragments,
}

-- `deleteQuery`
pub record DeleteQuery (V : Type 0) : Type 0 where
  pub withs : Fragments V
  pub table : String
  pub using : Fragments V
  pub conditions : Fragments V
  pub returning : Fragments V

abbrev pub Method : Type 0 → Type 0
Method V = Go (DeleteQuery V) (Unit {0})

module _ {V : Type 0} where
  -- `DeleteFrom`; `WithQuery.DeleteFrom` gives the common table expressions too.
  abbrev pub delete_from : Fragments V → String → DeleteQuery V
  delete_from withs table = record {
    withs = withs;
    table = table;
    using = no_fragments;
    conditions = no_fragments;
    returning = no_fragments;
  }

  abbrev modify : (DeleteQuery V → DeleteQuery V) → Method V
  modify f q = (Outcome.done tt, f q)

  unfoldable pub add_using : Any V → Method V
  unfolding make_raw_fragment
  add_using table = do
    f ← make_raw_fragment table []
    modify (λ q. record q { using = append_fragment q.using f })

  unfoldable pub add_where : Any V → List (Any V) → Method V
  unfolding make_raw_fragment
  add_where condition params = do
    f ← make_raw_fragment condition params
    modify (λ q. record q { conditions = append_fragment q.conditions f })

  unfoldable pub add_returning : List (Any V) → Method V
  unfolding make_raw_fragments
  add_returning exprs = do
    fs ← make_raw_fragments exprs
    modify (λ q. record q { returning = append_fragments q.returning fs })

module _ {V : Type 0} (scan_all : String → List Token) where
  unfoldable pub build_delete : DeleteQuery V → Build V
  build_delete q = do
    build_with (builds scan_all q.withs)
    write "DELETE FROM "
    write q.table
    build_clause " USING " ", " (builds scan_all q.using)
    build_where (builds scan_all q.conditions)
    build_clause " RETURNING " ", " (builds scan_all q.returning)
