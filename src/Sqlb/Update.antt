-- ===== src/Sqlb/Update.antt =====
-- Update queries: sqlb/update.go.
use holvit_backend.Prelude.{ℕ, ◌+◌, ◌-◌, String, List, [], ◌∷◌, ◌++◌, length, ltb, if◌then◌else◌}
use holvit_backend.Go.{Outcome, Go, ◌>>=◌, ◌>>◌}
use holvit_backend.Sqlb.Syntax.{
  RawQuery, raw_query, Any, string, value, raw, select, no_params, param, Fragments, no_fragments,
}
use holvit_backend.Sqlb.Writer.{Build, skip, write, build_with, build_where}
use holvit_backend.Sqlb.Build.{Token, build_raw, builds, build_clause}
use holvit_backend.Sqlb.Fragment.{
  append_fragments, append_fragment, make_raw_fragment, make_raw_fragments,
}

-- `updateCol`
pub record UpdateCol (V : Type 0) : Type 0 where
  pub col : String
  pub assigned : RawQuery V

-- `updateQuery`
pub record UpdateQuery (V : Type 0) : Type 0 where
  pub withs : Fragments V
  pub table : String
  pub cols : List (UpdateCol V)
  pub conditions : Fragments V
  pub from : Fragments V
  pub returning : Fragments V

abbrev pub Method : Type 0 → Type 0
Method V = Go (UpdateQuery V) (Unit {0})

module _ {V : Type 0} where
  -- `Update`; `WithQuery.Update` gives the common table expressions too.
  abbrev pub update : Fragments V → String → UpdateQuery V
  update withs table = record {
    withs = withs;
    table = table;
    cols = [];
    conditions = no_fragments;
    from = no_fragments;
    returning = no_fragments;
  }

  abbrev modify : (UpdateQuery V → UpdateQuery V) → Method V
  modify f q = (Outcome.done tt, f q)

  unfoldable pub add_from : Any V → Method V
  unfolding make_raw_fragment
  add_from table = do
    f ← make_raw_fragment table []
    modify (λ q. record q { from = append_fragment q.from f })

  unfoldable pub add_where : Any V → List (Any V) → Method V
  unfolding make_raw_fragment
  add_where condition params = do
    f ← make_raw_fragment condition params
    modify (λ q. record q { conditions = append_fragment q.conditions f })

  unfoldable pub add_returning : List (Any V) → Method V
  unfolding make_raw_fragments
  add_returning exprs = do
    fs ← make_raw_fragments exprs
    modify (λ q. record q { returning = append_fragments q.returning fs })

  -- A raw query stands as it is; any other value becomes a parameter.
  abbrev assigned_fragment : Any V → RawQuery V
  assigned_fragment (raw q) = q
  assigned_fragment (string s) = raw_query "?" (param (string s) no_params)
  assigned_fragment (value v) = raw_query "?" (param (value v) no_params)
  assigned_fragment (select q) = raw_query "?" (param (select q) no_params)

  -- `Set`
  unfoldable pub add_set : String → Any V → Method V
  add_set col v =
      modify (λ q. record q {
        cols = q.cols ++ record { col = col; assigned = assigned_fragment v } ∷ [];
      })

module _ {V : Type 0} (scan_all : String → List Token) where
  -- the loop over the columns, from the index `i` of `n`
  unfoldable pub cols_from : (i n : ℕ) → List (UpdateCol V) → Build V
  cols_from i n [] = skip
  cols_from i n (c ∷ cols) = do
    write c.col
    write " = "
    build_raw scan_all c.assigned
    if ltb i (n - 1) then write ", " else skip
    cols_from (i + 1) n cols

  unfoldable pub build_update : UpdateQuery V → Build V
  unfolding cols_from
  build_update q = do
    build_with (builds scan_all q.withs)
    write "UPDATE "
    write q.table
    write " SET "
    cols_from 0 (length q.cols) q.cols
    build_clause " FROM " ", " (builds scan_all q.from)
    build_where (builds scan_all q.conditions)
    build_clause " RETURNING " ", " (builds scan_all q.returning)
