-- ===== src/Sqlb/Insert/Build.antt =====
-- `insertQuery.build`: sqlb/insert.go.
use holvit_backend.Prelude.{
  ℕ, ◌+◌, ◌-◌, String, str_append, str_eq, List, [], ◌∷◌, Option, none, some, length, ltb,
  if◌then◌else◌,
}
use holvit_backend.Go.{plain_error, ◌>>◌, panic}
use holvit_backend.Sqlb.Syntax.{Fragments, Nillable, nil, set}
use holvit_backend.Sqlb.Writer.{Build, skip, write, build_fragments, build_with, build_where}
use holvit_backend.Sqlb.Build.{Token, build_raw, builds, build_clause}
use holvit_backend.Sqlb.Query.{Query}
use holvit_backend.Sqlb.Insert.{
  Strategy, invalid, do_nothing, do_update, Conflict, InsertQuery, join,
}

module _ {V : Type 0} (scan_all : String → List Token) where
  unfoldable pub build_columns : List String → Build V
  build_columns [] = skip
  build_columns (c ∷ cols) = do write " ("; write (join (c ∷ cols) ", "); write ")"

  -- the loop over the rows, from the index `i` of `n`
  unfoldable pub rows_from : (i n : ℕ) → List (Fragments V) → Build V
  rows_from i n [] = skip
  rows_from i n (row ∷ rows) = do
    write "("
    build_fragments (builds scan_all row) ", "
    write ")"
    if ltb i (n - 1) then write ", " else skip
    rows_from (i + 1) n rows

  unfoldable pub build_source : Option (Query V) → List (Fragments V) → Build V
  unfolding rows_from
  build_source none values = do write " VALUES "; rows_from 0 (length values) values
  build_source (some query) values = do write " "; query.build

  -- the columns of the conflict, or else its constraint
  unfoldable pub build_target : List String → String → Build V
  build_target (col ∷ cols) constraint = do write "("; write (join (col ∷ cols) ", "); write ") "
  build_target [] constraint =
      let named = (do write "ON CONSTRAINT "; write constraint; write " ") in
      if str_eq constraint "" then skip else named

  unfoldable pub build_strategy : Strategy → Conflict V → Build V
  unfolding build_target
  build_strategy invalid c =
      panic (plain_error "called OnConflict() but neither DoNothing() nor DoUpdate()")
  build_strategy do_nothing c = do
    write " ON CONFLICT "
    build_target c.cols c.constraint
    write "DO NOTHING"
  build_strategy do_update c = do
    write " ON CONFLICT "
    build_target c.cols c.constraint
    write "DO UPDATE SET "
    build_fragments (builds scan_all c.sets) ", "
    build_where (builds scan_all c.conditions)

  unfoldable pub build_conflict : Option (Conflict V) → Nillable V → Build V
  unfolding build_strategy
  build_conflict none nil = skip
  build_conflict none (set raw) = do write " "; build_raw scan_all raw
  build_conflict (some c) raw = build_strategy c.strategy c

  unfoldable pub build_insert : InsertQuery V → Build V
  unfolding build_columns build_source build_conflict
  build_insert q = do
    build_with (builds scan_all q.withs)
    write (str_append "INSERT INTO " q.table)
    build_columns q.columns
    build_source q.query q.values
    build_conflict q.on_conflict q.on_conflict_raw
    build_clause " RETURNING " ", " (builds scan_all q.returning)
