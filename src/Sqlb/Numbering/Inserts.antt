-- ===== src/Sqlb/Numbering/Inserts.antt =====
-- What insert queries bind: sqlb/insert.go.
use holvit_backend.Prelude.{
  ℕ, ◌+◌, ◌-◌, String, str_eq, List, [], ◌∷◌, ◌≡◌, refl, Bool, true, false, Option, none, some,
  length, ltb, if◌then◌else◌,
}
use holvit_backend.Go.{◌>>◌}
use holvit_backend.Sqlb.Syntax.{Fragments, Nillable, nil, set}
use holvit_backend.Sqlb.Writer.{write, skip}
use holvit_backend.Sqlb.Build.{Token}
use holvit_backend.Sqlb.Query.{Query}
use holvit_backend.Sqlb.Insert.{Strategy, invalid, do_nothing, do_update, Conflict, InsertQuery}
use holvit_backend.Sqlb.Insert.Build.{
  build_columns, rows_from, build_source, build_target, build_strategy, build_conflict,
  build_insert,
}
use holvit_backend.Sqlb.Arguments.{Args, ◌&◌, raw_args}
use holvit_backend.Sqlb.Numbering.{
  Emits, Quiet, Emits-pure, Emits-panic, Emits-write, Emits-then, Quiet-then, Quiet-if,
}
use holvit_backend.Sqlb.Numbering.Parts.{
  build_fragments-Emits, build_with-Emits, build_where-Emits, build_clause-Emits,
}
use holvit_backend.Sqlb.Numbering.Queries.{build_raw-Emits, builds-EmitAll}
use holvit_backend.Sqlb.Numbering.Statements.{args_of}

module _ {V : Type 0} (scan_all : String → List Token) where
  abbrev rows_args : List (Fragments V) → Args V
  rows_args [] = some []
  rows_args (row ∷ rows) = args_of scan_all row & rows_args rows

  abbrev source_args : Option (Query V) → Args V → List (Fragments V) → Args V
  source_args none o values = rows_args values
  source_args (some _) o values = o

  abbrev action_args : Strategy → Conflict V → Args V
  action_args invalid c = none
  action_args do_nothing c = some []
  action_args do_update c = args_of scan_all c.sets & args_of scan_all c.conditions

  abbrev conflict_args : Option (Conflict V) → Nillable V → Args V
  conflict_args none nil = some []
  conflict_args none (set q) = raw_args scan_all q
  conflict_args (some c) q = action_args c.strategy c

  -- `o` is what the query of the insert binds, if it has one.
  abbrev pub insert_args : Args V → InsertQuery V → Args V
  insert_args o q =
      args_of scan_all q.withs
      & source_args q.query o q.values
      & conflict_args q.on_conflict q.on_conflict_raw
      & args_of scan_all q.returning

  rows_from-Emits :
      (i n : ℕ) (rows : List (Fragments V))
      → Emits (rows_from scan_all i n rows) tt (rows_args rows)
  unfolding rows_from
  rows_from-Emits i n [] = Emits-pure tt
  rows_from-Emits i n (row ∷ rows) = Quiet-then _ _ (Emits-write "(") (
      Emits-then _ _ (build_fragments-Emits _ _ ", " (builds-EmitAll scan_all row)) (
        Quiet-then _ _ (Emits-write ")")
          (Quiet-then _ _ (Quiet-if (ltb i (n - 1)) ", ") (rows_from-Emits (i + 1) n rows))))

  build_source-Emits :
      (query : Option (Query V)) (o : Args V) (values : List (Fragments V))
      → ((inner : Query V) → query ≡ some inner → Emits inner.build tt o)
      → Emits (build_source scan_all query values) tt (source_args query o values)
  unfolding build_source
  build_source-Emits none o values h =
      Quiet-then _ _ (Emits-write " VALUES ") (rows_from-Emits 0 (length values) values)
  build_source-Emits (some query) o values h = Quiet-then _ _ (Emits-write " ") (h query refl)

  build_columns-Quiet : (cols : List String) → Quiet {V = V} (build_columns scan_all cols)
  unfolding build_columns
  build_columns-Quiet [] = Emits-pure tt
  build_columns-Quiet (c ∷ cols) =
      Quiet-then _ _ (Emits-write " (") (Quiet-then _ _ (Emits-write _) (Emits-write ")"))

  constraint-Quiet :
      (b : Bool) (name : String)
      → Quiet {V = V} (if b then skip else (do write "ON CONSTRAINT "; write name; write " "))
  constraint-Quiet true name = Emits-pure tt
  constraint-Quiet false name =
      Quiet-then _ _ (Emits-write "ON CONSTRAINT ")
        (Quiet-then _ _ (Emits-write name) (Emits-write " "))

  build_target-Quiet :
      (cols : List String) (constraint : String)
      → Quiet {V = V} (build_target scan_all cols constraint)
  unfolding build_target
  build_target-Quiet (col ∷ cols) constraint =
      Quiet-then _ _ (Emits-write "(") (Quiet-then _ _ (Emits-write _) (Emits-write ") "))
  build_target-Quiet [] constraint = constraint-Quiet (str_eq constraint "") constraint

  build_strategy-Emits :
      (strategy : Strategy) (c : Conflict V)
      → Emits (build_strategy scan_all strategy c) tt (action_args strategy c)
  unfolding build_strategy
  build_strategy-Emits invalid c = Emits-panic _ tt
  build_strategy-Emits do_nothing c =
      Quiet-then _ _ (Emits-write " ON CONFLICT ")
        (Quiet-then _ _ (build_target-Quiet c.cols c.constraint) (Emits-write "DO NOTHING"))
  build_strategy-Emits do_update c = Quiet-then _ _ (Emits-write " ON CONFLICT ") (
      Quiet-then _ _ (build_target-Quiet c.cols c.constraint) (
        Quiet-then _ _ (Emits-write "DO UPDATE SET ") (
          Emits-then _ _ (build_fragments-Emits _ _ ", " (builds-EmitAll scan_all c.sets))
            (build_where-Emits _ _ (builds-EmitAll scan_all c.conditions)))))

  build_conflict-Emits :
      (c : Option (Conflict V)) (q : Nillable V)
      → Emits (build_conflict scan_all c q) tt (conflict_args c q)
  unfolding build_conflict
  build_conflict-Emits none nil = Emits-pure tt
  build_conflict-Emits none (set q) = Quiet-then _ _ (Emits-write " ") (build_raw-Emits scan_all q)
  build_conflict-Emits (some c) q = build_strategy-Emits c.strategy c

  pub build_insert-Emits :
      (q : InsertQuery V) (o : Args V)
      → ((inner : Query V) → q.query ≡ some inner → Emits inner.build tt o)
      → Emits (build_insert scan_all q) tt (insert_args o q)
  unfolding build_insert
  build_insert-Emits q o h =
      Emits-then _ _ (build_with-Emits _ _ (builds-EmitAll scan_all q.withs)) (
        Quiet-then _ _ (Emits-write _) (
          Quiet-then _ _ (build_columns-Quiet q.columns) (
            Emits-then _ _ (build_source-Emits q.query o q.values h) (
              Emits-then _ _ (build_conflict-Emits q.on_conflict q.on_conflict_raw) (
                build_clause-Emits " RETURNING " ", " _ _ (builds-EmitAll scan_all q.returning))))))
