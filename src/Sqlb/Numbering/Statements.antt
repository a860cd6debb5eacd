-- ===== src/Sqlb/Numbering/Statements.antt =====
-- What update and delete queries bind: sqlb/update.go, sqlb/delete.go.
use holvit_backend.Prelude.{ℕ, ◌+◌, ◌-◌, String, List, [], ◌∷◌, some, length, ltb}
use holvit_backend.Sqlb.Syntax.{Fragments}
use holvit_backend.Sqlb.Build.{Token}
use holvit_backend.Sqlb.Update.{UpdateCol, UpdateQuery, cols_from, build_update}
use holvit_backend.Sqlb.Delete.{DeleteQuery, build_delete}
use holvit_backend.Sqlb.Arguments.{Args, ◌&◌, all_of, raw_args, fragments_args}
use holvit_backend.Sqlb.Numbering.{Emits, Emits-pure, Emits-write, Emits-then, Quiet-then, Quiet-if}
use holvit_backend.Sqlb.Numbering.Parts.{build_with-Emits, build_where-Emits, build_clause-Emits}
use holvit_backend.Sqlb.Numbering.Queries.{build_raw-Emits, builds-EmitAll}

module _ {V : Type 0} (scan_all : String → List Token) where
  abbrev pub args_of : Fragments V → Args V
  args_of fs = all_of (fragments_args scan_all fs)

  abbrev cols_args : List (UpdateCol V) → Args V
  cols_args [] = some []
  cols_args (c ∷ cols) = raw_args scan_all c.assigned & cols_args cols

  abbrev pub update_args : UpdateQuery V → Args V
  update_args q =
      args_of q.withs
      & cols_args q.cols
      & args_of q.from
      & args_of q.conditions
      & args_of q.returning

  abbrev pub delete_args : DeleteQuery V → Args V
  delete_args q = args_of q.withs & args_of q.using & args_of q.conditions & args_of q.returning

  cols_from-Emits :
      (i n : ℕ) (cols : List (UpdateCol V))
      → Emits (cols_from scan_all i n cols) tt (cols_args cols)
  unfolding cols_from
  cols_from-Emits i n [] = Emits-pure tt
  cols_from-Emits i n (c ∷ cols) = Quiet-then _ _ (Emits-write c.col) (
      Quiet-then _ _ (Emits-write " = ") (
        Emits-then _ _ (build_raw-Emits scan_all c.assigned)
          (Quiet-then _ _ (Quiet-if (ltb i (n - 1)) ", ") (cols_from-Emits (i + 1) n cols))))

  pub build_update-Emits : (q : UpdateQuery V) → Emits (build_update scan_all q) tt (update_args q)
  unfolding build_update
  build_update-Emits q = Emits-then _ _ (build_with-Emits _ _ (builds-EmitAll scan_all q.withs)) (
      Quiet-then _ _ (Emits-write "UPDATE ") (
        Quiet-then _ _ (Emits-write q.table) (
          Quiet-then _ _ (Emits-write " SET ") (
            Emits-then _ _ (cols_from-Emits 0 (length q.cols) q.cols) (
              Emits-then _ _ (build_clause-Emits " FROM " ", " _ _ (builds-EmitAll scan_all q.from))
                (Emits-then _ _ (build_where-Emits _ _ (builds-EmitAll scan_all q.conditions)) (
                  build_clause-Emits " RETURNING " ", " _ _
                    (builds-EmitAll scan_all q.returning))))))))

  pub build_delete-Emits : (q : DeleteQuery V) → Emits (build_delete scan_all q) tt (delete_args q)
  unfolding build_delete
  build_delete-Emits q = Emits-then _ _ (build_with-Emits _ _ (builds-EmitAll scan_all q.withs)) (
      Quiet-then _ _ (Emits-write "DELETE FROM ") (
        Quiet-then _ _ (Emits-write q.table) (
          Emits-then _ _ (build_clause-Emits " USING " ", " _ _ (builds-EmitAll scan_all q.using)) (
            Emits-then _ _ (build_where-Emits _ _ (builds-EmitAll scan_all q.conditions))
              (build_clause-Emits " RETURNING " ", " _ _ (builds-EmitAll scan_all q.returning))))))
