-- ===== src/Sqlb/Numbering/Results.antt =====
-- What `Build` returns, for every kind of query.
use holvit_backend.Prelude.{String, List, ◌≡◌, refl, ap, ◌∙◌, none, some, length}
use holvit_backend.Go.{Outcome, done, panicked}
use holvit_backend.Sqlb.Syntax.{SelectQuery}
use holvit_backend.Sqlb.Writer.{Piece, Writer}
use holvit_backend.Sqlb.Build.{Token, build_select}
use holvit_backend.Sqlb.Query.{SqlQuery, Query, empty_writer, finish, build_query, render}
use holvit_backend.Sqlb.Insert.{InsertQuery}
use holvit_backend.Sqlb.Insert.Build.{build_insert}
use holvit_backend.Sqlb.Update.{UpdateQuery, build_update}
use holvit_backend.Sqlb.Delete.{DeleteQuery, build_delete}
use holvit_backend.Sqlb.Arguments.{Args, select_args}
use holvit_backend.Sqlb.Numbering.{placeholders, count_up, IsPanic, Ends, Emits}
use holvit_backend.Sqlb.Numbering.Queries.{build_select-Emits}
use holvit_backend.Sqlb.Numbering.Statements.{
  update_args, delete_args, build_update-Emits, build_delete-Emits,
}
use holvit_backend.Sqlb.Numbering.Inserts.{insert_args, build_insert-Emits}

module _ {V : Type 0} where
  -- The query panics, or its parameters are the expected arguments in their order and its text
  -- has the placeholders $1, $2, …, one for each.
  abbrev pub Binds : Args V → Outcome (SqlQuery V) → Type 0
  Binds none r = IsPanic r
  Binds (some args) r =
      (pieces : List Piece) × (r ≡ done (record { sql = render pieces; parameters = args }))
      × (placeholders pieces ≡ count_up (length args))

  finish-Binds :
      (o : Args V) (r : Outcome (Unit {0}) × Writer V)
      → Ends tt o empty_writer r
      → Binds o (finish r.0 r.1)
  finish-Binds none (panicked e, w) h = tt
  finish-Binds none (done _, w) h = absurd h
  finish-Binds (some args) (r, w) (returned, bound, numbered) = (
    w.sql,
    rw returned (ap (λ p. done (record { sql = render w.sql; parameters = p })) bound),
    numbered ∙ ap (λ p. count_up (length p)) bound,
  )

  pub build_query-Binds : (q : Query V) (o : Args V) → Emits q.build tt o → Binds o (build_query q)
  unfolding build_query
  build_query-Binds q o h = finish-Binds o (q.build empty_writer) (h.at empty_writer refl)

  module _ (scan_all : String → List Token) where
    -- Building a select query panics where some term has more marks than parameters. Otherwise
    -- its parameters are those that its clauses bind, in the order of the clauses, and its text
    -- has the placeholders $1, $2, …, in this order, one for each parameter.
    pub select-Binds :
        (q : SelectQuery V)
        → Binds (select_args scan_all q) (build_query (record { build = build_select scan_all q }))
    select-Binds q = build_query-Binds _ _ (build_select-Emits scan_all q)

    -- Building an update panics where some term has more marks than parameters. Otherwise its
    -- parameters are those of the common table expressions, the assignments in their order, the
    -- tables, the conditions and the results, and its text has $1, $2, …, in this order.
    pub update-Binds :
        (q : UpdateQuery V)
        → Binds (update_args scan_all q) (build_query (record { build = build_update scan_all q }))
    update-Binds q = build_query-Binds _ _ (build_update-Emits scan_all q)

    -- Building a delete panics where some term has more marks than parameters. Otherwise its
    -- parameters are those of the common table expressions, the tables, the conditions and the
    -- results, and its text has $1, $2, …, in this order, one for each.
    pub delete-Binds :
        (q : DeleteQuery V)
        → Binds (delete_args scan_all q) (build_query (record { build = build_delete scan_all q }))
    delete-Binds q = build_query-Binds _ _ (build_delete-Emits scan_all q)

    -- Where the query that an insert takes its rows from, if there is one, binds certain arguments
    -- wherever it is built, or panics: building the insert panics where that query does, where a
    -- conflict clause has no strategy or where some term has more marks than parameters.
    -- Otherwise its parameters are those of the common table expressions, of the query or else the
    -- rows, of the conflict clause and of the results, and its text has $1, $2, …, in this order.
    pub insert-Binds :
        (q : InsertQuery V) (o : Args V)
        → ((inner : Query V) → q.query ≡ some inner → Emits inner.build tt o)
        → Binds
            (insert_args scan_all o q)
            (build_query (record { build = build_insert scan_all q }))
    insert-Binds q o h = build_query-Binds _ _ (build_insert-Emits scan_all q o h)
