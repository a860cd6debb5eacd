-- ===== src/Tests/Queries.antt =====
-- Queries built and printed, with a lexer that makes a token of each rune.
use Prim.Native.Char.{code}
use holvit_backend.Prelude.{ℕ, String, List, [], ◌∷◌, ◌≡◌, refl, false, Option, none, some, ◌==◌}
use holvit_backend.Go.{done}
use holvit_backend.Sqlb.Syntax.{
  raw_query, value, select, no_params, param, no_fragments, fragment, nil, set, SelectQuery,
  select_query,
}
use holvit_backend.Sqlb.Writer.{
  write, append_param, build_fragments, build_with, build_where, build_having, fragments_from,
  conditions_from,
}
use holvit_backend.Sqlb.Build.{
  Token, param_at, scan_runes, scan_tokens, build_columns, build_clause, build_bound, build_lock,
  build_select,
}
use holvit_backend.Sqlb.Query.{Query, build_query, render, itoa}
use holvit_backend.Sqlb.Arguments.{select_args}
use holvit_backend.Sqlb.Insert.{InsertQuery, insert_into}
use holvit_backend.Sqlb.Insert.Build.{build_insert}
use holvit_backend.Sqlb.Insert.Exclusive.{
  values_call, query_call, IsExclusive, run_all, run_all-IsExclusive,
}
use holvit_backend.Sqlb.Numbering.Inserts.{insert_args}
use holvit_backend.Sqlb.Numbering.{Emits}
use holvit_backend.Sqlb.Numbering.Queries.{build_select-Emits}
use mathlib.Core.Path.{subst}
use holvit_backend.Sqlb.Numbering.Results.{Binds, select-Binds, insert-Binds}

abbrev pub lex : String → List Token
lex String.[] = []
lex (String.◌∷◌ c s) =
    record { is_operator = code c == b'?'; value = String.◌∷◌ c String.[] } ∷ lex s

-- SELECT id FROM users WHERE (id = ?) AND (name IN (SELECT name FROM names WHERE kind = ?)) LIMIT ?
abbrev names : SelectQuery ℕ
names =
    select_query no_fragments (fragment (raw_query "name" no_params) no_fragments)
      (fragment (raw_query "names" no_params) no_fragments) no_fragments
      (fragment (raw_query "kind = ?" (param (value 2) no_params)) no_fragments) no_fragments
      no_fragments false no_fragments no_fragments nil nil false false

abbrev users : SelectQuery ℕ
users =
    select_query no_fragments (fragment (raw_query "id" no_params) no_fragments)
      (fragment (raw_query "users" no_params) no_fragments) no_fragments
      (fragment (raw_query "id = ?" (param (value 1) no_params))
        (fragment (raw_query "name IN ?" (param (select names) no_params)) no_fragments))
      no_fragments no_fragments false no_fragments no_fragments
      (set (raw_query "?" (param (value 3) no_params))) nil false false

users_text :
    build_query (record { build = build_select lex users })
    ≡ done (record {
      sql =
          "SELECT id FROM users WHERE (id = $1) AND (name IN (SELECT name FROM names WHERE kind = $2)) LIMIT $3";
      parameters = value 1 ∷ value 2 ∷ value 3 ∷ [];
    })
unfolding build_query render itoa build_select scan_tokens scan_runes param_at build_columns
    build_clause build_bound build_lock build_with build_where build_having build_fragments
    fragments_from conditions_from write append_param
users_text = refl

select-Binds_example :
    Binds (select_args lex users) (build_query (record { build = build_select lex users }))
select-Binds_example = select-Binds lex users

abbrev copy_names : InsertQuery ℕ
copy_names = record (insert_into no_fragments "names" ("name" ∷ [])) {
  query = some (record { build = build_select lex names });
}

abbrev EmitsNames : Option (Query ℕ) → Type 0
EmitsNames none = Unit
EmitsNames (some q) = Emits q.build tt (select_args lex names)

copied :
    (inner : Query ℕ) → copy_names.query ≡ some inner → Emits inner.build tt (select_args lex names)
copied inner e = subst EmitsNames e (build_select-Emits lex names)

insert-Binds_example :
    Binds
      (insert_args lex (select_args lex names) copy_names)
      (build_query (record { build = build_insert lex copy_names }))
insert-Binds_example = insert-Binds lex copy_names (select_args lex names) copied

-- The rows stay when a query is refused.
run_all-IsExclusive_example :
    IsExclusive
      (run_all
        (values_call (value 1 ∷ []) ∷ query_call (record { build = build_select lex names }) ∷ [])
        (insert_into no_fragments "names" [])).1
run_all-IsExclusive_example =
    run_all-IsExclusive no_fragments "names" []
      (values_call (value 1 ∷ []) ∷ query_call (record { build = build_select lex names }) ∷ [])
