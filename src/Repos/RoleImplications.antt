-- ===== src/Repos/RoleImplications.antt =====
-- repos/RoleImplicationRepository.go.
pub mod Scan
use holvit_backend.Prelude.{
  ℕ, String, str_append, str_eq, List, [], ◌∷◌, Bool, true, false, Option, none, some,
  if◌then◌else◌,
}
use holvit_backend.Go.{
  Error, plain_error, Outcome, done, panicked, Go, Result, ok, err, ◌>>=◌, ◌>>◌, pure, panic, lift,
}
use holvit_backend.Filter.{ℤ, pos, PagedResult, single_or_none}
use holvit_backend.Sqlb.Syntax.{Any, string, value, raw, SelectQuery}
use holvit_backend.Sqlb.Fragment.{exists_query}
use holvit_backend.Sqlb.Select
use holvit_backend.Sqlb.Select.{add_columns, add_from, add_where, add_order_by, add_join, set_lock}
use holvit_backend.Sqlb.Insert.{
  InsertQuery, add_values, add_returning, on_conflict, do_nothing_on_conflict,
}
use holvit_backend.Sqlb.Insert
use holvit_backend.Sqlb.Update.{UpdateQuery, add_set}
use holvit_backend.Sqlb.Update
use holvit_backend.Sqlb.Delete.{DeleteQuery}
use holvit_backend.Sqlb.Delete
use holvit_backend.Repos.Database.{
  Value, null, uuid, text, int, bool, time, uuids, texts, bytes, DbError, DbResult, answer, refused,
  pq_error, other_error, Database, Row, selected, inserted, updated, deleted, build_of_insert,
  build_of_update, build_of_delete, answer_or_panic, unless_unique, begin, run_exec, run_query,
  run_query_row, execute, create, create_unique,
}
use holvit_backend.Repos.Filters.{BaseFilter, by_id, no_filter, count_col, if_some, page_and_sort}
use holvit_backend.Repos.Rows.{
  uuid_column, text_column, bytes_column, int_column, bool_column, time_column, uuids_column,
  texts_column, uuid_or_null, text_or_null, end_of_row, find_rows, find_paged, columns,
  nullable_text, nullable_uuid, id_column,
}
use holvit_backend.Sqlb.Query.{SqlQuery}

pub record RoleImplication : Type 0 where
  pub id : ℕ
  pub role_id : ℕ
  pub implied_role_id : ℕ

-- the rows of `CreateImplications`
unfoldable pub add_implications : List RoleImplication → Insert.Method Value
add_implications [] = pure tt
add_implications (i ∷ implications) = do
  add_values (value (uuid i.role_id) ∷ value (uuid i.implied_role_id) ∷ [])
  add_implications implications

-- the query of `FindRoleImplications`
unfoldable pub role_implications_query : (realm_id : ℕ) → Outcome (SelectQuery Value)
unfolding selected add_from add_where add_join
role_implications_query realm_id =
    selected (string "i.id") (columns ("i.role_id" ∷ "i.implied_role_id" ∷ [])) (do
      add_from (string "role_implications i")
      add_join "JOIN" (string "roles r") (string "r.id = i.role_id") []
      add_where (string "r.realm_id = ?") (value (uuid realm_id) ∷ []))

-- The second variable is passed by value, and no column is scanned into it.
unfoldable pub scan_role_implication : Row RoleImplication
scan_role_implication = do
  id ← uuid_column
  panic (plain_error "sql: Scan error: destination not a pointer")

module _ {W : Type 0} (db : Database W) where
  -- `CreateImplications`
  unfoldable pub create_implications : List RoleImplication → Go W (Unit {0})
  unfolding execute add_implications
  create_implications implications = execute db (
      build_of_insert db (
        inserted "role_implications" ("role_id" ∷ "implied_role_id" ∷ [])
          (add_implications implications)))

  -- `DeleteImplicationsForRole`
  unfoldable pub delete_implications_for_role : ℕ → Go W (Unit {0})
  unfolding execute
  delete_implications_for_role id = execute db (
      build_of_delete db (
        deleted "role_implications"
          (Delete.add_where (string "role_id = ?") (value (uuid id) ∷ []))))

  -- `FindRoleImplications`
  unfoldable pub find_role_implications : (realm_id : ℕ) → Go W (List RoleImplication)
  unfolding find_rows role_implications_query scan_role_implication
  find_role_implications realm_id =
      find_rows db (role_implications_query realm_id) scan_role_implication
