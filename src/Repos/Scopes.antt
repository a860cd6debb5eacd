-- ===== src/Repos/Scopes.antt =====
-- repos/ScopeRepository.go.
use holvit_backend.Prelude.{
  ℕ, String, List, [], ◌∷◌, Bool, false, Option, none, some, if◌then◌else◌,
}
use holvit_backend.Go.{plain_error, Outcome, done, Go, Result, ◌>>=◌, ◌>>◌, pure, lift}
use holvit_backend.Filter.{ℤ, pos, PagedResult, single_or_none}
use holvit_backend.Sqlb.Syntax.{string, value, SelectQuery}
use holvit_backend.Sqlb.Select
use holvit_backend.Sqlb.Select.{add_columns, add_from, add_where, add_order_by, add_join, set_lock}
use holvit_backend.Sqlb.Insert.{add_values, add_returning}
use holvit_backend.Repos.Database.{
  Value, uuid, int, texts, Database, Row, selected, inserted, build_of_insert, execute,
  create_unique,
}
use holvit_backend.Repos.Filters.{BaseFilter, by_id, no_filter, count_col, if_some, page_and_sort}
use holvit_backend.Repos.Rows.{
  uuid_column, text_column, int_column, uuid_or_null, end_of_row, find_paged, columns, id_column,
}
use holvit_backend.Go.{unwrap}

pub record Grant : Type 0 where
  pub id : ℕ
  pub scope_id : ℕ
  pub user_id : ℕ
  pub client_id : ℕ

pub record Scope : Type 0 where
  pub id : ℕ
  pub realm_id : ℕ
  pub name : String
  pub display_name : String
  pub description : String
  pub sort_index : ℤ
  pub grant : Option Grant

pub record ScopeFilter : Type 0 where
  pub base : BaseFilter
  pub realm_id : ℕ
  pub names : Option (List String)
  pub include_grants : Bool
  pub only_granted : Bool
  pub user_id : Option ℕ
  pub client_id : Option ℕ

-- `ScopeFilter{}`, whose realm is the zero UUID
abbrev pub no_scope_filter : ScopeFilter
no_scope_filter = record {
  base = no_filter;
  realm_id = 0;
  names = none;
  include_grants = false;
  only_granted = false;
  user_id = none;
  client_id = none;
}

abbrev pub when : Bool → Select.Method Value → Select.Method Value
when test method = if test then method else pure tt

-- the query of `FindScopes`
unfoldable pub scopes_query : ScopeFilter → Outcome (SelectQuery Value)
unfolding selected add_from add_where add_columns add_join add_order_by page_and_sort
scopes_query filter =
    selected (string (count_col filter.base))
      (columns ("s.id" ∷ "s.realm_id" ∷ "s.name" ∷ "s.display_name" ∷ "s.description" ∷ []))
      (do
        add_from (string "scopes s")
        when filter.include_grants
            (add_columns (columns ("g.id" ∷ "g.scope_id" ∷ "g.user_id" ∷ "g.client_id" ∷ [])))
        when filter.include_grants (
            add_join (if filter.only_granted then "INNER JOIN" else "LEFT OUTER JOIN")
              (string "grants g") (string "g.scope_id = s.id") [])
        add_where (string "s.realm_id = ?") (value (uuid filter.realm_id) ∷ [])
        if_some filter.base.id λ x. add_where (string "s.id = ?") (value (uuid x) ∷ [])
        if_some filter.names
            λ x. add_where (string "s.name = any(?::text[])") (value (texts x) ∷ [])
        if_some filter.client_id
            λ x. add_where (string "(g.client_id = ? or g.client_id is null)") (value (uuid x) ∷ [])
        page_and_sort filter.base
        add_order_by (string "sort_index asc" ∷ []))

-- The grant of a row whose grant has an id; a missing part panics.
abbrev grant_of : (id scope_id user_id client_id : Option ℕ) → Row (Option Grant)
grant_of none scope_id user_id client_id = pure none
grant_of (some id) scope_id user_id client_id = do
  scope_id ← lift (unwrap scope_id)
  user_id ← lift (unwrap user_id)
  client_id ← lift (unwrap client_id)
  pure (some (record { id = id; scope_id = scope_id; user_id = user_id; client_id = client_id }))

abbrev grant_columns : Row (Option Grant)
grant_columns = do
  id ← uuid_or_null
  scope_id ← uuid_or_null
  user_id ← uuid_or_null
  client_id ← uuid_or_null
  end_of_row
  grant_of id scope_id user_id client_id

unfoldable pub scan_scope : (include_grants : Bool) → Row (ℤ × Scope)
scan_scope include_grants = do
  total ← int_column
  id ← uuid_column
  realm_id ← uuid_column
  name ← text_column
  display_name ← text_column
  description ← text_column
  grant ← (if include_grants then grant_columns else (do end_of_row; pure none))
  pure (
    total,
    record {
      id = id;
      realm_id = realm_id;
      name = name;
      display_name = display_name;
      description = description;
      sort_index = pos 0;
      grant = grant;
    },
  )

abbrev grant_rows : (user_id client_id : ℕ) → List ℕ → List (List Value)
grant_rows user_id client_id [] = []
grant_rows user_id client_id (scope_id ∷ scope_ids) =
    (uuid scope_id ∷ uuid user_id ∷ uuid client_id ∷ []) ∷ grant_rows user_id client_id scope_ids

module _ {W : Type 0} (db : Database W) where
  -- `FindScopes`
  unfoldable pub find_scopes : ScopeFilter → Go W (PagedResult Scope)
  unfolding find_paged scopes_query scan_scope
  find_scopes filter = find_paged db (scopes_query filter) (scan_scope filter.include_grants)

  -- `FindScopeById`
  unfoldable pub find_scope_by_id : ℕ → Go W (Option Scope)
  unfolding find_scopes
  find_scope_by_id id = do
    found ← find_scopes (record no_scope_filter { base = by_id id })
    lift (single_or_none found.values)

  -- `CreateScope`
  unfoldable pub create_scope : Scope → Go W (Result ℕ)
  unfolding create_unique
  create_scope scope =
      create_unique db
        (build_of_insert db (
          inserted "scopes"
            ("realm_id" ∷ "name" ∷ "display_name" ∷ "description" ∷ "sort_index" ∷ [])
            (do
              add_values (
                  value (uuid scope.realm_id)
                  ∷ string scope.name
                  ∷ string scope.display_name
                  ∷ string scope.description
                  ∷ value (int scope.sort_index)
                  ∷ [])
              add_returning id_column)))
        "idx_unique_scope_name_in_realm" (plain_error "Duplicate Scope")

  -- `CreateGrants`
  unfoldable pub create_grants : (user_id client_id : ℕ) → List ℕ → Go W (Unit {0})
  unfolding execute
  create_grants user_id client_id scope_ids = execute db (
      done (
        db.sqlbuilder_insert "grants" ("scope_id" ∷ "user_id" ∷ "client_id" ∷ [])
          (grant_rows user_id client_id scope_ids)))
