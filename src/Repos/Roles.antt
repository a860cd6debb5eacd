-- ===== src/Repos/Roles.antt =====
-- repos/RoleRepository.go.
use holvit_backend.Prelude.{ℕ, String, List, [], ◌∷◌, Bool, Option, none}
use holvit_backend.Go.{plain_error, Outcome, Go, Result, ◌>>=◌, ◌>>◌, pure, lift}
use holvit_backend.Filter.{ℤ, PagedResult, single_or_none}
use holvit_backend.Sqlb.Syntax.{string, value, SelectQuery}
use holvit_backend.Sqlb.Select.{add_from, add_where}
use holvit_backend.Sqlb.Insert.{add_values, add_returning}
use holvit_backend.Sqlb.Update.{UpdateQuery, add_set}
use holvit_backend.Sqlb.Update
use holvit_backend.Sqlb.Delete.{DeleteQuery}
use holvit_backend.Sqlb.Delete
use holvit_backend.Repos.Database.{
  Value, uuid, bool, uuids, Database, Row, selected, inserted, updated, deleted, build_of_insert,
  build_of_update, build_of_delete, execute, create_unique,
}
use holvit_backend.Repos.Filters.{BaseFilter, by_id, no_filter, count_col, if_some, page_and_sort}
use holvit_backend.Repos.Rows.{
  uuid_column, text_column, int_column, bool_column, uuids_column, uuid_or_null, end_of_row,
  find_paged, columns, nullable_uuid, id_column,
}

pub record Role : Type 0 where
  pub id : ℕ
  pub realm_id : ℕ
  pub client_id : Option ℕ
  pub display_name : String
  pub name : String
  pub description : String
  pub implies_cache : List ℕ
  pub internal : Bool

pub record RoleUpdate : Type 0 where
  pub display_name : Option String
  pub name : Option String
  pub description : Option String
  pub implies_cache : Option (List ℕ)

pub record RoleFilter : Type 0 where
  pub base : BaseFilter
  pub realm_id : ℕ
  pub role_ids : Option (List ℕ)
  pub name : Option String

-- `RoleFilter{}`, whose realm is the zero UUID
abbrev pub no_role_filter : RoleFilter
no_role_filter = record { base = no_filter; realm_id = 0; role_ids = none; name = none }

-- the query of `FindRoles`
unfoldable pub roles_query : RoleFilter → Outcome (SelectQuery Value)
unfolding selected add_from add_where page_and_sort
roles_query filter =
    selected (string (count_col filter.base))
      (columns (
        "id" ∷ "realm_id" ∷ "client_id" ∷ "display_name" ∷ "name" ∷ "description" ∷ "implies_cache"
        ∷ "internal" ∷ []))
      (do
        add_from (string "roles")
        add_where (string "realm_id = ?") (value (uuid filter.realm_id) ∷ [])
        if_some filter.base.id λ x. add_where (string "id = ?") (value (uuid x) ∷ [])
        if_some filter.role_ids λ x. add_where (string "id IN (?)") (value (uuids x) ∷ [])
        if_some filter.name λ x. add_where (string "name = ?") (string x ∷ [])
        page_and_sort filter.base)

unfoldable pub scan_role : Row (ℤ × Role)
scan_role = do
  total ← int_column
  id ← uuid_column
  realm_id ← uuid_column
  client_id ← uuid_or_null
  display_name ← text_column
  name ← text_column
  description ← text_column
  implies_cache ← uuids_column
  internal ← bool_column
  end_of_row
  pure (
    total,
    record {
      id = id;
      realm_id = realm_id;
      client_id = client_id;
      display_name = display_name;
      name = name;
      description = description;
      implies_cache = implies_cache;
      internal = internal;
    },
  )

-- the calls of `Set` in `UpdateRole`
abbrev pub role_changes : RoleUpdate → Update.Method Value
unfolding add_set
role_changes upd = do
  if_some upd.display_name λ x. add_set "display_name" (string x)
  if_some upd.name λ x. add_set "name" (string x)
  if_some upd.description λ x. add_set "description" (string x)
  if_some upd.implies_cache λ x. add_set "implies_cache" (value (uuids x))

module _ {W : Type 0} (db : Database W) where
  -- `FindRoles`
  unfoldable pub find_roles : RoleFilter → Go W (PagedResult Role)
  unfolding find_paged roles_query scan_role
  find_roles filter = find_paged db (roles_query filter) scan_role

  -- `FindRoleById`
  unfoldable pub find_role_by_id : ℕ → Go W (Option Role)
  unfolding find_roles
  find_role_by_id id = do
    found ← find_roles (record no_role_filter { base = by_id id })
    lift (single_or_none found.values)

  -- `CreateRole`
  unfoldable pub create_role : Role → Go W (Result ℕ)
  unfolding create_unique
  create_role role =
      create_unique db
        (build_of_insert db (
          inserted "roles"
            ("realm_id" ∷ "client_id" ∷ "display_name" ∷ "name" ∷ "description" ∷ "internal" ∷ [])
            (do
              add_values (
                  value (uuid role.realm_id)
                  ∷ nullable_uuid role.client_id
                  ∷ string role.display_name
                  ∷ string role.name
                  ∷ string role.description
                  ∷ value (bool role.internal)
                  ∷ [])
              add_returning id_column)))
        "idx_unique_role_per_realm" (plain_error "Duplicate role")

  -- `DeleteRoles`
  unfoldable pub delete_roles : ℕ → List ℕ → Go W (Unit {0})
  unfolding execute
  delete_roles realm_id ids = execute db (
      build_of_delete db (
        deleted "roles" (do
          Delete.add_where (string "realm_id =  ?") (value (uuid realm_id) ∷ [])
          Delete.add_where (string "id = any(?)") (value (uuids ids) ∷ []))))

  -- `UpdateRole`
  unfoldable pub update_role : ℕ → RoleUpdate → Go W (Unit {0})
  unfolding execute
  update_role id upd = execute db (
      build_of_update db (
        updated "roles"
          (do role_changes upd; Update.add_where (string "id = ?") (value (uuid id) ∷ []))))
