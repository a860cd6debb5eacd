-- ===== src/Repos/UserRoles.antt =====
-- repos/UserRoleRepository.go.
use holvit_backend.Prelude.{ℕ, List, [], ◌∷◌}
use holvit_backend.Go.{Outcome, Go, ◌>>=◌, ◌>>◌, pure}
use holvit_backend.Sqlb.Syntax.{string, value, SelectQuery}
use holvit_backend.Sqlb.Select.{add_from, add_where}
use holvit_backend.Sqlb.Insert.{
  InsertQuery, add_values, add_returning, on_conflict, do_nothing_on_conflict,
}
use holvit_backend.Sqlb.Insert
use holvit_backend.Sqlb.Delete.{DeleteQuery}
use holvit_backend.Sqlb.Delete
use holvit_backend.Repos.Database.{
  Value, uuid, Database, Row, selected, inserted, deleted, build_of_insert, build_of_delete,
  execute,
}
use holvit_backend.Repos.Rows.{uuid_column, int_column, end_of_row, find_rows, columns}

pub record UserRole : Type 0 where
  pub id : ℕ
  pub user_id : ℕ
  pub role_id : ℕ

-- the rows of `CreateUserRoles`
unfoldable pub add_user_roles : List UserRole → Insert.Method Value
add_user_roles [] = pure tt
add_user_roles (r ∷ user_roles) = do
  add_values (value (uuid r.user_id) ∷ value (uuid r.role_id) ∷ [])
  add_user_roles user_roles

-- the query of `FindUserRoles`
unfoldable pub user_roles_query : (user_id : ℕ) → Outcome (SelectQuery Value)
unfolding selected add_from add_where
user_roles_query user_id = selected (string "id") (columns ("user_id" ∷ "role_id" ∷ [])) (do
  add_from (string "user_roles")
  add_where (string "user_id = ?") (value (uuid user_id) ∷ []))

-- There is a variable for a count, which the query does not select.
unfoldable pub scan_user_role : Row UserRole
scan_user_role = do
  total ← int_column
  id ← uuid_column
  user_id ← uuid_column
  role_id ← uuid_column
  end_of_row
  pure (record { id = id; user_id = user_id; role_id = role_id })

module _ {W : Type 0} (db : Database W) where
  -- `CreateUserRoles`
  unfoldable pub create_user_roles : List UserRole → Go W (Unit {0})
  unfolding execute add_user_roles
  create_user_roles user_roles = execute db (
      build_of_insert db (
        inserted "user_roles" ("user_id" ∷ "role_id" ∷ [])
          (do add_user_roles user_roles; on_conflict; do_nothing_on_conflict)))

  -- `DeleteUserRole`
  unfoldable pub delete_user_role : ℕ → Go W (Unit {0})
  unfolding execute
  delete_user_role id = execute db (
      build_of_delete db
        (deleted "user_roles" (Delete.add_where (string "id = ?") (value (uuid id) ∷ []))))

  -- `FindUserRoles`
  unfoldable pub find_user_roles : (user_id : ℕ) → Go W (List UserRole)
  unfolding find_rows user_roles_query scan_user_role
  find_user_roles user_id = find_rows db (user_roles_query user_id) scan_user_role
