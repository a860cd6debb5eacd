-- ===== src/Repos/PasswordHistory.antt =====
-- repos/PasswordHistoryRepository.go.
use holvit_backend.Prelude.{ℕ, String, List, [], ◌∷◌}
use holvit_backend.Go.{Outcome, Go, ◌>>=◌, ◌>>◌, pure}
use holvit_backend.Sqlb.Syntax.{string, value, SelectQuery}
use holvit_backend.Sqlb.Select.{add_from, add_where}
use holvit_backend.Sqlb.Insert.{add_values}
use holvit_backend.Sqlb.Delete.{DeleteQuery}
use holvit_backend.Sqlb.Delete
use holvit_backend.Repos.Database.{
  Value, uuid, time, uuids, Database, Row, selected, inserted, deleted, build_of_insert,
  build_of_delete, execute,
}
use holvit_backend.Repos.Rows.{
  uuid_column, text_column, time_column, end_of_row, find_rows, columns,
}

pub record PasswordHistoryEntry : Type 0 where
  pub id : ℕ
  pub user_id : ℕ
  pub hashed_password : String
  pub created_at : ℕ

-- the query of `GetHistory`
unfoldable pub history_query : (user_id : ℕ) → Outcome (SelectQuery Value)
unfolding selected add_from add_where
history_query user_id =
    selected (string "id") (columns ("user_id" ∷ "hashed_password" ∷ "created_at" ∷ [])) (do
      add_from (string "password_history")
      add_where (string "user_id = ?") (value (uuid user_id) ∷ []))

unfoldable pub scan_entry : Row PasswordHistoryEntry
scan_entry = do
  id ← uuid_column
  user_id ← uuid_column
  hashed_password ← text_column
  created_at ← time_column
  end_of_row
  pure (record {
    id = id;
    user_id = user_id;
    hashed_password = hashed_password;
    created_at = created_at;
  })

module _ {W : Type 0} (db : Database W) where
  -- `DeleteEntries`
  unfoldable pub delete_entries : List ℕ → Go W (Unit {0})
  unfolding execute
  delete_entries ids = execute db (
      build_of_delete db (
        deleted "password_history"
          (Delete.add_where (string "user_id IN (?)") (value (uuids ids) ∷ []))))

  -- `CreateEntry`
  unfoldable pub create_entry : PasswordHistoryEntry → Go W (Unit {0})
  unfolding execute
  create_entry entry = execute db (
      build_of_insert db (
        inserted "password_history" ("user_id" ∷ "hashed_password" ∷ "created_at" ∷ []) (
          add_values (
            value (uuid entry.user_id)
            ∷ string entry.hashed_password
            ∷ value (time entry.created_at)
            ∷ []))))

  -- `GetHistory`
  unfoldable pub get_history : (user_id : ℕ) → Go W (List PasswordHistoryEntry)
  unfolding find_rows history_query scan_entry
  get_history user_id = find_rows db (history_query user_id) scan_entry
