-- ===== src/Repos/Sessions.antt =====
-- repos/SessionRepository.go.
use holvit_backend.Prelude.{ℕ, String, [], ◌∷◌, Option, none}
use holvit_backend.Go.{Outcome, Go, ◌>>=◌, ◌>>◌, pure, lift}
use holvit_backend.Filter.{ℤ, PagedResult, single_or_none}
use holvit_backend.Sqlb.Syntax.{string, value, SelectQuery}
use holvit_backend.Sqlb.Select.{add_from, add_where}
use holvit_backend.Sqlb.Insert.{add_values, add_returning}
use holvit_backend.Sqlb.Delete.{DeleteQuery}
use holvit_backend.Sqlb.Delete
use holvit_backend.Repos.Database.{
  Value, uuid, time, Database, Row, selected, inserted, deleted, build_of_insert, build_of_delete,
  answer_or_panic, begin, run_exec, create,
}
use holvit_backend.Repos.Filters.{BaseFilter, by_id, count_col, if_some, page_and_sort}
use holvit_backend.Repos.Rows.{
  uuid_column, text_column, int_column, time_column, end_of_row, find_paged, columns, id_column,
}
use holvit_backend.Go.{gets}

pub record Session : Type 0 where
  pub id : ℕ
  pub user_id : ℕ
  pub user_device_id : ℕ
  pub realm_id : ℕ
  pub valid_until : ℕ
  pub hashed_token : String

pub record SessionFilter : Type 0 where
  pub base : BaseFilter
  pub realm_id : Option ℕ
  pub user_id : Option ℕ
  pub hashed_token : Option String

-- the query of `FindSessions`
unfoldable pub sessions_query : SessionFilter → Outcome (SelectQuery Value)
unfolding selected add_from add_where page_and_sort
sessions_query filter =
    selected (string (count_col filter.base))
      (columns
        ("id" ∷ "user_id" ∷ "user_device_id" ∷ "realm_id" ∷ "hashed_token" ∷ "valid_until" ∷ []))
      (do
        add_from (string "sessions")
        if_some filter.realm_id λ x. add_where (string "realm_id = ?") (value (uuid x) ∷ [])
        if_some filter.user_id λ x. add_where (string "user_id = ?") (value (uuid x) ∷ [])
        page_and_sort filter.base)

unfoldable pub scan_session : Row (ℤ × Session)
scan_session = do
  total ← int_column
  id ← uuid_column
  user_id ← uuid_column
  user_device_id ← uuid_column
  realm_id ← uuid_column
  hashed_token ← text_column
  valid_until ← time_column
  end_of_row
  pure (
    total,
    record {
      id = id;
      user_id = user_id;
      user_device_id = user_device_id;
      realm_id = realm_id;
      valid_until = valid_until;
      hashed_token = hashed_token;
    },
  )

module _ {W : Type 0} (db : Database W) where
  -- `FindSessions`
  unfoldable pub find_sessions : SessionFilter → Go W (PagedResult Session)
  unfolding find_paged sessions_query scan_session
  find_sessions filter = find_paged db (sessions_query filter) scan_session

  -- `FindSessionById`
  unfoldable pub find_session_by_id : ℕ → Go W (Option Session)
  unfolding find_sessions
  find_session_by_id id = do
    found ←
        find_sessions
          (record { base = by_id id; realm_id = none; user_id = none; hashed_token = none })
    lift (single_or_none found.values)

  -- `DeleteOldSessions`; the clock is read after the transaction is taken.
  unfoldable pub delete_old_sessions : Go W (Unit {0})
  delete_old_sessions = do
    begin db
    now ← gets db.now
    sql ← lift (
        build_of_delete db
          (deleted "sessions" (Delete.add_where (string "valid_until < ") (value (time now) ∷ []))))
    r ← run_exec db sql
    lift (answer_or_panic r)

  -- `CreateSession`
  unfoldable pub create_session : Session → Go W ℕ
  unfolding create
  create_session session = create db (
      build_of_insert db (
        inserted "sessions"
          ("user_id" ∷ "user_device_id" ∷ "realm_id" ∷ "hashed_token" ∷ "valid_until" ∷ [])
          (do
            add_values (
                value (uuid session.user_id)
                ∷ value (uuid session.user_device_id)
                ∷ value (uuid session.realm_id)
                ∷ string session.hashed_token
                ∷ value (time session.valid_until)
                ∷ [])
            add_returning id_column)))
