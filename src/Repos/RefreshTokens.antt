-- ===== src/Repos/RefreshTokens.antt =====
-- repos/RefreshTokenRepository.go.
use holvit_backend.Prelude.{ℕ, String, [], ◌∷◌, Option, none}
use holvit_backend.Go.{Outcome, Go, ◌>>=◌, ◌>>◌, pure, lift}
use holvit_backend.Filter.{ℤ, PagedResult, single_or_none}
use holvit_backend.Sqlb.Syntax.{string, value, SelectQuery}
use holvit_backend.Sqlb.Select.{add_from, add_where}
use holvit_backend.Sqlb.Insert.{add_values, add_returning}
use holvit_backend.Repos.Database.{
  Value, uuid, time, texts, Database, Row, selected, inserted, build_of_insert, begin, run_exec,
  create,
}
use holvit_backend.Repos.Filters.{BaseFilter, by_id, count_col, if_some, page_and_sort}
use holvit_backend.Repos.Rows.{
  uuid_column, text_column, int_column, time_column, texts_column, end_of_row, find_paged, columns,
  id_column,
}
use holvit_backend.Oidc.Env.{RefreshToken}
use holvit_backend.Repos.Database.{unmapped}

pub record RefreshTokenFilter : Type 0 where
  pub base : BaseFilter
  pub hashed_token : Option String
  pub client_id : Option ℕ

-- the query of `FindRefreshTokens`
unfoldable pub refresh_tokens_query : RefreshTokenFilter → Outcome (SelectQuery Value)
unfolding selected add_from add_where page_and_sort
refresh_tokens_query filter =
    selected (string (count_col filter.base))
      (columns (
        "id" ∷ "user_id" ∷ "client_id" ∷ "realm_id" ∷ "hashed_token" ∷ "valid_until" ∷ "issuer"
        ∷ "subject" ∷ "audience" ∷ "scopes" ∷ []))
      (do
        add_from (string "refresh_tokens")
        if_some filter.base.id λ x. add_where (string "id = ?") (value (uuid x) ∷ [])
        if_some filter.hashed_token λ x. add_where (string "hashed_token = ?") (string x ∷ [])
        if_some filter.client_id λ x. add_where (string "client_id = ?") (value (uuid x) ∷ [])
        page_and_sort filter.base)

unfoldable pub scan_refresh_token : Row (ℤ × RefreshToken)
scan_refresh_token = do
  total ← int_column
  id ← uuid_column
  user_id ← uuid_column
  client_id ← uuid_column
  realm_id ← uuid_column
  hashed_token ← text_column
  valid_until ← time_column
  issuer ← text_column
  subject ← text_column
  audience ← text_column
  scopes ← texts_column
  end_of_row
  pure (
    total,
    record {
      id = id;
      user_id = user_id;
      client_id = client_id;
      realm_id = realm_id;
      hashed_token = hashed_token;
      valid_until = valid_until;
      issuer = issuer;
      subject = subject;
      audience = audience;
      scopes = scopes;
    },
  )

module _ {W : Type 0} (db : Database W) where
  -- `FindRefreshTokens`
  unfoldable pub find_refresh_tokens : RefreshTokenFilter → Go W (PagedResult RefreshToken)
  unfolding find_paged refresh_tokens_query scan_refresh_token
  find_refresh_tokens filter = find_paged db (refresh_tokens_query filter) scan_refresh_token

  -- `FindRefreshTokenById`
  unfoldable pub find_refresh_token_by_id : ℕ → Go W (Option RefreshToken)
  unfolding find_refresh_tokens
  find_refresh_token_by_id id = do
    found ← find_refresh_tokens (record { base = by_id id; hashed_token = none; client_id = none })
    lift (single_or_none found.values)

  -- `CreateRefreshToken`
  unfoldable pub create_refresh_token : RefreshToken → Go W ℕ
  unfolding create
  create_refresh_token refresh_token = create db (
      build_of_insert db (
        inserted "refresh_tokens"
          ("user_id" ∷ "client_id" ∷ "realm_id" ∷ "hashed_token" ∷ "valid_until" ∷ "issuer"
            ∷ "subject" ∷ "audience" ∷ "scopes" ∷ [])
          (do
            add_values (
                value (uuid refresh_token.user_id)
                ∷ value (uuid refresh_token.client_id)
                ∷ value (uuid refresh_token.realm_id)
                ∷ string refresh_token.hashed_token
                ∷ value (time refresh_token.valid_until)
                ∷ string refresh_token.issuer
                ∷ string refresh_token.subject
                ∷ string refresh_token.audience
                ∷ value (texts refresh_token.scopes)
                ∷ [])
            add_returning id_column)))

  -- `DeleteRefreshToken`, whose errors are not mapped; the count of rows is asked for, and not used
  unfoldable pub delete_refresh_token : ℕ → Go W (Unit {0})
  delete_refresh_token id = do
    begin db
    r ← run_exec db (db.sqlbuilder_delete "refresh_tokens" "id" (uuid id))
    lift (unmapped r)
