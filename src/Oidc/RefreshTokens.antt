-- ===== src/Oidc/RefreshTokens.antt =====
-- `ValidateAndRefresh` and `CreateRefreshToken` of services/RefreshTokenService.go.
use holvit_backend.Prelude.{ℕ, ◌+◌, String, List, ltb, if◌then◌else◌}
use holvit_backend.Go.{http_error, Go, Result, ok, err, ◌>>=◌, ◌>>◌, pure, lift}
use holvit_backend.Filter.{single}
use holvit_backend.Auth.Env.{reads, writes, returns}
use holvit_backend.Oidc.Env.{RefreshToken, Env}

-- `CreateRefreshTokenRequest`
pub record CreateRefreshTokenRequest : Type 0 where
  pub client_id : ℕ
  pub user_id : ℕ
  pub realm_id : ℕ
  pub issuer : String
  pub subject : String
  pub audience : String
  pub scopes : List String

-- what a token that is still valid is exchanged for
abbrev pub refreshed : RefreshToken → ℕ → CreateRefreshTokenRequest
refreshed row client_id = record {
  client_id = client_id;
  user_id = row.user_id;
  realm_id = row.realm_id;
  issuer = row.issuer;
  subject = row.subject;
  audience = row.audience;
  scopes = row.scopes;
}

module _ {W K : Type 0} (env : Env W K) where
  -- The row of a request's token, before the database gives it an id.
  abbrev pub token_row : CreateRefreshTokenRequest → (hashed : String) (now : ℕ) → RefreshToken
  token_row request hashed now = record {
    id = 0;
    user_id = request.user_id;
    client_id = request.client_id;
    realm_id = request.realm_id;
    hashed_token = hashed;
    valid_until = now + 3600;
    issuer = request.issuer;
    subject = request.subject;
    audience = request.audience;
    scopes = request.scopes;
  }

  -- `CreateRefreshToken`
  unfoldable pub create_refresh_token : CreateRefreshTokenRequest → Go W (String × RefreshToken)
  create_refresh_token request = do
    now ← reads env.now
    token ← returns env.random_string_base64
    let row = token_row request (env.cheap_hash token) now
    id ← returns (env.create_refresh_token row)
    pure (token, record row { id = id })

  -- `ValidateAndRefresh`
  unfoldable pub validate_and_refresh :
      (token : String) (client_id : ℕ) → Go W (Result (String × RefreshToken))
  unfolding create_refresh_token
  validate_and_refresh token client_id = do
    now ← reads env.now
    rows ← reads (env.find_refresh_tokens (env.cheap_hash token))
    row ← lift (single rows)
    let exchange = (do
      writes (env.delete_refresh_token row.id)
      created ← create_refresh_token (refreshed row client_id)
      pure (ok created))
    if ltb row.valid_until now then pure (err (http_error 401 "token not valid")) else exchange
