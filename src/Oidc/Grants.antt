-- ===== src/Oidc/Grants.antt =====
-- The grants of services/OidcService.go that give tokens, and `IsSliceSubset` of utils/slices.go.
-- What `GetClaims` of services/ClaimsService.go returns is a part of the interface.
use holvit_backend.Prelude.{
  ℕ, ◌+◌, String, str_eq, List, [], ◌∷◌, Bool, true, false, ◌&&◌, Option, none, some, if◌then◌else◌,
}
use holvit_backend.Go.{
  Error, http_error, Outcome, done, panicked, Go, Result, ok, err, ◌>>=◌, pure, lift, unwrap_err,
  unwrap_result,
}
use holvit_backend.Sqlb.Insert.{join}
use holvit_backend.Tokens.Service.{CodeInfo, retrieve_oidc_code}
use holvit_backend.Auth.Env.{reads}
use holvit_backend.Oidc.Env.{Client, IdToken, AccessToken, Env}
use holvit_backend.Oidc.Clients.{authenticate}
use holvit_backend.Oidc.RefreshTokens.{create_refresh_token, validate_and_refresh}

-- `AuthorizationCodeTokenRequest`, `RefreshTokenRequest` and `TokenResponse`
pub record AuthorizationCodeTokenRequest : Type 0 where
  pub redirect_uri : String
  pub code : String
  pub client_id : String
  pub client_secret : Option String
  pub pkce_verifier : Option String

pub record RefreshTokenRequest : Type 0 where
  pub refresh_token : String
  pub client_id : String
  pub client_secret : Option String
  pub scope_names : List String

pub record TokenResponse : Type 0 where
  pub token_type : String
  pub id_token : String
  pub access_token : String
  pub refresh_token : String
  pub scope : Option String
  pub expires_in : ℕ

-- a lookup in the map of `IsSliceSubset`
abbrev pub contains : List String → String → Bool
contains [] s = false
contains (x ∷ xs) s = if str_eq x s then true else contains xs s

-- `IsSliceSubset`
abbrev pub is_slice_subset : (set subset : List String) → Bool
is_slice_subset set [] = true
is_slice_subset set (v ∷ rest) = contains set v && is_slice_subset set rest

abbrev pub issuer : String
issuer = "http://localhost:8080/oidc"

module _ {W K : Type 0} (env : Env W K) where
  open env use {tokens}

  -- `return nil, err` of a statement whose error ends the function
  abbrev or_return : {A B : Type 0} → Result A → (A → Go W (Result B)) → Go W (Result B)
  or_return (err e) go_on = pure (err e)
  or_return (ok a) go_on = go_on a

  -- `makeIdToken`
  unfoldable pub make_id_token : ℕ → List ℕ → (subject issuer audience : String) → ℕ → Go W IdToken
  make_id_token user_id scope_ids subject issuer audience now = do
    claims ← reads (env.get_claims user_id scope_ids)
    pure (record {
      subject = subject;
      issuer = issuer;
      audience = audience;
      issued_at = now;
      expires = now + 3600;
      claims = claims;
    })

  -- The realm's key signs both tokens.
  abbrev key_or_error : Option K → Result K
  key_or_error none = err (http_error 401 "could not get realm key")
  key_or_error (some key) = ok key

  unfoldable pub sign_tokens :
      ℕ
      → IdToken
      → AccessToken
      → (String → String → Go W (Result TokenResponse))
      → Go W (Result TokenResponse)
  sign_tokens realm_id id_token access_token go_on = do
    found ← reads (env.get_key realm_id)
    or_return (key_or_error found) λ key. or_return (env.sign_id key id_token) λ id_text.
        or_return (env.sign_access key access_token) λ access_text. go_on id_text access_text

  abbrev bearer : (id_token access_token refresh_token : String) → Option String → TokenResponse
  bearer id_token access_token refresh_token scope = record {
    token_type = "Bearer";
    id_token = id_token;
    access_token = access_token;
    refresh_token = refresh_token;
    scope = scope;
    expires_in = 3600;
  }

  -- `Sha256Compare`
  abbrev pub sha256_compare : String → String → Bool
  sha256_compare a b = str_eq (env.trim_right_equals a) (env.trim_right_equals b)

  abbrev verify_code : String → Outcome (Option Error)
  verify_code verifier = done (
      if sha256_compare verifier (env.base64_sha256 verifier)
      then some (http_error 401 "wrong PKCE code verifier")
      else none)

  abbrev pkce_required : Error
  pkce_required = http_error 401 "PKCE required"

  -- What the handler demands of a client without a secret: an error that it returns, a panic, or
  -- nothing.
  abbrev check_verifier : Option String → Outcome (Option Error)
  check_verifier none = panicked pkce_required
  check_verifier (some verifier) = verify_code verifier

  abbrev pub check_pkce :
      Option String → (challenge : String) → Option String → Outcome (Option Error)
  check_pkce (some _) challenge verifier = done none
  check_pkce none challenge verifier =
      if str_eq challenge "" then panicked pkce_required else check_verifier verifier

  -- The tokens for a code that passed every test.
  unfoldable pub issue_tokens : CodeInfo → Client → ℕ → Go W (Result TokenResponse)
  unfolding make_id_token sign_tokens
  issue_tokens info client now = do
    id_token ←
        make_id_token info.user_id info.granted_scope_ids (env.uuid_string info.user_id) issuer
          client.client_id now
    sign_tokens client.realm_id id_token
        (record {
          user_id = info.user_id;
          scopes = info.granted_scopes;
          issued_at = now;
          expires = now + 3600;
        })
        λ id_text access_text. (do
          (refresh, _) ← create_refresh_token env (record {
            client_id = client.id;
            user_id = info.user_id;
            realm_id = client.realm_id;
            issuer = issuer;
            subject = env.uuid_string info.user_id;
            audience = client.client_id;
            scopes = info.granted_scopes;
          })
          pure (ok (bearer id_text access_text refresh (some (join info.granted_scopes " ")))))

  abbrev issue_unless : Option Error → Go W (Result TokenResponse) → Go W (Result TokenResponse)
  issue_unless none issue = issue
  issue_unless (some e) issue = pure (err e)

  -- the part of `HandleAuthorizationCode` after the client is authenticated
  unfoldable pub exchange_for :
      AuthorizationCodeTokenRequest → CodeInfo → ℕ → Client → Go W (Result TokenResponse)
  exchange_for request info now client =
      let issue = (do
        refused ← lift (check_pkce client.client_secret info.pkce_challenge request.pkce_verifier)
        issue_unless refused (issue_tokens info client now)) in
      if str_eq info.client_id client.client_id
      then issue
      else pure (err (http_error 401 "wrong client id"))

  -- the part after the code is found
  unfoldable pub exchange_code :
      AuthorizationCodeTokenRequest → ℕ → CodeInfo → Go W (Result TokenResponse)
  exchange_code request now info =
      let exchange = (do
        authenticated ← authenticate env request.client_id request.client_secret
        client ← lift (unwrap_result authenticated)
        exchange_for request info now client) in
      if str_eq request.redirect_uri info.redirect_uri
      then exchange
      else pure (err (http_error 401 "invalid redirect uri"))

  -- `HandleAuthorizationCode`
  unfoldable pub handle_authorization_code :
      AuthorizationCodeTokenRequest → Go W (Result TokenResponse)
  unfolding exchange_code
  handle_authorization_code request = do
    now ← reads env.now
    found ← retrieve_oidc_code tokens request.code
    info ← lift (unwrap_err (http_error 401 "token not found") found)
    exchange_code request now info

  -- `HandleRefreshToken`
  unfoldable pub handle_refresh_token : RefreshTokenRequest → Go W (Result TokenResponse)
  unfolding make_id_token sign_tokens
  handle_refresh_token request = do
    now ← reads env.now
    authenticated ← authenticate env request.client_id request.client_secret
    client ← lift (unwrap_result authenticated)
    exchanged ← validate_and_refresh env request.refresh_token client.id
    (refresh, row) ← lift (unwrap_result exchanged)
    let issue = (do
      scope_ids ← reads (env.find_scope_ids row.realm_id request.scope_names)
      id_token ← make_id_token row.user_id scope_ids row.subject row.issuer row.audience now
      sign_tokens client.realm_id id_token
          (record {
            user_id = row.user_id;
            scopes = request.scope_names;
            issued_at = now;
            expires = now + 3600;
          })
          λ id_text access_text. pure (ok (bearer id_text access_text refresh none)))
    if is_slice_subset row.scopes request.scope_names
        then issue
        else pure (err (http_error 401 "too many scopes"))
