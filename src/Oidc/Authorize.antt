-- ===== src/Oidc/Authorize.antt =====
-- `Authorize` of services/OidcService.go, for the user of services/CurrentSessionService.go.
use holvit_backend.Prelude.{
  ℕ, String, str_append, str_eq, List, [], ◌∷◌, Bool, false, Option, none, some, if◌then◌else◌,
}
use holvit_backend.Go.{
  Error, http_error, Outcome, Go, Result, ok, err, ◌>>=◌, pure, lift, unwrap, unwrap_err,
}
use holvit_backend.Filter.{single}
use holvit_backend.Tokens.Service.{
  AuthorizationRequest, CodeInfo, TokenService, store_grant_info, store_oidc_code,
}
use holvit_backend.Auth.Env.{Realm, User, reads}
use holvit_backend.Oidc.Env.{Client}
use holvit_backend.Oidc.Grants.{contains}

-- `repos.Scope` with its grant, of which only the presence is read
pub record Scope : Type 0 where
  pub id : ℕ
  pub name : String
  pub granted : Bool

-- `ScopeConsentResponse` and `CodeAuthorizationResponse`
pub data AuthorizationResponse : Type 0 where
  scope_consent :
      (required : List Scope) (client : Client) (user : User) (token redirect_uri : String)
      → AuthorizationResponse
  code_authorization : (code redirect_uri state : String) → AuthorizationResponse

-- The database's answers, over a world `W`, and the user of the session, if there is one.
pub record AuthorizeEnv (W : Type 0) : Type 0 where
  pub tokens : TokenService W
  pub find_realms : (name : String) → W → List Realm
  pub find_clients : (realm_id : ℕ) (client_id : String) → W → List Client
  pub find_scopes : (names : List String) (user_id client_id realm_id : ℕ) → W → List Scope
  pub find_user_by_id : ℕ → W → Option User
  pub user_id : Option ℕ

-- `len(types) == 1 && types[0] == "code"`
abbrev pub asks_for_code : List String → Bool
asks_for_code (t ∷ []) = str_eq t "code"
asks_for_code [] = false
asks_for_code (t ∷ u ∷ types) = false

-- `validateResponseMode`, after the empty mode is made "query"
abbrev pub response_mode_of : String → String
response_mode_of mode = if str_eq mode "" then "query" else mode

abbrev pub validate_response_mode : String → Option Error
validate_response_mode mode =
    if str_eq mode "query"
    then none
    else if str_eq mode ""
    then none
    else some (http_error 400 (str_append "Unsupported response mode " mode))

-- The PKCE challenge that is stored with a code, by the client's secret.
abbrev pub challenge_of : Option String → (challenge method : String) → Result String
challenge_of (some _) challenge method =
    if str_eq challenge ""
    then ok ""
    else err (http_error 400 "clients with a secret cannot use PKCE")
challenge_of none challenge method =
    if str_eq challenge ""
    then err (http_error 400 "clients without a secret must use PKCE")
    else if str_eq method "S256"
    then ok challenge
    else err (
        http_error 400
          (str_append "Unsupported PKCE code challenge method '" (str_append method "'")))

-- the loops over the scopes
abbrev pub missing_grants : List Scope → List Scope
missing_grants [] = []
missing_grants (s ∷ scopes) =
    let rest = missing_grants scopes in if s.granted then rest else s ∷ rest

abbrev pub granted_names : List Scope → List String
granted_names [] = []
granted_names (s ∷ scopes) =
    let rest = granted_names scopes in if s.granted then s.name ∷ rest else rest

abbrev pub granted_ids : List Scope → List ℕ
granted_ids [] = []
granted_ids (s ∷ scopes) = let rest = granted_ids scopes in if s.granted then s.id ∷ rest else rest

module _ {W : Type 0} (env : AuthorizeEnv W) where
  -- `CurrentSessionService.UserId`
  abbrev pub current_user_id : Outcome ℕ
  current_user_id = unwrap_err (http_error 401 "not authorized") env.user_id

  abbrev or_return : {A B : Type 0} → Result A → (A → Go W (Result B)) → Go W (Result B)
  or_return (err e) go_on = pure (err e)
  or_return (ok a) go_on = go_on a

  -- A page that asks the user for the grants that are missing.
  abbrev ask_consent :
      AuthorizationRequest → Realm → Client → ℕ → List Scope → Go W (Result AuthorizationResponse)
  ask_consent request realm client user_id missing = do
    token ←
        store_grant_info env.tokens
          (record { client_id = client.id; realm_id = realm.id; authorization_request = request })
    found ← reads (env.find_user_by_id user_id)
    user ← lift (unwrap found)
    pure (ok (scope_consent missing client user token request.redirect_uri))

  -- What is stored with the code.
  abbrev pub code_info :
      AuthorizationRequest → Realm → Client → ℕ → List Scope → (challenge : String) → CodeInfo
  code_info request realm client user_id scopes challenge = record {
    realm_id = realm.id;
    client_id = client.client_id;
    user_id = user_id;
    redirect_uri = request.redirect_uri;
    granted_scopes = granted_names scopes;
    granted_scope_ids = granted_ids scopes;
    pkce_challenge = challenge;
  }

  abbrev give_code :
      AuthorizationRequest
      → Realm
      → Client
      → ℕ
      → List Scope
      → String
      → Go W (Result AuthorizationResponse)
  give_code request realm client user_id scopes challenge = do
    code ← store_oidc_code env.tokens (code_info request realm client user_id scopes challenge)
    pure (ok (code_authorization code request.redirect_uri request.state))

  abbrev consent_or_code :
      AuthorizationRequest
      → Realm
      → Client
      → ℕ
      → List Scope
      → String
      → List Scope
      → Go W (Result AuthorizationResponse)
  consent_or_code request realm client user_id scopes challenge [] =
      give_code request realm client user_id scopes challenge
  consent_or_code request realm client user_id scopes challenge (s ∷ missing) =
      ask_consent request realm client user_id (s ∷ missing)

  -- the part after the tests of the request alone
  unfoldable pub authorize_client : AuthorizationRequest → Go W (Result AuthorizationResponse)
  authorize_client request = do
    realms ← reads (env.find_realms request.realm_name)
    realm ← lift (single realms)
    clients ← reads (env.find_clients realm.id request.client_id)
    client ← lift (single clients)
    or_return
        (challenge_of client.client_secret request.pkce_challenge request.pkce_challenge_method)
        λ challenge. (do
          user_id ← lift current_user_id
          scopes ← reads (env.find_scopes request.scopes user_id client.id realm.id)
          consent_or_code request realm client user_id scopes challenge (missing_grants scopes))

  abbrev authorize_scopes :
      AuthorizationRequest → Option Error → Go W (Result AuthorizationResponse)
  authorize_scopes request (some e) = pure (err e)
  authorize_scopes request none =
      if contains request.scopes "openid"
      then authorize_client request
      else pure (err (http_error 400 "the openid scope is mandatory"))

  -- `Authorize`
  unfoldable pub authorize : AuthorizationRequest → Go W (Result AuthorizationResponse)
  authorize request =
      let mode = response_mode_of request.response_mode in
      let accepted =
        authorize_scopes (record request { response_mode = mode }) (validate_response_mode mode) in
      if asks_for_code request.response_types
      then accepted
      else pure (err (http_error 400 "Unsupported authorization flow, only supporting 'code'"))
