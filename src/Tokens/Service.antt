-- ===== src/Tokens/Service.antt =====
-- The operations of the token service: services/TokenService.go.
use holvit_backend.Prelude.{
  ℕ, ◌*◌, String, str_append, List, Bool, true, Option, none, some, if◌then◌else◌,
}
use holvit_backend.Go.{Outcome, done, panicked, Go, Error, http_error, plain_error, ◌>>=◌, pure}
use holvit_backend.Tokens.Store.{Redis, Json}

-- `AuthorizationRequest` of services/OidcService.go
pub record AuthorizationRequest : Type 0 where
  pub response_types : List String
  pub realm_name : String
  pub client_id : String
  pub redirect_uri : String
  pub scopes : List String
  pub state : String
  pub response_mode : String
  pub pkce_challenge : String
  pub pkce_challenge_method : String

-- A `uuid.UUID` is compared and passed on only; it is a number.
pub record GrantInfo : Type 0 where
  pub client_id : ℕ
  pub realm_id : ℕ
  pub authorization_request : AuthorizationRequest

pub record CodeInfo : Type 0 where
  pub realm_id : ℕ
  pub client_id : String
  pub user_id : ℕ
  pub redirect_uri : String
  pub granted_scopes : List String
  pub granted_scope_ids : List ℕ
  pub pkce_challenge : String

pub record LoginInfo : Type 0 where
  pub next_step : String
  pub realm_id : ℕ
  pub user_id : ℕ
  pub device_id : String
  pub remember_me : Bool
  pub encrypted_totp_onboarding_secret_base64 : String
  pub original_url : String

-- `name+":"+token`
abbrev pub key : String → String → String
key name token = str_append name (str_append ":" token)

-- `config.C.IsDevelopment()` is `development`; times are in seconds.
abbrev pub expiration_of : Bool → ℕ → ℕ
expiration_of development expiration = if development then 24 * 3600 else expiration

abbrev or_panic : {A : Type 0} → Option A → Outcome (Option A)
or_panic none = panicked (plain_error "json")
or_panic (some info) = done (some info)

module _ {W A : Type 0} (redis : Redis W) (json : Json A) (development : Bool) where
  open redis use {set, get, get_del}

  -- `storeInfo`, with the token that the random bytes give
  unfoldable pub store_info : A → String → (token : String) → ℕ → Go W String
  store_info info name token expiration w = (
    done token,
    set (key name token) (json.marshal info) (expiration_of development expiration) w,
  )

  -- `overwriteInfo`, which always finds the token
  unfoldable pub overwrite_info : A → String → (token : String) → ℕ → Go W Bool
  overwrite_info info name token expiration w =
      (done true, set (key name token) (json.marshal info) (expiration_of development expiration) w)

  -- the end of `retrieveInfo` and of `peekInfo`: a missing key is no error, a bad value is
  abbrev decode : Option String → Outcome (Option A)
  decode none = done none
  decode (some val) = or_panic (json.unmarshal val)

  unfoldable pub retrieve_info : String → String → Go W (Option A)
  retrieve_info name token w = let (val, w') = get_del (key name token) w in (decode val, w')

  unfoldable pub peek_info : String → String → Go W (Option A)
  peek_info name token w = (decode (get (key name token) w), w)

-- The service at the types and the names that its methods use.
pub record TokenService (W : Type 0) : Type 0 where
  pub redis : Redis W
  pub grant_json : Json GrantInfo
  pub code_json : Json CodeInfo
  pub login_json : Json LoginInfo
  pub development : Bool
  pub next_token : W → String × W

module _ {W : Type 0} (s : TokenService W) where
  open s use {redis, grant_json, code_json, login_json, development}

  -- `utils.GenerateRandomBytes(32)`, in base64
  abbrev random_token : Go W String
  random_token w = let (token, w') = s.next_token w in (done token, w')

  unfoldable pub store_login_code : LoginInfo → Go W String
  unfolding store_info
  store_login_code info = do
    token ← random_token
    store_info redis login_json development info "loginCode" token (30 * 60)

  unfoldable pub store_oidc_code : CodeInfo → Go W String
  unfolding store_info
  store_oidc_code info = do
    token ← random_token
    store_info redis code_json development info "oidcCode" token 30

  unfoldable pub store_grant_info : GrantInfo → Go W String
  unfolding store_info
  store_grant_info info = do
    token ← random_token
    store_info redis grant_json development info "grantInfo" token (5 * 60)

  unfoldable pub peek_login_code : String → Go W (Option LoginInfo)
  unfolding peek_info
  peek_login_code token = peek_info redis login_json development "loginCode" token

  unfoldable pub retrieve_login_code : String → Go W (Option LoginInfo)
  unfolding retrieve_info
  retrieve_login_code token = retrieve_info redis login_json development "loginCode" token

  unfoldable pub retrieve_oidc_code : String → Go W (Option CodeInfo)
  unfolding retrieve_info
  retrieve_oidc_code token = retrieve_info redis code_json development "oidcCode" token

  unfoldable pub retrieve_grant_info : String → Go W (Option GrantInfo)
  unfolding retrieve_info
  retrieve_grant_info token = retrieve_info redis grant_json development "grantInfo" token

  -- `OverwriteLoginCode`, whose result is an error where the token was not found
  unfoldable pub overwrite_login_code : String → LoginInfo → Go W (Option Error)
  unfolding overwrite_info
  overwrite_login_code token info = do
    found ← overwrite_info redis login_json development info "loginCode" token (30 * 60)
    pure (
        if found
        then none
        else some (http_error 404 (str_append "login code " (str_append token " not found"))))
