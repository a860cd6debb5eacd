-- ===== src/Oidc/Endpoints.antt =====
-- The endpoints of handlers/oidc/oidc.go, and `Grant` of services/OidcService.go.
pub mod Login
pub mod Granting
use Prim.Native.Char.{code}
use holvit_backend.Prelude.{
  ℕ, String, str_append, str_eq, List, [], ◌∷◌, ◌++◌, Bool, true, false, Option, none, some,
  if◌then◌else◌, ◌==◌,
}
use holvit_backend.Go.{
  Error, http_error, Outcome, done, panicked, Go, Result, ok, err, ◌>>=◌, ◌>>◌, pure, lift,
}
use holvit_backend.Filter.{single}
use holvit_backend.Tokens.Service.{AuthorizationRequest, LoginInfo, store_login_code}
use holvit_backend.Auth.Env.{Realm, reads}
use holvit_backend.Oidc.Env.{Env}
use holvit_backend.Oidc.Grants.{
  AuthorizationCodeTokenRequest, RefreshTokenRequest, TokenResponse, handle_authorization_code,
  handle_refresh_token,
}
use holvit_backend.Oidc.Authorize.{
  AuthorizationResponse, AuthorizeEnv, Scope, current_user_id, authorize,
}

-- A request: how `ParseForm` ends, `Form.Get` (empty for a missing value), `BasicAuth`, its URL.
pub record HttpRequest : Type 0 where
  pub parse_form : Result (Unit {0})
  pub form : String → String
  pub basic_auth : Option (String × String)
  pub url : String

-- What is written: the tokens, or null where there are none, with the status 200; the page for the
-- login; or what the authorization answers.
pub data Response : Type 0 where
  token_response : Option TokenResponse → Response
  login_page : (token : String) (use_remember_me : Bool) → Response
  authorization : AuthorizationResponse → Response

-- The world, the errors of the request context, and the responses that are written.
pub record Exchange (W : Type 0) : Type 0 where
  pub world : W
  pub errors : List Error
  pub responses : List Response

-- `strings.Split(s, " ")`, where `part` is read already
unfoldable pub split_from : String → String → List String
split_from part String.[] = part ∷ []
split_from part (String.◌∷◌ c s) =
    let next = part ∷ split_from "" s in
    let longer = split_from (str_append part (String.◌∷◌ c String.[])) s in
    if code c == b' ' then next else longer

abbrev pub split : String → List String
unfolding split_from
split s = split_from "" s

module _ {W : Type 0} where
  abbrev pub in_world : {A : Type 0} → Go W A → Go (Exchange W) A
  in_world m x = let (r, w) = m x.world in (r, record x { world = w })

  -- `rcs.Error`
  abbrev pub add_error : Error → Go (Exchange W) (Unit {0})
  add_error e x = (done tt, record x { errors = x.errors ++ e ∷ [] })

  abbrev pub respond : Response → Go (Exchange W) (Unit {0})
  respond r x = (done tt, record x { responses = x.responses ++ r ∷ [] })

  -- An error is recorded, and otherwise the handler goes on.
  abbrev pub unless_error :
      {A : Type 0} → Result A → (A → Go (Exchange W) (Unit {0})) → Go (Exchange W) (Unit {0})
  unless_error (err e) go_on = add_error e
  unless_error (ok a) go_on = go_on a

-- `hasBasicAuth` and the form decide the client.
abbrev pub client_of : HttpRequest → String × Option String
client_of r = elim r.basic_auth [
  | some (id, secret) ↦ (id, some secret)
  | none ↦ (r.form "client_id", none)
]

abbrev pkce_verifier_of : String → Option String
pkce_verifier_of verifier = if str_eq verifier "" then none else some verifier

abbrev pub code_request : HttpRequest → AuthorizationCodeTokenRequest
code_request r = record {
  redirect_uri = r.form "redirect_uri";
  code = r.form "code";
  client_id = (client_of r).0;
  client_secret = (client_of r).1;
  pkce_verifier = pkce_verifier_of (r.form "code_verifier");
}

abbrev pub refresh_request : HttpRequest → RefreshTokenRequest
unfolding split_from
refresh_request r = record {
  refresh_token = r.form "refresh_token";
  client_id = (client_of r).0;
  client_secret = (client_of r).1;
  scope_names = split (r.form "scope");
}

abbrev pub some_response : Result TokenResponse → Result (Option TokenResponse)
some_response (err e) = err e
some_response (ok t) = ok (some t)

abbrev pub unsupported : String → Error
unsupported grant_type =
    http_error 400 (str_append "Unsupported grant_type '" (str_append grant_type "'"))

module _ {W K : Type 0} (env : Env W K) where
  -- the switch on the type of the grant; another type is an error, and leaves the response nil
  unfoldable pub grant_tokens : HttpRequest → Go (Exchange W) (Result (Option TokenResponse))
  unfolding handle_authorization_code handle_refresh_token split_from
  grant_tokens r =
      let by_code = (do
        t ← in_world (handle_authorization_code env (code_request r))
        pure (some_response t)) in
      let by_refresh_token = (do
        t ← in_world (handle_refresh_token env (refresh_request r))
        pure (some_response t)) in
      let other = (do add_error (unsupported (r.form "grant_type")); pure (ok none)) in
      if str_eq (r.form "grant_type") "authorization_code"
      then by_code
      else if str_eq (r.form "grant_type") "refresh_token"
      then by_refresh_token
      else other

  -- `Token`
  unfoldable pub token : HttpRequest → Go (Exchange W) (Unit {0})
  unfolding grant_tokens
  token r = unless_error r.parse_form λ u. (do
    result ← grant_tokens r
    unless_error result λ response. respond (token_response response))

-- What `login` stores.
abbrev pub login_info : Realm → (url : String) → LoginInfo
login_info realm url = record {
  next_step = "verify_password";
  realm_id = realm.id;
  user_id = 0;
  device_id = "";
  remember_me = false;
  encrypted_totp_onboarding_secret_base64 = "";
  original_url = url;
}

module _ {W : Type 0} (env : AuthorizeEnv W) where
  abbrev show_login : (realm_name : String) → HttpRequest → Go (Exchange W) (Unit {0})
  unfolding store_login_code
  show_login realm_name r = do
    realms ← in_world (reads (env.find_realms realm_name))
    realm ← lift (single realms)
    login_token ← in_world (store_login_code env.tokens (login_info realm r.url))
    respond (login_page login_token realm.enable_remember_me)

  -- `login`
  unfoldable pub login : (realm_name : String) → HttpRequest → Go (Exchange W) (Unit {0})
  unfolding store_login_code
  login realm_name r = unless_error r.parse_form λ u. show_login realm_name r

  abbrev pub authorization_request : (realm_name : String) → HttpRequest → AuthorizationRequest
  unfolding split_from
  authorization_request realm_name r = record {
    response_types = split (r.form "response_type");
    realm_name = realm_name;
    client_id = r.form "client_id";
    redirect_uri = r.form "redirect_uri";
    scopes = split (r.form "scope");
    state = r.form "state";
    response_mode = r.form "response_mode";
    pkce_challenge = r.form "code_challenge";
    pkce_challenge_method = r.form "code_challenge_method";
  }

  abbrev authorize_user : (realm_name : String) → HttpRequest → Go (Exchange W) (Unit {0})
  unfolding authorize split_from
  authorize_user realm_name r = do
    result ← in_world (authorize env (authorization_request realm_name r))
    unless_error result λ response. respond (authorization response)

  abbrev by_session : Option ℕ → (realm_name : String) → HttpRequest → Go (Exchange W) (Unit {0})
  unfolding login authorize split_from
  by_session none realm_name r = login realm_name r
  by_session (some user_id) realm_name r = authorize_user realm_name r

  -- `Authorize` of the handlers
  unfoldable pub authorize_endpoint :
      (realm_name : String) → HttpRequest → Go (Exchange W) (Unit {0})
  unfolding login authorize split_from
  authorize_endpoint realm_name r =
      unless_error r.parse_form λ u. by_session env.user_id realm_name r

  -- `Grant`, over what it asks of the repository of scopes: the scopes of these names, and the
  -- rows of grants that are added.
  module _ (find_named_scopes : (realm_id : ℕ) (names : List String) → W → List Scope)
      (create_grants : (user_id client_id : ℕ) (scope_ids : List ℕ) → W → W) where
    abbrev ids_of : List Scope → List ℕ
    ids_of [] = []
    ids_of (s ∷ scopes) = s.id ∷ ids_of scopes

    unfoldable pub grant :
        (realm_id client_id : ℕ) (scope_names : List String)
        → AuthorizationRequest
        → Go W (Result AuthorizationResponse)
    unfolding authorize
    grant realm_id client_id scope_names request = do
      scopes ← reads (find_named_scopes realm_id scope_names)
      user_id ← lift (current_user_id env)
      λ w. (done tt, create_grants user_id client_id (ids_of scopes) w)
      authorize env request
