-- ===== src/Tests/Grants.antt =====
-- Runs of the token endpoints and of the transaction around a request.
use holvit_backend.Prelude.{
  ℕ, String, str_append, str_eq, eq_iff, [], ◌∷◌, ◌≡◌, refl, arith, true, false, some, none,
  if◌then◌else◌,
}
use holvit_backend.Go.{http_error, plain_error, done, panicked, ok, Go, ◌>>◌, pure, panic}
use holvit_backend.Hashing.{bcrypt}
use holvit_backend.Tokens.Service.{CodeInfo, retrieve_info, retrieve_oidc_code}
use holvit_backend.Oidc.Env.{Client, RefreshToken, Env}
use holvit_backend.Oidc.Clients.{authenticate}
use holvit_backend.Oidc.RefreshTokens.{create_refresh_token, validate_and_refresh}
use holvit_backend.Oidc.Grants.{
  AuthorizationCodeTokenRequest, RefreshTokenRequest, TokenResponse, contains, check_pkce,
  make_id_token, sign_tokens, issue_tokens, exchange_for, exchange_code, handle_authorization_code,
  handle_refresh_token,
}
use holvit_backend.Oidc.Checks.{
  IsFor, validate_and_refresh-any_client, check_pkce-takes_any_verifier,
  handle_authorization_code-checked, handle_refresh_token-checked,
}
use holvit_backend.RequestContext.{Context, Mode, new_context, exec, add_error, handle_error, serve}
use holvit_backend.RequestContext.Commit.{serve-rolls_back, serve-commits_panic}
use holvit_backend.Tests.Codec.{to_json, oidc}
use holvit_backend.Tests.World.{World, redis, tokens, decode, empty}

abbrev pub client : Client
client = record { id = 2; realm_id = 1; client_id = "app"; client_secret = none }

abbrev other_client : Client
other_client = record { id = 3; realm_id = 1; client_id = "other"; client_secret = none }

abbrev refresh_row : RefreshToken
refresh_row = record {
  id = 9;
  user_id = 7;
  client_id = 2;
  realm_id = 1;
  hashed_token = "#old";
  valid_until = 2000;
  issuer = "issuer";
  subject = "7";
  audience = "app";
  scopes = "openid" ∷ "email" ∷ [];
}

abbrev env : Env World String
env = record {
  tokens = tokens;
  now = λ w. 1000;
  find_clients = λ id w. if str_eq id "app" then client ∷ [] else other_client ∷ [];
  update_client_secret = λ id hashed. pure (ok tt);
  find_refresh_tokens = λ hashed w. if str_eq hashed "#old" then refresh_row ∷ [] else [];
  delete_refresh_token = λ id w. w;
  create_refresh_token = λ row w. (10, w);
  find_scope_ids = λ realm_id names w. 2 ∷ [];
  get_claims = λ user_id scope_ids w. ("name", "Ada") ∷ [];
  uuid_string = λ id. "7";
  decode_hash = decode;
  hasher = bcrypt 12;
  hash = λ plain w. (plain, w);
  cheap_hash = λ s. str_append "#" s;
  random_string_base64 = λ w. ("new", w);
  get_key = λ realm_id w. some "key";
  sign_id = λ key t. ok (str_append key t.subject);
  sign_access = λ key t. ok key;
  base64_sha256 = λ s. str_append "hash of " s;
  trim_right_equals = λ s. s;
}

abbrev code_info : CodeInfo
code_info = record {
  realm_id = 1;
  client_id = "app";
  user_id = 7;
  redirect_uri = "/back";
  granted_scopes = "openid" ∷ [];
  granted_scope_ids = 2 ∷ [];
  pkce_challenge = "challenge";
}

abbrev with_code : World
with_code = redis.set "oidcCode:abc" ((to_json oidc).marshal code_info) 30 empty

abbrev taken : World
taken = (redis.get_del "oidcCode:abc" with_code).1

abbrev request : String → String → AuthorizationCodeTokenRequest
request uri id = record {
  redirect_uri = uri;
  code = "abc";
  client_id = id;
  client_secret = none;
  pkce_verifier = some "guess";
}

found : retrieve_oidc_code tokens "abc" with_code ≡ (done (some code_info), taken)
unfolding retrieve_oidc_code retrieve_info
found = refl

other_authenticated : authenticate env "other" none taken ≡ (done (ok other_client), taken)
unfolding authenticate
other_authenticated = refl

abbrev response : TokenResponse
response = record {
  token_type = "Bearer";
  id_token = "key7";
  access_token = "key";
  refresh_token = "new";
  scope = some "openid";
  expires_in = 3600;
}

granted :
    handle_authorization_code env (request "/back" "app") with_code ≡ (done (ok response), taken)
unfolding handle_authorization_code exchange_code exchange_for issue_tokens sign_tokens
    make_id_token authenticate create_refresh_token retrieve_oidc_code retrieve_info
granted = refl

-- The token was made for the client 2, and the client 3 gets it.
validate_and_refresh-any_client_example : validate_and_refresh env "old" 3 empty ≡ (
  done (
      ok (
        "new",
        record refresh_row { id = 10; client_id = 3; hashed_token = "#new"; valid_until = 4600 },
      )),
  empty,
)
validate_and_refresh-any_client_example =
    validate_and_refresh-any_client env "old" 3 refresh_row empty refl refl

check_pkce-takes_any_verifier_example : check_pkce env none "challenge" (some "guess") ≡ done none
check_pkce-takes_any_verifier_example =
    check_pkce-takes_any_verifier env "challenge" "guess" (ground (arith, eq_iff "challenge" ""))
      (ground (arith, eq_iff "guess" "hash of guess"))

handle_authorization_code-checked_example :
    (info : CodeInfo) × (client : Client) × ((retrieve_oidc_code tokens "abc" with_code).0
      ≡ done (some info))
    × IsFor env (request "/back" "app") info (retrieve_oidc_code tokens "abc" with_code).1 client
handle_authorization_code-checked_example =
    handle_authorization_code-checked env (request "/back" "app") response with_code taken granted

abbrev refresh_request : RefreshTokenRequest
refresh_request = record {
  refresh_token = "old";
  client_id = "app";
  client_secret = none;
  scope_names = "email" ∷ [];
}

refreshed_tokens :
    handle_refresh_token env refresh_request empty
    ≡ (done (ok (record response { scope = none })), empty)
unfolding handle_refresh_token validate_and_refresh create_refresh_token sign_tokens make_id_token
    authenticate
refreshed_tokens = refl

handle_refresh_token-checked_example :
    let authenticated = authenticate env "app" none empty in
    (client : Client) × (text : String) × (row : RefreshToken) × (authenticated.0
      ≡ done (ok client))
    × ((validate_and_refresh env "old" client.id authenticated.1).0 ≡ done (ok (text, row)))
    × ((s : String) → contains ("email" ∷ []) s ≡ true → contains row.scopes s ≡ true)
handle_refresh_token-checked_example =
    handle_refresh_token-checked env refresh_request (record response { scope = none }) empty empty
      refreshed_tokens

abbrev in_production : Mode
in_production = record { production = true; development = false }

-- Handlers on a database of one number: each writes, and then records an error or panics.
abbrev failing : Go (Context ℕ) (Unit {0})
failing c = (exec (λ n. 5) >> add_error (http_error 401 "no")) c

abbrev panicking : Go (Context ℕ) (Unit {0})
panicking c = (exec (λ n. 5) >> panic (plain_error "broken")) c

abbrev failed : Context ℕ
failed = record (new_context 1) { tx = some 5; errors = http_error 401 "no" ∷ [] }

failing_ends : failing (new_context 1) ≡ (done tt, failed)
unfolding exec add_error
failing_ends = refl

panicking_ends :
    panicking (new_context 1)
    ≡ (panicked (plain_error "broken"), record (new_context 1) { tx = some 5 })
unfolding exec
panicking_ends = refl

serve-rolls_back_example :
    ((serve in_production failing 1).database ≡ 1)
    × ((serve in_production failing 1).response ≡ some (401, "\n"))
unfolding handle_error
serve-rolls_back_example =
    serve-rolls_back in_production failing 1 (done tt) failed (http_error 401 "no") [] failing_ends
      refl refl

serve-commits_panic_example :
    ((serve in_production panicking 1).database ≡ 5)
    × ((serve in_production panicking 1).response
        ≡ some (500, "An internal server error occurred\n"))
unfolding handle_error
serve-commits_panic_example =
    serve-commits_panic in_production panicking 1 5 (record (new_context 1) { tx = some 5 })
      (plain_error "broken") panicking_ends refl refl
