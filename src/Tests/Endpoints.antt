-- ===== src/Tests/Endpoints.antt =====
-- A browser without a session asks for an authorization.
use holvit_backend.Prelude.{[], ◌∷◌, ◌≡◌, refl, none, some, true}
use holvit_backend.Go.{done, panicked, http_error, ok}
use holvit_backend.Tokens.Service.{peek_login_code, retrieve_info, retrieve_grant_info}
use holvit_backend.Oidc.Authorize.{AuthorizeEnv}
use holvit_backend.Oidc.Endpoints.{
  HttpRequest, Exchange, login_page, login_info, authorize_endpoint,
}
use holvit_backend.Oidc.Endpoints.Granting.{authorize_grant}
use holvit_backend.Oidc.Endpoints.Login.{authorize_endpoint-login}
use holvit_backend.Tests.Codec.{to_json-IsJson, login}
use holvit_backend.Tests.World.{World, redis-IsRedis, tokens, user, realm, empty}

abbrev env : AuthorizeEnv World
env = record {
  tokens = tokens;
  find_realms = λ name w. realm ∷ [];
  find_clients = λ realm_id client_id w. [];
  find_scopes = λ names user_id client_id realm_id w. [];
  find_user_by_id = λ id w. some user;
  user_id = none;
}

abbrev asked : HttpRequest
asked = record {
  parse_form = ok tt;
  form = λ name. "";
  basic_auth = none;
  url = "/oidc/main/authorize";
}

abbrev start : Exchange World
start = record { world = empty; errors = []; responses = [] }

authorize_endpoint-login_example :
    let x' = (authorize_endpoint env "main" asked start).1 in
    (x'.errors ≡ [])
    × (x'.responses ≡ login_page "token" true ∷ [])
    × ((peek_login_code tokens "token" x'.world).0
        ≡ done (some (login_info realm "/oidc/main/authorize")))
authorize_endpoint-login_example =
    authorize_endpoint-login env redis-IsRedis (to_json-IsJson login) "main" asked realm start refl
      refl refl

-- No token was stored under this name.
refused :
    (authorize_grant env
      (λ realm_id names w. [])
      (λ user_id client_id scope_ids w. w)
      ("email" ∷ [])
      (record asked { form = λ name. "forged" })
      start).0
    ≡ panicked (http_error 400 "token not found")
unfolding authorize_grant retrieve_grant_info retrieve_info
refused = refl
