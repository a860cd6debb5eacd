-- ===== src/Tests/Authorize.antt =====
-- Runs of an authorization.
use holvit_backend.Prelude.{eq_iff, arith, List, [], ◌∷◌, ◌≡◌, refl, true, false, some, none}
use holvit_backend.Go.{done, ok}
use holvit_backend.Tokens.Service.{AuthorizationRequest, retrieve_grant_info, retrieve_oidc_code}
use holvit_backend.Oidc.Authorize.{
  Scope, code_authorization, scope_consent, AuthorizeEnv, authorize,
}
use holvit_backend.Oidc.Codes.{
  taken, lacked, none_lacks, KeepsPkce, authorize-code, authorize-consent,
}
use holvit_backend.Tests.Codec.{to_json-IsJson, grant, oidc}
use holvit_backend.Tests.Grants.{client}
use holvit_backend.Tests.World.{World, redis-IsRedis, tokens, user, realm, empty}

abbrev openid : Scope
openid = record { id = 2; name = "openid"; granted = true }

abbrev email : Scope
email = record { id = 3; name = "email"; granted = false }

abbrev phone : Scope
phone = record { id = 4; name = "phone"; granted = false }

abbrev env : List Scope → AuthorizeEnv World
env scopes = record {
  tokens = tokens;
  find_realms = λ name w. realm ∷ [];
  find_clients = λ realm_id client_id w. client ∷ [];
  find_scopes = λ names user_id client_id realm_id w. scopes;
  find_user_by_id = λ id w. some user;
  user_id = some 7;
}

abbrev request : AuthorizationRequest
request = record {
  response_types = "code" ∷ [];
  realm_name = "main";
  client_id = "app";
  redirect_uri = "/back";
  scopes = "openid" ∷ [];
  state = "state";
  response_mode = "query";
  pkce_challenge = "challenge";
  pkce_challenge_method = "S256";
}

given : KeepsPkce none "challenge" "S256"
given = (ground (arith, eq_iff "challenge" ""), refl)

authorize-code_example :
    let ended = authorize (env (openid ∷ [])) request empty in
    let first = retrieve_oidc_code tokens "token" ended.1 in
    (ended.0 ≡ done (ok (code_authorization "token" "/back" "state")))
    × (first.0
        ≡ done (
            some (record {
              realm_id = 1;
              client_id = "app";
              user_id = 7;
              redirect_uri = "/back";
              granted_scopes = "openid" ∷ [];
              granted_scope_ids = 2 ∷ [];
              pkce_challenge = "challenge";
            })))
    × ((retrieve_oidc_code tokens "token" first.1).0 ≡ done none)
authorize-code_example =
    authorize-code (env (openid ∷ [])) request realm client 7 (openid ∷ []) empty redis-IsRedis
      (to_json-IsJson oidc) refl refl refl refl refl given refl refl (refl, tt)

authorize-consent_example :
    let ended = authorize (env (openid ∷ email ∷ phone ∷ [])) request empty in
    let first = retrieve_grant_info tokens "token" ended.1 in
    (ended.0 ≡ done (ok (scope_consent (email ∷ phone ∷ []) client user "token" "/back")))
    × (first.0
        ≡ done (some (record { client_id = 2; realm_id = 1; authorization_request = request })))
    × ((retrieve_grant_info tokens "token" first.1).0 ≡ done none)
authorize-consent_example =
    authorize-consent (env (openid ∷ email ∷ phone ∷ [])) request realm client 7 user
      (openid ∷ email ∷ phone ∷ []) email (phone ∷ []) empty redis-IsRedis (to_json-IsJson grant)
      refl refl refl refl refl given refl refl
      (taken openid _ _ refl (lacked email _ _ refl (lacked phone _ _ refl none_lacks))) (λ v. refl)
