-- ===== src/Oidc/Codes.antt =====
-- From an authorization to its code and back: services/OidcService.go and services/TokenService.go.
use holvit_backend.Prelude.{
  ℕ, String, str_eq, List, [], ◌∷◌, ap, map, ◌≡◌, ◌≢◌, refl, sym, true, false, if◌then◌else◌,
  Option, none, some, eq_iff, arith,
}
use holvit_backend.Go.{done, ok}
use holvit_backend.Tokens.Store.{IsRedis, IsJson}
use holvit_backend.Tokens.Service.{
  AuthorizationRequest, GrantInfo, TokenService, retrieve_oidc_code, store_oidc_code,
  store_grant_info, retrieve_grant_info,
}
use holvit_backend.Tokens.Lifecycle.{retrieve_oidc_code_once, retrieve_grant_info_once}
use holvit_backend.Auth.Env.{Realm, User}
use holvit_backend.Oidc.Env.{Client}
use holvit_backend.Oidc.Grants.{contains}
use holvit_backend.Oidc.Authorize.{
  Scope, scope_consent, code_authorization, AuthorizeEnv, asks_for_code, response_mode_of,
  validate_response_mode, challenge_of, missing_grants, granted_names, granted_ids, code_info,
  authorize_client, authorize,
}

-- The user has granted every one of the scopes.
abbrev pub AllGranted : List Scope → Type 0
AllGranted [] = Unit {0}
AllGranted (s ∷ scopes) = (s.granted ≡ true) × AllGranted scopes

-- The scopes of the first list that are not granted are the second list, in the same order.
pub data Lacks : List Scope → List Scope → Type 0 where
  none_lacks : Lacks [] []
  taken :
      (s : Scope) (scopes missing : List Scope)
      → s.granted ≡ true
      → Lacks scopes missing
      → Lacks (s ∷ scopes) missing
  lacked :
      (s : Scope) (scopes missing : List Scope)
      → s.granted ≡ false
      → Lacks scopes missing
      → Lacks (s ∷ scopes) (s ∷ missing)

-- A client with a secret uses no PKCE, one without a secret uses it with the method S256.
abbrev pub KeepsPkce : Option String → (challenge method : String) → Type 0
KeepsPkce (some _) challenge method = challenge ≡ ""
KeepsPkce none challenge method = (challenge ≢ "") × (method ≡ "S256")

missing_grants-Lacks :
    {scopes missing : List Scope} → Lacks scopes missing → missing_grants scopes ≡ missing
missing_grants-Lacks none_lacks = refl
missing_grants-Lacks (taken s scopes missing given rest) =
    rw (given, missing_grants-Lacks rest) refl
missing_grants-Lacks (lacked s scopes missing refusal rest) =
    rw (refusal, missing_grants-Lacks rest) refl

missing_grants-AllGranted : (scopes : List Scope) → AllGranted scopes → missing_grants scopes ≡ []
missing_grants-AllGranted [] all = refl
missing_grants-AllGranted (s ∷ scopes) (given, all) =
    rw (given, missing_grants-AllGranted scopes all) refl

granted_names-AllGranted :
    (scopes : List Scope)
    → AllGranted scopes
    → granted_names scopes ≡ map (λ (s : Scope). s.name) scopes
granted_names-AllGranted [] all = refl
granted_names-AllGranted (s ∷ scopes) (given, all) =
    rw (given, granted_names-AllGranted scopes all) refl

granted_ids-AllGranted :
    (scopes : List Scope)
    → AllGranted scopes
    → granted_ids scopes ≡ map (λ (s : Scope). s.id) scopes
granted_ids-AllGranted [] all = refl
granted_ids-AllGranted (s ∷ scopes) (given, all) =
    rw (given, granted_ids-AllGranted scopes all) refl

str_eq-ne : (s t : String) → s ≢ t → str_eq s t ≡ false
str_eq-ne s t h = ground (arith, eq_iff s t)

challenge_of-KeepsPkce :
    (secret : Option String) (challenge method : String)
    → KeepsPkce secret challenge method
    → challenge_of secret challenge method ≡ ok challenge
challenge_of-KeepsPkce (some _) challenge method empty = rw empty refl
challenge_of-KeepsPkce none challenge method (present, s256) =
    rw (str_eq-ne challenge "" present, s256) refl

module _ {W : Type 0} (env : AuthorizeEnv W) where
  authorize-stores :
      (request : AuthorizationRequest) (realm : Realm) (client : Client) (user_id : ℕ)
      (challenge : String) (scopes : List Scope) (w : W)
      → asks_for_code request.response_types ≡ true
      → validate_response_mode (response_mode_of request.response_mode) ≡ none
      → contains request.scopes "openid" ≡ true
      → env.find_realms request.realm_name w ≡ realm ∷ []
      → env.find_clients realm.id request.client_id w ≡ client ∷ []
      → challenge_of client.client_secret request.pkce_challenge request.pkce_challenge_method
        ≡ ok challenge
      → env.user_id ≡ some user_id
      → env.find_scopes request.scopes user_id client.id realm.id w ≡ scopes
      → missing_grants scopes ≡ []
      → authorize env request w ≡ (
        done (
            ok (
              code_authorization
                (TokenService.next_token env.tokens w).0
                request.redirect_uri
                request.state)),
        (store_oidc_code env.tokens
            (code_info env request realm client user_id scopes challenge)
            w).1,
      )
  unfolding authorize authorize_client store_oidc_code
  authorize-stores request realm client user_id challenge scopes w for_code mode openid one mine
        pkce signed_in found granted =
      rw (for_code, mode, openid, one, mine, pkce, signed_in, found, granted)

  -- Where Redis and JSON do what they document: to a request for a code with the openid scope and
  -- a response mode that is supported, of one client in one realm whose rules for PKCE it keeps, by a user who granted every scope that is
  -- found, the answer has a code, the redirect URI and the state of the request, and the code is good
  -- for one retrieval, which gives the realm, the client, the user, the redirect URI and the
  -- challenge of the request, and the names and the ids of all the scopes.
  pub authorize-code :
      (request : AuthorizationRequest) (realm : Realm) (client : Client) (user_id : ℕ)
      (scopes : List Scope) (w : W)
      → IsRedis (TokenService.redis env.tokens)
      → IsJson (TokenService.code_json env.tokens)
      → asks_for_code request.response_types ≡ true
      → validate_response_mode (response_mode_of request.response_mode) ≡ none
      → contains request.scopes "openid" ≡ true
      → env.find_realms request.realm_name w ≡ realm ∷ []
      → env.find_clients realm.id request.client_id w ≡ client ∷ []
      → KeepsPkce client.client_secret request.pkce_challenge request.pkce_challenge_method
      → env.user_id ≡ some user_id
      → env.find_scopes request.scopes user_id client.id realm.id w ≡ scopes
      → AllGranted scopes
      → let code = (TokenService.next_token env.tokens w).0 in
        let ended = authorize env request w in
        let first = retrieve_oidc_code env.tokens code ended.1 in
        (ended.0 ≡ done (ok (code_authorization code request.redirect_uri request.state)))
        × (first.0
            ≡ done (
                some (record {
                  realm_id = realm.id;
                  client_id = client.client_id;
                  user_id = user_id;
                  redirect_uri = request.redirect_uri;
                  granted_scopes = map (λ (s : Scope). s.name) scopes;
                  granted_scope_ids = map (λ (s : Scope). s.id) scopes;
                  pkce_challenge = request.pkce_challenge;
                })))
        × ((retrieve_oidc_code env.tokens code first.1).0 ≡ done none)
  authorize-code request realm client user_id scopes w is_redis is_json for_code mode openid one
        mine pkce signed_in found all =
      let info = code_info env request realm client user_id scopes request.pkce_challenge in
      let once = retrieve_oidc_code_once env.tokens is_redis is_json info w in
      rw
        (authorize-stores request realm client user_id request.pkce_challenge scopes w for_code mode
          openid one mine (challenge_of-KeepsPkce client.client_secret _ _ pkce) signed_in found
          (missing_grants-AllGranted scopes all))
        (
          refl,
          (rw (sym (granted_names-AllGranted scopes all), sym (granted_ids-AllGranted scopes all))
              once.1),
          once.2,
        )

  authorize-asks :
      (request : AuthorizationRequest) (realm : Realm) (client : Client) (user_id : ℕ) (user : User)
      (challenge : String) (scopes : List Scope) (s : Scope) (missing : List Scope) (token : String)
      (w w' : W)
      → asks_for_code request.response_types ≡ true
      → validate_response_mode (response_mode_of request.response_mode) ≡ none
      → contains request.scopes "openid" ≡ true
      → env.find_realms request.realm_name w ≡ realm ∷ []
      → env.find_clients realm.id request.client_id w ≡ client ∷ []
      → challenge_of client.client_secret request.pkce_challenge request.pkce_challenge_method
        ≡ ok challenge
      → env.user_id ≡ some user_id
      → env.find_scopes request.scopes user_id client.id realm.id w ≡ scopes
      → missing_grants scopes ≡ s ∷ missing
      → store_grant_info env.tokens
          (record {
            client_id = client.id;
            realm_id = realm.id;
            authorization_request = record request {
              response_mode = response_mode_of request.response_mode;
            };
          })
          w
        ≡ (done token, w')
      → env.find_user_by_id user_id w' ≡ some user
      → authorize env request w
        ≡ (done (ok (scope_consent (s ∷ missing) client user token request.redirect_uri)), w')
  unfolding authorize authorize_client
  authorize-asks request realm client user_id user challenge scopes s missing token w w' for_code
        mode openid one mine pkce signed_in found lacking stored known =
      rw (for_code, mode, openid, one, mine, pkce, signed_in, found, lacking, stored, known)

  -- Where Redis and JSON do what they document: to a request for a code with the openid scope and
  -- a response mode that is supported, of one client in one realm whose rules for PKCE it keeps, by a user who did not grant every scope
  -- that is found and whom the database finds, the answer asks that user for all the scopes that are
  -- not granted and no other, in their order, under a token that is good for one retrieval of the
  -- client, the realm and the request (with its response mode, where it is empty, made "query").
  pub authorize-consent :
      (request : AuthorizationRequest) (realm : Realm) (client : Client) (user_id : ℕ) (user : User)
      (scopes : List Scope) (s : Scope) (missing : List Scope) (w : W)
      → IsRedis (TokenService.redis env.tokens)
      → IsJson (TokenService.grant_json env.tokens)
      → asks_for_code request.response_types ≡ true
      → validate_response_mode (response_mode_of request.response_mode) ≡ none
      → contains request.scopes "openid" ≡ true
      → env.find_realms request.realm_name w ≡ realm ∷ []
      → env.find_clients realm.id request.client_id w ≡ client ∷ []
      → KeepsPkce client.client_secret request.pkce_challenge request.pkce_challenge_method
      → env.user_id ≡ some user_id
      → env.find_scopes request.scopes user_id client.id realm.id w ≡ scopes
      → Lacks scopes (s ∷ missing)
      → ((v : W) → env.find_user_by_id user_id v ≡ some user)
      → let token = (TokenService.next_token env.tokens w).0 in
        let ended = authorize env request w in
        let first = retrieve_grant_info env.tokens token ended.1 in
        (ended.0 ≡ done (ok (scope_consent (s ∷ missing) client user token request.redirect_uri)))
        × (first.0
            ≡ done (
                some (record {
                  client_id = client.id;
                  realm_id = realm.id;
                  authorization_request = record request {
                    response_mode =
                        if str_eq request.response_mode "" then "query" else request.response_mode;
                  };
                })))
        × ((retrieve_grant_info env.tokens token first.1).0 ≡ done none)
  authorize-consent request realm client user_id user scopes s missing w is_redis is_json for_code
        mode openid one mine pkce signed_in found lacking known =
      let info : GrantInfo = record {
        client_id = client.id;
        realm_id = realm.id;
        authorization_request = record request {
          response_mode = response_mode_of request.response_mode;
        };
      } in
      let once = retrieve_grant_info_once env.tokens is_redis is_json info w in
      let w' = (store_grant_info env.tokens info w).1 in
      rw
        (authorize-asks request realm client user_id user request.pkce_challenge scopes s missing _
          w w' for_code mode openid one mine (challenge_of-KeepsPkce client.client_secret _ _ pkce)
          signed_in found (missing_grants-Lacks lacking) (ap (λ o. (o, w')) once.0) (known w'))
        (refl, once.1, once.2)
