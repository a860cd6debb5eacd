-- ===== src/Oidc/Endpoints/Login.antt =====
-- The endpoint `Authorize` of handlers/oidc/oidc.go for a browser without a session.
use holvit_backend.Prelude.{◌*◌, String, [], ◌∷◌, ◌++◌, none, some, false, ◌≡◌, refl}
use holvit_backend.Go.{done, ok}
use holvit_backend.Tokens.Store.{IsRedis, IsJson}
use holvit_backend.Tokens.Service.{TokenService, peek_login_code, store_info, peek_info}
use holvit_backend.Tokens.Lifecycle.{get-store, peek-of_get}
use holvit_backend.Auth.Env.{Realm}
use holvit_backend.Oidc.Authorize.{AuthorizeEnv}
use holvit_backend.Oidc.Endpoints.{
  HttpRequest, Exchange, login_page, login_info, login, authorize_endpoint,
}

module _ {W : Type 0} (env : AuthorizeEnv W) (is_redis : IsRedis env.tokens.redis)
    (is_json : IsJson env.tokens.login_json) where
  -- A well-formed request without a session, at the route of one realm, records no error and is
  -- answered with the page of the login alone, whose token holds a login of that realm at the step
  -- of the password, with no user, and with the URL of the request to return to.
  pub authorize_endpoint-login :
      (realm_name : String) (r : HttpRequest) (realm : Realm) (x : Exchange W)
      → r.parse_form ≡ ok tt
      → env.user_id ≡ none
      → env.find_realms realm_name x.world ≡ realm ∷ []
      → let token = (env.tokens.next_token x.world).0 in
        let x' = (authorize_endpoint env realm_name r x).1 in
        (x'.errors ≡ x.errors)
        × (x'.responses ≡ x.responses ++ login_page token realm.enable_remember_me ∷ [])
        × ((peek_login_code env.tokens token x'.world).0
            ≡ done (
                some (record {
                  next_step = "verify_password";
                  realm_id = realm.id;
                  user_id = 0;
                  device_id = "";
                  remember_me = false;
                  encrypted_totp_onboarding_secret_base64 = "";
                  original_url = r.url;
                })))
  unfolding authorize_endpoint login peek_login_code
  authorize_endpoint-login realm_name r realm x parsed anonymous one =
      rw (parsed, anonymous, one) (refl, refl, peeked)
    where
      service : TokenService W
      service = env.tokens

      token : String
      token = (service.next_token x.world).0

      peeked :
          (peek_info service.redis service.login_json service.development "loginCode" token
            (store_info service.redis service.login_json service.development
              (login_info realm r.url)
              "loginCode"
              token
              (30 * 60)
              (service.next_token x.world).1).1).0
          ≡ done (some (login_info realm r.url))
      peeked =
          peek-of_get service.redis service.login_json service.development is_redis is_json
            "loginCode" token _ (login_info realm r.url)
            (get-store service.redis service.login_json service.development is_redis is_json
              (login_info realm r.url) "loginCode" token (30 * 60) (service.next_token x.world).1)
