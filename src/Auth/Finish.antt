-- ===== src/Auth/Finish.antt =====
-- How a step ends and how a login ends: the last lines of the handlers of handlers/auth, and
-- `CompleteAuthFlow`.
use holvit_backend.Prelude.{ℕ, ◌+◌, ◌*◌, String, eq_iff, [], ◌∷◌, ◌++◌, ◌≡◌, ◌≢◌, refl, some}
use holvit_backend.Go.{done, ok}
use holvit_backend.Tokens.Store.{IsRedis, IsJson}
use holvit_backend.Tokens.Service.{
  LoginInfo, TokenService, peek_login_code, retrieve_login_code, overwrite_login_code,
}
use holvit_backend.Tokens.Lifecycle.{overwrite_login_code_revives}
use holvit_backend.Auth.Env.{Env, Realm, Request}
use holvit_backend.Auth.Services.{IsKnownDeviceResponse, is_known_user_device, add_known_device}
use holvit_backend.Auth.Steps.{Step, name}
use holvit_backend.Auth.Handlers.{
  device_or_new, CompleteRequest, choose_next, answer, advance, wrong_step, complete_auth_flow,
  create_session,
}
use holvit_backend.Auth.Guards.{str_eq-ne}

module _ {W : Type 0} (env : Env W) where
  -- Where Redis and JSON do what they document and the choice of the next step returns, the handler
  -- answers that step, records no error, and the code then leads to the prepared login information
  -- at that very step.
  pub advance-stores :
      (token current : String) (info info' : LoginInfo) (st : Step) (r : Request W) (w : W)
      → IsRedis (TokenService.redis env.tokens)
      → IsJson (TokenService.login_json env.tokens)
      → choose_next env current info r.world ≡ (done (st, info'), w)
      → let ended = advance env token current info r in
        (ended.0 ≡ done tt)
        × (ended.1.next_step ≡ some (name st))
        × (ended.1.errors ≡ r.errors)
        × ((peek_login_code env.tokens token ended.1.world).0
            ≡ done (some (record info' { next_step = name st })))
  unfolding advance answer overwrite_login_code
  advance-stores token current info info' st r w is_redis is_json h = rw h (
    refl,
    refl,
    refl,
    (overwrite_login_code_revives env.tokens is_redis is_json token
        (record info' { next_step = name st }) w).1,
  )

  -- A login that is completed before its last step, from its own device and in a realm that is
  -- found, loses its code and gets no session: nothing else is written, no cookie is set, nothing is
  -- redirected, and the error 401 that names the steps is recorded.
  pub complete_auth_flow_early :
      (q : CompleteRequest) (info : LoginInfo) (realm : Realm) (r : Request W) (w : W)
      → retrieve_login_code env.tokens q.token r.world ≡ (done (some info), w)
      → env.find_realm_by_id info.realm_id w ≡ some realm
      → info.next_step ≢ "submit"
      → complete_auth_flow env (some info.device_id) (ok q) r ≡ (
        done tt,
        record r { world = w; errors = r.errors ++ wrong_step info.next_step "submit" ∷ [] },
      )
  unfolding complete_auth_flow
  complete_auth_flow_early q info realm r w taken found ne = rw (
    taken,
    found,
    (eq_iff info.device_id info.device_id).1 refl,
    str_eq-ne info.next_step "submit" ne,
  )

  -- A login that is completed at its last step, from its own device and in a realm that is found,
  -- where looking up and adding the device return, loses its code and gets one new session of its
  -- user in its realm, on the device that is found or added; the session stores the hash of the
  -- cookie's token, and the client is sent to where the login began.
  pub complete_auth_flow_session :
      (q : CompleteRequest) (info : LoginInfo) (realm : Realm) (r : Request W) (w w' : W)
      (known : IsKnownDeviceResponse) (id : ℕ)
      → retrieve_login_code env.tokens q.token r.world ≡ (done (some info), w)
      → env.find_realm_by_id info.realm_id w ≡ some realm
      → info.next_step ≡ "submit"
      → is_known_user_device env info.user_id info.device_id w ≡ (done known, w)
      → device_or_new env known.id
          (add_known_device env info.user_id info.device_id q.user_agent q.ip)
          w
        ≡ (done id, w')
      → let (token, w'') = env.random_string_base64 w' in
        complete_auth_flow env (some info.device_id) (ok q) r ≡ (
          done tt,
          record r {
            world =
                env.create_session
                  (record {
                    user_id = info.user_id;
                    user_device_id = id;
                    realm_id = info.realm_id;
                    hashed_token = env.cheap_hash token;
                    valid_until = env.now w' + 3600 * 24 * 30;
                  })
                  w'';
            session_cookie = some (token, info.remember_me);
            redirect = some info.original_url;
          },
        )
  unfolding complete_auth_flow create_session
  complete_auth_flow_session q info realm r w w' known id taken found last recognised added =
      rw (taken, found, (eq_iff info.device_id info.device_id).1 refl, last, recognised, added)
