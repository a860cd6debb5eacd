-- ===== src/Auth/Password.antt =====
-- Which passwords a login takes, and who may set one: handlers/auth/VerifyPassword.go and
-- `SetPassword` of services/UserService.go.
use holvit_backend.Prelude.{
  String, [], ◌∷◌, ◌≡◌, refl, sym, ap, ◌∙◌, Option, none, true, false, not, ◌&&◌, some,
}
use holvit_backend.Go.{
  Go, Outcome, bind-done, pure, lift, ◌>>=◌, done, panicked, http_error, plain_error, ok,
}
use holvit_backend.Tokens.Service.{LoginInfo, TokenService, peek_login_code}
use holvit_backend.Auth.Env.{Env, User, Realm, Request}
use holvit_backend.Auth.Services.{authorize_password, verify_login}
use holvit_backend.Auth.Handlers.{
  VerifyPasswordRequest, peek_login_info, verify_password, advance, next_or_panic, choose_next,
}
use holvit_backend.Auth.Finish.{advance-stores}
use holvit_backend.Auth.Steps.{
  Step, name, prepare, get_next_step, totp_onboarding, verify_email, reset_password, verify_totp,
  verify_device, submit,
}
use holvit_backend.Tokens.Store.{IsRedis, IsJson}
use holvit_backend.Auth.Guards.{Holds}

module _ {W : Type 0} (env : Env W) where
  -- At the step of the password, in a realm that allows what the request asks to remember: where
  -- the one user with the name is found and the check of the password returns and does not match,
  -- the request ends in the error 401 and changes nothing.
  pub verify_password-wrong_password :
      (q : VerifyPasswordRequest) (device : String) (info : LoginInfo) (realm : Realm) (user : User)
      (r : Request W)
      → Holds env q.token info r.world
      → info.next_step ≡ "verify_password"
      → env.find_realm_by_id info.realm_id r.world ≡ some realm
      → (q.remember_me && not realm.enable_remember_me) ≡ false
      → env.find_users realm.id q.username r.world ≡ user ∷ []
      → authorize_password env q.password user.id r.world ≡ (done false, r.world)
      → verify_password env (some device) (ok q) r
        ≡ (panicked (http_error 401 "invalid username or password"), r)
  unfolding verify_password peek_login_info verify_login
  verify_password-wrong_password q device info realm user r held step found allowed one refused =
      rw (held, step, found, allowed, one, refused)

  -- At the step of the password, in a realm that allows what the request asks to remember: a name
  -- that no user of the realm has ends the request in another error than a wrong password does, one
  -- that is no HTTP error; nothing is changed.
  pub verify_password-unknown_user :
      (q : VerifyPasswordRequest) (device : String) (info : LoginInfo) (realm : Realm)
      (r : Request W)
      → Holds env q.token info r.world
      → info.next_step ≡ "verify_password"
      → env.find_realm_by_id info.realm_id r.world ≡ some realm
      → (q.remember_me && not realm.enable_remember_me) ≡ false
      → env.find_users realm.id q.username r.world ≡ []
      → verify_password env (some device) (ok q) r
        ≡ (panicked (plain_error "tried to unwrap an empty option"), r)
  unfolding verify_password peek_login_info
  verify_password-unknown_user q device info realm r held step found allowed missing =
      rw (held, step, found, allowed, missing)

  -- What the choice of a next step leaves of a login.
  abbrev Keeps : LoginInfo → LoginInfo → Type 0
  Keeps info info' =
      (info'.user_id ≡ info.user_id)
      × (info'.device_id ≡ info.device_id)
      × (info'.remember_me ≡ info.remember_me)
      × (info'.realm_id ≡ info.realm_id)
      × (info'.original_url ≡ info.original_url)

  Keeps-of_eq : (info info' : LoginInfo) → info ≡ info' → Keeps info info'
  Keeps-of_eq info info' e = rw (sym e) (refl, refl, refl, refl, refl)

  prepare-Keeps :
      (st : Step) (info info' : LoginInfo) (w w' : W)
      → prepare env st info w ≡ (done info', w')
      → Keeps info info'
  unfolding prepare
  prepare-Keeps totp_onboarding info info' w w' h =
      let sealed = (env.seal (env.random_secret w).0 (env.random_secret w).1).0 in
      Keeps-of_eq (record info { encrypted_totp_onboarding_secret_base64 = sealed }) info' cc
  prepare-Keeps verify_email info info' w w' h = Keeps-of_eq info info' cc
  prepare-Keeps reset_password info info' w w' h = Keeps-of_eq info info' cc
  prepare-Keeps verify_totp info info' w w' h = Keeps-of_eq info info' cc
  prepare-Keeps verify_device info info' w w' h = Keeps-of_eq info info' cc
  prepare-Keeps submit info info' w w' h = Keeps-of_eq info info' cc

  abbrev and_prepare : LoginInfo → Step → Go W (Step × LoginInfo)
  and_prepare info st = do i ← prepare env st info; pure (st, i)

  prepared :
      (found : Step) (info : LoginInfo) (st : Step) (info' : LoginInfo) (w w' : W)
      → and_prepare info found w ≡ (done (st, info'), w')
      → Keeps info info'
  prepared found info st info' w w' h =
      let (i, (e, h1)) = bind-done (prepare env found info) _ w w' (st, info') h in
      let same : i ≡ info' = cc in
      prepare-Keeps found info info' w (prepare env found info w).1
        (e ∙ ap (λ (j : LoginInfo). (Outcome.done j, (prepare env found info w).1)) same)

  with_step :
      (found : Option Step) (info : LoginInfo) (st : Step) (info' : LoginInfo) (w w' : W)
      → (lift (next_or_panic env found) >>= and_prepare info) w ≡ (done (st, info'), w')
      → Keeps info info'
  with_step none info st info' w w' h = absurd cc
  with_step (some found) info st info' w w' h = prepared found info st info' w w' h

  choose_next-Keeps :
      (current : String) (info info' : LoginInfo) (st : Step) (w w' : W)
      → choose_next env current info w ≡ (done (st, info'), w')
      → Keeps info info'
  unfolding choose_next get_next_step
  choose_next-Keeps current info info' st w w' h =
      let (found, (e, h1)) = bind-done (get_next_step env 5 current info) _ w w' (st, info') h in
      with_step found info st info' _ w' h1

  verify_password-advance :
      (q : VerifyPasswordRequest) (device : String) (info : LoginInfo) (realm : Realm) (user : User)
      (r : Request W)
      → Holds env q.token info r.world
      → info.next_step ≡ "verify_password"
      → env.find_realm_by_id info.realm_id r.world ≡ some realm
      → (q.remember_me && not realm.enable_remember_me) ≡ false
      → env.find_users realm.id q.username r.world ≡ user ∷ []
      → authorize_password env q.password user.id r.world ≡ (done true, r.world)
      → verify_password env (some device) (ok q) r
        ≡ advance env q.token "verify_password"
            (record info { user_id = user.id; device_id = device; remember_me = q.remember_me })
            r
  unfolding verify_password peek_login_info verify_login
  verify_password-advance q device info realm user r held step found allowed one matched =
      rw (held, step, found, allowed, one, matched)

  -- Where Redis and JSON do what they document: at the step of the password, in a realm that allows
  -- what the request asks to remember, where the one user with the name is found, the check of the
  -- password returns and matches, and the choice of the next step returns, the handler answers that
  -- step and records no error. The code then leads to a login at that step, of that user, with the
  -- device of the request and with what it asks to remember, in the realm and with the URL that the
  -- login had.
  pub verify_password-advances :
      (q : VerifyPasswordRequest) (device : String) (info info' : LoginInfo) (realm : Realm)
      (user : User) (st : Step) (r : Request W) (w : W)
      → IsRedis (TokenService.redis env.tokens)
      → IsJson (TokenService.login_json env.tokens)
      → Holds env q.token info r.world
      → info.next_step ≡ "verify_password"
      → env.find_realm_by_id info.realm_id r.world ≡ some realm
      → (q.remember_me && not realm.enable_remember_me) ≡ false
      → env.find_users realm.id q.username r.world ≡ user ∷ []
      → authorize_password env q.password user.id r.world ≡ (done true, r.world)
      → choose_next env "verify_password"
          (record info { user_id = user.id; device_id = device; remember_me = q.remember_me })
          r.world
        ≡ (done (st, info'), w)
      → let ended = verify_password env (some device) (ok q) r in
        (ended.0 ≡ done tt)
        × (ended.1.next_step ≡ some (name st))
        × (ended.1.errors ≡ r.errors)
        × (saved : LoginInfo) × ((peek_login_code env.tokens q.token ended.1.world).0
            ≡ done (some saved))
        × (saved.next_step ≡ name st)
        × (saved.user_id ≡ user.id)
        × (saved.device_id ≡ device)
        × (saved.remember_me ≡ q.remember_me)
        × (saved.realm_id ≡ info.realm_id)
        × (saved.original_url ≡ info.original_url)
  verify_password-advances q device info info' realm user st r w is_redis is_json held step found
        allowed one matched chosen =
      let logged_in : LoginInfo = record info {
        user_id = user.id;
        device_id = device;
        remember_me = q.remember_me;
      } in
      let kept = choose_next-Keeps "verify_password" logged_in info' st r.world w chosen in
      let ended =
        advance-stores env q.token "verify_password" logged_in info' st r w is_redis is_json
          chosen in
      rw (verify_password-advance q device info realm user r held step found allowed one matched) (
        ended.0,
        ended.1,
        ended.2,
        record info' { next_step = name st },
        ended.3,
        refl,
        kept.0,
        kept.1,
        kept.2,
        kept.3,
        kept.4,
      )
