-- ===== src/Auth/Handlers.antt =====
-- The handlers of the login steps: handlers/auth. Each takes the decoded body of its request, or
-- the decoder's error, and the device cookie of the session service.
use holvit_backend.Prelude.{
  ℕ, ◌+◌, ◌*◌, String, str_append, str_eq, Bool, true, false, not, ◌&&◌, Option, none, some,
  if◌then◌else◌,
}
use holvit_backend.Go.{
  Error, http_error, plain_error, Outcome, done, panicked, Go, Result, ok, err, ◌>>=◌, ◌>>◌, pure,
  lift, unwrap, unwrap_err,
}
use holvit_backend.Filter.{single}
use holvit_backend.Tokens.Service.{
  LoginInfo, peek_login_code, retrieve_login_code, overwrite_login_code,
}
use holvit_backend.Auth.Env.{Env, Request, call, record_error, reads, writes, returns}
use holvit_backend.Auth.Services.{
  dangerous_no_auth, set_password, add_totp, verify_login, verify_totp_code, is_known_user_device,
  add_known_device,
}
use holvit_backend.Auth.Steps.{Step, name, get_next_step, prepare}

pub record VerifyPasswordRequest : Type 0 where
  pub username : String
  pub password : String
  pub token : String
  pub remember_me : Bool

pub record ResetPasswordRequest : Type 0 where
  pub password : String
  pub new_password : String
  pub token : String

pub record TotpOnboardingRequest : Type 0 where
  pub token : String
  pub code : String
  pub display_name : Option String

-- `VerifyDeviceRequest` and `VerifyTotpRequest`
pub record CodeRequest : Type 0 where
  pub token : String
  pub code : String

-- the form of `CompleteAuthFlow`, the user agent and the address of the client
pub record CompleteRequest : Type 0 where
  pub token : String
  pub user_agent : String
  pub ip : String

abbrev or_default : Option String → String → String
or_default none d = d
or_default (some s) d = s

abbrev pub wrong_step : String → String → Error
wrong_step current expected = http_error 401 (
    str_append "wrong login step '"
      (str_append current (str_append "', expected '" (str_append expected "'"))))

module _ {W : Type 0} (env : Env W) where
  open env use {tokens}

  abbrev pub Handler : Type 0
  Handler = Go (Request W) (Unit {0})

  -- `rcs.Error(err)` and `return`
  abbrev fail : Error → Handler
  fail e = record_error e

  -- `json.NewDecoder(r.Body).Decode(&request)`, which `return`s on an error
  abbrev decoded : {A : Type 0} → Result A → (A → Handler) → Handler
  decoded (err e) handle = fail e
  decoded (ok request) handle = handle request

  -- `PeekLoginCode(…).UnwrapErr(…)`
  unfoldable pub peek_login_info : String → Go (Request W) LoginInfo
  peek_login_info token = do
    found ← call (peek_login_code tokens token)
    lift (unwrap_err (http_error 400 "token not found") found)

  -- `CurrentSessionService.DeviceIdString`
  abbrev device_id_string : Option String → Go (Request W) String
  device_id_string device = lift (unwrap_err (http_error 400 "Missing device id cookie") device)

  -- The test of the device records an error and goes on.
  abbrev check_device : String → LoginInfo → Handler
  check_device device info =
      if str_eq device info.device_id
      then pure tt
      else record_error (http_error 401 "wrong device id")

  abbrev pub next_or_panic : Option Step → Outcome Step
  next_or_panic none = panicked (plain_error "out of fuel")
  next_or_panic (some st) = done st

  -- `getNextStep` and `Prepare`
  unfoldable pub choose_next : String → LoginInfo → Go W (Step × LoginInfo)
  choose_next current info = do
    found ← get_next_step env 5 current info
    st ← lift (next_or_panic found)
    info' ← prepare env st info
    pure (st, info')

  abbrev or_not_found : Option Error → Outcome (Unit {0})
  or_not_found none = done tt
  or_not_found (some _) = panicked (http_error 400 "token not found")

  -- `OverwriteLoginCode(…).SetErr(…).Unwrap()` and the answer
  unfoldable pub answer : String → LoginInfo → Handler
  answer token info = do
    result ← call (overwrite_login_code tokens token info)
    lift (or_not_found result)
    λ r. (done tt, record r { next_step = some info.next_step })

  -- The end of the handlers: the next step is chosen, prepared, stored and answered.
  unfoldable pub advance : String → String → LoginInfo → Handler
  unfolding choose_next answer
  advance token current info = do
    (st, info') ← call (choose_next current info)
    answer token (record info' { next_step = name st })

  unfoldable pub verify_password : Option String → Result VerifyPasswordRequest → Handler
  verify_password device body = do
    device_id ← device_id_string device
    decoded body λ request. do
      info ← peek_login_info request.token
      let log_in = (do
        found ← call (reads (env.find_realm_by_id info.realm_id))
        realm ← lift (unwrap found)
        let go_on = (do
          users ← call (reads (env.find_users realm.id request.username))
          user ← lift (single users)
          user_id ← call (verify_login env request.password user.id)
          advance request.token info.next_step (record info {
            user_id = user_id;
            device_id = device_id;
            remember_me = request.remember_me;
          }))
        if request.remember_me && not realm.enable_remember_me
            then fail (http_error 400 "realm does not allow remember me")
            else go_on)
      if str_eq info.next_step "verify_password"
          then log_in
          else fail (wrong_step info.next_step "verify_password")

  -- The other handlers begin alike, and go on only at their step; `expected` is what they print.
  unfoldable pub at_step :
      (step expected : String) → Option String → String → (String → LoginInfo → Handler) → Handler
  unfolding peek_login_info
  at_step step expected device token body = do
    info ← peek_login_info token
    device_id ← device_id_string device
    check_device device_id info
    if str_eq info.next_step step
        then body device_id info
        else fail (wrong_step info.next_step expected)

  unfoldable pub reset_password_at : ResetPasswordRequest → String → LoginInfo → Handler
  reset_password_at request device_id info = do
    call (set_password env info.user_id request.new_password false dangerous_no_auth)
    advance request.token info.next_step info

  unfoldable pub reset_password : Option String → Result ResetPasswordRequest → Handler
  reset_password device body = decoded body λ request.
      at_step "reset_password" "verify_password" device request.token (reset_password_at request)

  -- The code is checked against the stored text, which is the sealed secret.
  unfoldable pub totp_onboarding_at : TotpOnboardingRequest → String → LoginInfo → Handler
  totp_onboarding_at request device_id info = do
    let stored = info.encrypted_totp_onboarding_secret_base64
    now ← call (reads env.now)
    let enrol = λ (secret : String). (do
      call (
          add_totp env info.user_id secret (or_default request.display_name "New Totp")
            dangerous_no_auth)
      advance request.token info.next_step info)
    let accepted : Handler = elim (env.open_base64 stored) [
      | err e ↦ fail e
      | ok sealed ↦ (do secret ← lift (env.decrypt sealed); enrol secret)
    ]
    elim (env.validate_totp request.code stored now) [
      | err e ↦ fail e
      | ok false ↦ fail (http_error 401 "invalid totp code")
      | ok true ↦ accepted
    ]

  unfoldable pub totp_onboarding : Option String → Result TotpOnboardingRequest → Handler
  totp_onboarding device body = decoded body λ request.
      at_step "totp_onboarding" "totp_onboarding" device request.token (totp_onboarding_at request)

  unfoldable pub verify_device_at : CodeRequest → String → LoginInfo → Handler
  verify_device_at request device_id info = do
    _ ← call (add_known_device env info.user_id device_id "" "")
    advance request.token info.next_step info

  unfoldable pub verify_device : Option String → Result CodeRequest → Handler
  verify_device device body = decoded body λ request.
      at_step "verify_device" "verify_device" device request.token (verify_device_at request)

  -- This handler stores the login information with the step that it had.
  unfoldable pub verify_totp_at : CodeRequest → String → LoginInfo → Handler
  verify_totp_at request device_id info = do
    call (verify_totp_code env request.code info.user_id)
    (_, info') ← call (choose_next info.next_step info)
    answer request.token info'

  unfoldable pub verify_totp : Option String → Result CodeRequest → Handler
  verify_totp device body =
      decoded body
        λ request. at_step "verify_totp" "verify_totp" device request.token (verify_totp_at request)

  abbrev pub device_or_new : Option ℕ → Go W ℕ → Go W ℕ
  device_or_new none add = add
  device_or_new (some id) add = pure id

  -- `SessionService.CreateSession`; its random token is returned.
  unfoldable pub create_session : (user_id realm_id device_id : ℕ) → Go W String
  create_session user_id realm_id device_id = do
    now ← reads env.now
    token ← returns env.random_string_base64
    writes (
        env.create_session (record {
          user_id = user_id;
          user_device_id = device_id;
          realm_id = realm_id;
          hashed_token = env.cheap_hash token;
          valid_until = now + 3600 * 24 * 30;
        }))
    pure token

  unfoldable pub complete_auth_flow : Option String → Result CompleteRequest → Handler
  unfolding create_session
  complete_auth_flow device body = decoded body λ request. do
    found ← call (retrieve_login_code tokens request.token)
    info ← lift (unwrap_err (http_error 400 "token not found") found)
    found_realm ← call (reads (env.find_realm_by_id info.realm_id))
    realm ← lift (unwrap found_realm)
    device_id ← device_id_string device
    check_device device_id info
    let sign_in = (do
      known ← call (is_known_user_device env info.user_id info.device_id)
      id ← call (
          device_or_new known.id
            (add_known_device env info.user_id device_id request.user_agent request.ip))
      token ← call (create_session info.user_id info.realm_id id)
      λ r. (
        done tt,
        record r {
          session_cookie = some (token, info.remember_me);
          redirect = some info.original_url;
        },
      ))
    if str_eq info.next_step "submit" then sign_in else fail (wrong_step info.next_step "submit")
