-- ===== src/Tests/Login.antt =====
-- Runs of the login: the theorems on handlers/auth at one user, one realm and one device.
use holvit_backend.Prelude.{
  String, [], ◌∷◌, ◌≡◌, ◌≢◌, refl, arith, true, false, none, some, eq_iff, str_eq, if◌then◌else◌,
}
use holvit_backend.Go.{done, panicked, http_error, plain_error, ok}
use holvit_backend.Tokens.Service.{
  LoginInfo, peek_info, peek_login_code, retrieve_info, retrieve_login_code,
}
use holvit_backend.Hashing.{validate_hash}
use holvit_backend.Auth.Env.{Request}
use holvit_backend.Auth.Services.{
  authorize_password, is_known_user_device, is_password_temporary, requires_totp_onboarding,
  device_id_or, add_known_device,
}
use holvit_backend.Auth.Steps.{
  verify_device, verify_totp, following, needs_to_run, get_next_step, prepare,
}
use holvit_backend.Auth.NextStep.{get_next_step-ne-none, get_next_step-ne-verify_totp}
use holvit_backend.Auth.Handlers.{
  VerifyPasswordRequest, CodeRequest, CompleteRequest, choose_next, advance, verify_password,
  complete_auth_flow,
}
use holvit_backend.Auth.Guards.{Call, reset_call, run, run_rejects, wrong_device_continues}
use holvit_backend.Auth.Password.{
  verify_password-wrong_password, verify_password-unknown_user, verify_password-advances,
}
use holvit_backend.Auth.Finish.{
  advance-stores, complete_auth_flow_early, complete_auth_flow_session,
}
use holvit_backend.Tests.Codec.{to_json-IsJson, login}
use holvit_backend.Tests.World.{
  World, redis, redis-IsRedis, tokens, user, realm, env, login_at, empty, stored, request,
}

abbrev at_password : Request World
at_password = request (stored (login_at "verify_password"))

abbrev at_device : Request World
at_device = request (stored (login_at "verify_device"))

abbrev at_submit : Request World
at_submit = request (stored (login_at "submit"))

abbrev log_in : String → String → VerifyPasswordRequest
log_in username password = record {
  username = username;
  password = password;
  token = "abc";
  remember_me = true;
}

abbrev code : CodeRequest
code = record { token = "abc"; code = "0" }

abbrev finish : CompleteRequest
finish = record { token = "abc"; user_agent = "browser"; ip = "10.0.0.1" }

held_at_password :
    peek_login_code tokens "abc" at_password.world
    ≡ (done (some (login_at "verify_password")), at_password.world)
unfolding peek_login_code peek_info
held_at_password = refl

held_at_device :
    peek_login_code tokens "abc" at_device.world
    ≡ (done (some (login_at "verify_device")), at_device.world)
unfolding peek_login_code peek_info
held_at_device = refl

-- The wrong step, from another device: two errors, and nothing else.
run_rejects_example :
    run env
      (reset_call (record { password = ""; new_password = "new"; token = "abc" }))
      (some "phone")
      at_device
    ≡ (
      done tt,
      record at_device {
        errors =
            http_error 401 "wrong device id"
            ∷ http_error 401 "wrong login step 'verify_device', expected 'verify_password'"
            ∷ [];
      },
    )
run_rejects_example =
    run_rejects env (reset_call (record { password = ""; new_password = "new"; token = "abc" }))
      "phone" (login_at "verify_device") at_device held_at_device
      (ground (arith, eq_iff "verify_device" "reset_password"))

abbrev at_reset : Request World
at_reset = request (stored (login_at "reset_password"))

held_at_reset :
    peek_login_code tokens "abc" at_reset.world
    ≡ (done (some (login_at "reset_password")), at_reset.world)
unfolding peek_login_code peek_info
held_at_reset = refl

abbrev reset : Call
reset = reset_call (record { password = "secret"; new_password = "new"; token = "abc" })

wrong_device_continues_example :
    run env reset (some "phone") at_reset
    ≡ run env reset
        (some "laptop")
        (record at_reset { errors = http_error 401 "wrong device id" ∷ [] })
wrong_device_continues_example =
    wrong_device_continues env reset "phone" (login_at "reset_password") at_reset tt held_at_reset
      refl (ground (arith, eq_iff "phone" "laptop"))

get_next_step-ne-none_example :
    (get_next_step env 5 "verify_password" (login_at "verify_password") empty).0 ≢ done none
get_next_step-ne-none_example =
    get_next_step-ne-none env 5 "verify_password" (login_at "verify_password") empty (omega arith)

get_next_step-ne-verify_totp_example :
    (get_next_step env 5 "totp_onboarding" (login_at "totp_onboarding") empty).0
    ≢ done (some verify_totp)
get_next_step-ne-verify_totp_example =
    get_next_step-ne-verify_totp env 5 "totp_onboarding" (login_at "totp_onboarding") empty
      (omega arith)

-- After the password, the device is verified: it is not known, and the realm asks for it.
next_of_password :
    choose_next env "verify_password" (login_at "verify_password") empty
    ≡ (done (verify_device, login_at "verify_password"), empty)
unfolding choose_next get_next_step prepare following needs_to_run is_password_temporary
    requires_totp_onboarding is_known_user_device
next_of_password = refl

refused : authorize_password env "wrong" 7 at_password.world ≡ (done false, at_password.world)
unfolding authorize_password validate_hash
refused = refl

matched : authorize_password env "secret" 7 at_password.world ≡ (done true, at_password.world)
unfolding authorize_password validate_hash
matched = refl

verify_password-wrong_password_example :
    verify_password env (some "laptop") (ok (log_in "ada" "wrong")) at_password
    ≡ (panicked (http_error 401 "invalid username or password"), at_password)
verify_password-wrong_password_example =
    verify_password-wrong_password env (log_in "ada" "wrong") "laptop" (login_at "verify_password")
      realm user at_password held_at_password refl refl refl refl refused

verify_password-unknown_user_example :
    verify_password env (some "laptop") (ok (log_in "eve" "secret")) at_password
    ≡ (panicked (plain_error "tried to unwrap an empty option"), at_password)
verify_password-unknown_user_example =
    verify_password-unknown_user env (log_in "eve" "secret") "laptop" (login_at "verify_password")
      realm at_password held_at_password refl refl refl refl

abbrev verified : LoginInfo
verified = record (login_at "verify_password") {
  user_id = 7;
  device_id = "laptop";
  remember_me = true;
}

next_of_verified :
    choose_next env "verify_password" verified at_password.world
    ≡ (done (verify_device, verified), at_password.world)
unfolding choose_next get_next_step prepare following needs_to_run is_password_temporary
    requires_totp_onboarding is_known_user_device
next_of_verified = refl

verify_password-advances_example :
    let ended = verify_password env (some "laptop") (ok (log_in "ada" "secret")) at_password in
    (ended.0 ≡ done tt)
    × (ended.1.next_step ≡ some "verify_device")
    × (ended.1.errors ≡ [])
    × (saved : LoginInfo) × ((peek_login_code tokens "abc" ended.1.world).0 ≡ done (some saved))
    × (saved.next_step ≡ "verify_device")
    × (saved.user_id ≡ 7)
    × (saved.device_id ≡ "laptop")
    × (saved.remember_me ≡ true)
    × (saved.realm_id ≡ 1)
    × (saved.original_url ≡ "/")
verify_password-advances_example =
    verify_password-advances env (log_in "ada" "secret") "laptop" (login_at "verify_password")
      verified realm user verify_device at_password at_password.world redis-IsRedis
      (to_json-IsJson login) held_at_password refl refl refl refl matched next_of_verified

advance-stores_example :
    let ended = advance env "abc" "verify_password" (login_at "verify_password") (request empty) in
    (ended.0 ≡ done tt)
    × (ended.1.next_step ≡ some "verify_device")
    × (ended.1.errors ≡ [])
    × ((peek_login_code tokens "abc" ended.1.world).0 ≡ done (some (login_at "verify_device")))
advance-stores_example =
    advance-stores env "abc" "verify_password" (login_at "verify_password")
      (login_at "verify_password") verify_device (request empty) empty redis-IsRedis
      (to_json-IsJson login) next_of_password

abbrev taken : World
taken = (redis.get_del "loginCode:abc" at_submit.world).1

taken_at_submit :
    retrieve_login_code tokens "abc" at_submit.world ≡ (done (some (login_at "submit")), taken)
unfolding retrieve_login_code retrieve_info
taken_at_submit = refl

abbrev taken_early : World
taken_early = (redis.get_del "loginCode:abc" at_device.world).1

taken_at_device :
    retrieve_login_code tokens "abc" at_device.world
    ≡ (done (some (login_at "verify_device")), taken_early)
unfolding retrieve_login_code retrieve_info
taken_at_device = refl

complete_auth_flow_early_example : complete_auth_flow env (some "laptop") (ok finish) at_device ≡ (
  done tt,
  record at_device {
    world = taken_early;
    errors = http_error 401 "wrong login step 'verify_device', expected 'submit'" ∷ [];
  },
)
complete_auth_flow_early_example =
    complete_auth_flow_early env finish (login_at "verify_device") realm at_device taken_early
      taken_at_device refl (ground (arith, eq_iff "verify_device" "submit"))

not_known :
    is_known_user_device env 7 "laptop" taken
    ≡ (done (record { id = none; requires_verification = true }), taken)
unfolding is_known_user_device
not_known = refl

found_device : add_known_device env 7 "laptop" "browser" "10.0.0.1" taken ≡ (done 3, taken)
unfolding add_known_device device_id_or
found_device = refl

complete_auth_flow_session_example :
    complete_auth_flow env (some "laptop") (ok finish) at_submit ≡ (
      done tt,
      record at_submit {
        world = (λ j. if str_eq j "session" then some "#cookie" else taken j);
        session_cookie = some ("cookie", false);
        redirect = some "/";
      },
    )
complete_auth_flow_session_example =
    complete_auth_flow_session env finish (login_at "submit") realm at_submit taken taken
      (record { id = none; requires_verification = true }) 3 taken_at_submit refl refl not_known
      found_device
