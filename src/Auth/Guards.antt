-- ===== src/Auth/Guards.antt =====
-- What the tests at the beginning of the handlers protect, and what they do not: handlers/auth.
use holvit_backend.Prelude.{
  String, str_eq, eq_iff, List, [], ◌∷◌, ◌++◌, ◌≡◌, ◌≢◌, refl, false, Option, some, Bool-cases, inl,
  inr, append_assoc, if◌then◌else◌, arith,
}
use holvit_backend.Go.{Error, http_error, done, ok}
use holvit_backend.Tokens.Service.{LoginInfo, peek_login_code}
use holvit_backend.Auth.Env.{Env, Request}
use holvit_backend.Auth.Handlers.{
  VerifyPasswordRequest, ResetPasswordRequest, TotpOnboardingRequest, CodeRequest, Handler,
  peek_login_info, at_step, wrong_step, verify_password, reset_password, totp_onboarding,
  verify_device, verify_totp, reset_password_at, totp_onboarding_at, verify_device_at,
  verify_totp_at,
}

-- A request to one of the handlers that advance a login.
pub data Call : Type 0 where
  password_call : VerifyPasswordRequest → Call
  reset_call : ResetPasswordRequest → Call
  onboarding_call : TotpOnboardingRequest → Call
  device_call : CodeRequest → Call
  totp_call : CodeRequest → Call

abbrev pub step_of : Call → String
step_of (password_call _) = "verify_password"
step_of (reset_call _) = "reset_password"
step_of (onboarding_call _) = "totp_onboarding"
step_of (device_call _) = "verify_device"
step_of (totp_call _) = "verify_totp"

abbrev pub token_of : Call → String
token_of (password_call q) = q.token
token_of (reset_call q) = q.token
token_of (onboarding_call q) = q.token
token_of (device_call q) = q.token
token_of (totp_call q) = q.token

-- The step that the message of a rejection says was expected.
abbrev pub printed_step : Call → String
printed_step (reset_call _) = "verify_password"
printed_step c = step_of c

-- The password is verified before a device is bound to the login.
abbrev pub device_error : Call → String → LoginInfo → List Error
device_error (password_call _) device info = []
device_error c device info =
    if str_eq device info.device_id then [] else http_error 401 "wrong device id" ∷ []

-- The calls whose body does not read the device.
abbrev pub IgnoresDevice : Call → Type 0
IgnoresDevice (reset_call _) = Unit
IgnoresDevice (onboarding_call _) = Unit
IgnoresDevice (totp_call _) = Unit
IgnoresDevice (password_call _) = ⊥
IgnoresDevice (device_call _) = ⊥

pub str_eq-ne : (s t : String) → s ≢ t → str_eq s t ≡ false
str_eq-ne s t h = ground (arith, eq_iff s t)

module _ {W : Type 0} (env : Env W) where
  unfoldable pub run : Call → Option String → Handler env
  unfolding verify_password reset_password totp_onboarding verify_device verify_totp
  run (password_call q) device = verify_password env device (ok q)
  run (reset_call q) device = reset_password env device (ok q)
  run (onboarding_call q) device = totp_onboarding env device (ok q)
  run (device_call q) device = verify_device env device (ok q)
  run (totp_call q) device = verify_totp env device (ok q)

  -- The store has this login under this code.
  abbrev pub Holds : String → LoginInfo → W → Type 0
  Holds token info w = peek_login_code env.tokens token w ≡ (done (some info), w)

  at_step_rejects :
      (step expected device token : String) (body : String → LoginInfo → Handler env)
      (info : LoginInfo) (r : Request W)
      → Holds token info r.world
      → info.next_step ≢ step
      → at_step env step expected (some device) token body r ≡ (
        done tt,
        record r {
          errors =
              r.errors
              ++ ((if str_eq device info.device_id
                    then []
                    else http_error 401 "wrong device id" ∷ [])
                  ++ wrong_step info.next_step expected ∷ []);
        },
      )
  unfolding at_step
  at_step_rejects step expected device token body info r held ne =
      rw (held, str_eq-ne info.next_step step ne)
        (elim (Bool-cases (str_eq device info.device_id)) [
          | inl same ↦ rw same
          | inr other ↦ rw (other, append_assoc)
        ])

  -- A call at another step than its own changes nothing but the list of errors: the code stays as
  -- it was, no credential, device or session is written, and no next step is answered. Last in
  -- that list is the error 401 that names the steps.
  pub run_rejects :
      (c : Call) (device : String) (info : LoginInfo) (r : Request W)
      → Holds (token_of c) info r.world
      → info.next_step ≢ step_of c
      → run c (some device) r ≡ (
        done tt,
        record r {
          errors =
              r.errors
              ++ (device_error c device info ++ wrong_step info.next_step (printed_step c) ∷ []);
        },
      )
  unfolding run peek_login_info
  run_rejects (password_call q) device info r held ne =
      rw (held, str_eq-ne info.next_step "verify_password" ne)
  run_rejects (reset_call q) device info r held ne =
      at_step_rejects "reset_password" "verify_password" device q.token (reset_password_at env q)
        info r held ne
  run_rejects (onboarding_call q) device info r held ne =
      at_step_rejects "totp_onboarding" "totp_onboarding" device q.token (totp_onboarding_at env q)
        info r held ne
  run_rejects (device_call q) device info r held ne =
      at_step_rejects "verify_device" "verify_device" device q.token (verify_device_at env q) info r
        held ne
  run_rejects (totp_call q) device info r held ne =
      at_step_rejects "verify_totp" "verify_totp" device q.token (verify_totp_at env q) info r held
        ne

  -- A call that sets a new password, that adds a second factor or that verifies one, at its step and
  -- from another device than the one that the login is bound to, records the error 401 and then does
  -- all that the same call from the login's own device does.
  pub wrong_device_continues :
      (c : Call) (device : String) (info : LoginInfo) (r : Request W)
      → IgnoresDevice c
      → Holds (token_of c) info r.world
      → info.next_step ≡ step_of c
      → device ≢ info.device_id
      → run c (some device) r
        ≡ run c
            (some info.device_id)
            (record r { errors = r.errors ++ http_error 401 "wrong device id" ∷ [] })
  unfolding run reset_password totp_onboarding verify_totp at_step peek_login_info reset_password_at
      totp_onboarding_at verify_totp_at
  wrong_device_continues (reset_call q) device info r ignores held same ne =
      rw
        (
          held,
          str_eq-ne device info.device_id ne,
          (eq_iff info.device_id info.device_id).1 refl,
          (eq_iff info.next_step "reset_password").1 same,
        )
        refl
  wrong_device_continues (onboarding_call q) device info r ignores held same ne =
      rw
        (
          held,
          str_eq-ne device info.device_id ne,
          (eq_iff info.device_id info.device_id).1 refl,
          (eq_iff info.next_step "totp_onboarding").1 same,
        )
        refl
  wrong_device_continues (totp_call q) device info r ignores held same ne =
      rw
        (
          held,
          str_eq-ne device info.device_id ne,
          (eq_iff info.device_id info.device_id).1 refl,
          (eq_iff info.next_step "verify_totp").1 same,
        )
        refl
  wrong_device_continues (password_call q) device info r ignores held same ne = absurd ignores
  wrong_device_continues (device_call q) device info r ignores held same ne = absurd ignores
