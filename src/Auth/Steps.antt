-- ===== src/Auth/Steps.antt =====
-- The steps of a login and the choice of the next one: handlers/auth/NextAuthenticationStep.go
-- and the step types of the other files of handlers/auth.
use holvit_backend.Prelude.{
  ℕ, zero, suc, String, str_eq, Bool, true, false, not, ◌&&◌, Option, none, some, if◌then◌else◌,
}
use holvit_backend.Go.{Go, ◌>>=◌, pure, lift, unwrap}
use holvit_backend.Tokens.Service.{LoginInfo}
use holvit_backend.Auth.Env.{Env, reads, returns}
use holvit_backend.Auth.Services.{
  is_password_temporary, requires_totp_onboarding, is_known_user_device,
}

-- The types that implement `NextAuthenticationStep`. Verifying the password is no such type: it
-- is the step that a login begins with.
pub data Step : Type 0 where
  verify_email reset_password totp_onboarding verify_totp verify_device submit : Step

-- `Name`
abbrev pub name : Step → String
name verify_email = "verify_email"
name reset_password = "reset_password"
name totp_onboarding = "totp_onboarding"
name verify_totp = "verify_totp"
name verify_device = "verify_device"
name submit = "submit"

-- the switch of `getNextStep`
unfoldable pub following : String → Step
following current =
    if str_eq current "verify_password"
    then verify_email
    else if str_eq current "verify_email"
    then reset_password
    else if str_eq current "reset_password"
    then totp_onboarding
    else if str_eq current "totp_onboarding"
    then verify_device
    else if str_eq current "verify_totp"
    then verify_device
    else submit

abbrev is_some {ℓ} : {A : Type ℓ} → Option A → Bool
is_some none = false
is_some (some _) = true

abbrev is_none {ℓ} : {A : Type ℓ} → Option A → Bool
is_none o = not (is_some o)

module _ {W : Type 0} (env : Env W) where
  -- `NeedsToRun` of the steps that verify an address and a device
  abbrev verify_email_needed : LoginInfo → Go W Bool
  verify_email_needed info = do
    found ← reads (env.find_user_by_id info.user_id)
    user ← lift (unwrap found)
    pure (is_some user.email && user.email_verified)

  abbrev verify_device_needed : LoginInfo → Go W Bool
  verify_device_needed info = do
    response ← is_known_user_device env info.user_id info.device_id
    pure (is_none response.id && response.requires_verification)

  -- `NeedsToRun`
  unfoldable pub needs_to_run : Step → LoginInfo → Go W Bool
  needs_to_run verify_email info = verify_email_needed info
  needs_to_run reset_password info = is_password_temporary env info.user_id
  needs_to_run totp_onboarding info = requires_totp_onboarding env info.user_id
  needs_to_run verify_totp info = requires_totp_onboarding env info.user_id
  needs_to_run verify_device info = verify_device_needed info
  needs_to_run submit info = pure true

  -- `TotpOnboardingStep.Prepare`
  abbrev prepare_totp_onboarding : LoginInfo → Go W LoginInfo
  prepare_totp_onboarding info = do
    secret ← returns env.random_secret
    sealed ← returns (env.seal secret)
    pure (record info { encrypted_totp_onboarding_secret_base64 = sealed })

  -- `Prepare`, which does nothing at the other steps
  unfoldable pub prepare : Step → LoginInfo → Go W LoginInfo
  prepare totp_onboarding info = prepare_totp_onboarding info
  prepare verify_email info = pure info
  prepare reset_password info = pure info
  prepare verify_totp info = pure info
  prepare verify_device info = pure info
  prepare submit info = pure info

  -- `getNextStep`, on fuel: `none` means that the fuel ran out
  unfoldable pub get_next_step : (fuel : ℕ) → String → LoginInfo → Go W (Option Step)
  get_next_step zero current info = pure none
  get_next_step (suc fuel) current info = do
    needed ← needs_to_run (following current) info
    let rest = get_next_step fuel (name (following current)) info
    if needed then pure (some (following current)) else rest
