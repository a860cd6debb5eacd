-- ===== src/Auth/Services.antt =====
-- What the flow asks of services/UserService.go and services/DeviceService.go.
use holvit_backend.Prelude.{
  ℕ, String, List, [], ◌∷◌, Bool, true, false, not, ◌&&◌, Option, none, some, if◌then◌else◌,
}
use holvit_backend.Go.{
  http_error, plain_error, Outcome, done, panicked, Go, ok, err, ◌>>=◌, ◌>>◌, pure, panic, lift,
  unwrap, unwrap_result,
}
use holvit_backend.Filter.{PagedResult, paged_result, is_positive, single, single_or_none, any}
use holvit_backend.Ip.{inet_from_string}
use holvit_backend.Hashing.{validate_hash}
use holvit_backend.Auth.Env.{
  CredentialDetails, password_details, totp_details, Credential, UserDevice, password, totp, Env,
  reads, writes, returns,
}

-- `credential.Details.(repos.CredentialPasswordDetails)` and the one for totp details
abbrev password_of : CredentialDetails → Outcome (String × Bool)
password_of (password_details hashed temporary) = done (hashed, temporary)
password_of (totp_details _ _) = panicked (plain_error "interface conversion")

abbrev totp_of : CredentialDetails → Outcome String
totp_of (totp_details _ encrypted) = done encrypted
totp_of (password_details _ _) = panicked (plain_error "interface conversion")

-- `AuthStrategy`
pub data AuthStrategy : Type 0 where
  dangerous_no_auth : AuthStrategy
  totp_auth : (code : String) → AuthStrategy
  password_auth : (password : String) → AuthStrategy

-- `IsKnownDeviceResponse`
pub record IsKnownDeviceResponse : Type 0 where
  pub id : Option ℕ
  pub requires_verification : Bool

module _ {W : Type 0} (env : Env W) where
  open env use {find_credentials, decode_hash, hasher}

  -- `PasswordAuthStrategy.Authorize`
  authorize_credential : String → Option Credential → Go W Bool
  authorize_credential plain none = pure false
  authorize_credential plain (some c) = do
    (hashed, _) ← lift (password_of c.details)
    result ← lift (validate_hash decode_hash plain hashed hasher)
    pure result.is_valid

  unfoldable pub authorize_password : String → ℕ → Go W Bool
  unfolding authorize_credential
  authorize_password plain user_id = do
    rows ← reads (find_credentials user_id password)
    credential ← lift (single_or_none rows)
    authorize_credential plain credential

  -- the loop of `TotpAuthStrategy.Authorize`
  any_totp_matches : String → ℕ → List Credential → Outcome Bool
  any_totp_matches code now [] = done false
  any_totp_matches code now (c ∷ cs) =
      let rest = any_totp_matches code now cs in
      elim (totp_of c.details) [
        | panicked e ↦ panicked e
        | done encrypted ↦ elim (env.open_base64 encrypted) [
          | err e ↦ panicked e
          | ok sealed ↦ elim (env.decrypt sealed) [
            | panicked e ↦ panicked e
            | done secret ↦ elim (env.validate_totp code secret now) [
              | err e ↦ panicked e
              | ok true ↦ done true
              | ok false ↦ rest
            ]
          ]
        ]
      ]

  unfoldable pub authorize_totp : String → ℕ → Go W Bool
  unfolding any_totp_matches
  authorize_totp code user_id = do
    credentials ← reads (find_credentials user_id totp)
    now ← reads env.now
    let missing = panic (http_error 401 "no totp configured for user")
    if any credentials then lift (any_totp_matches code now credentials) else missing

  unfoldable pub authorize : AuthStrategy → ℕ → Go W Bool
  unfolding authorize_password authorize_totp
  authorize dangerous_no_auth user_id = pure true
  authorize (totp_auth code) user_id = authorize_totp code user_id
  authorize (password_auth plain) user_id = authorize_password plain user_id

  abbrev delete_existing : Option Credential → Go W (Unit {0})
  delete_existing none = pure tt
  delete_existing (some c) = writes (env.delete_credential c.id)

  -- `SetPassword`: what the strategy answers is not used
  unfoldable pub set_password : ℕ → String → Bool → AuthStrategy → Go W (Unit {0})
  unfolding authorize
  set_password user_id plain temporary strategy = do
    _ ← authorize strategy user_id
    rows ← reads (find_credentials user_id password)
    credential ← lift (single_or_none rows)
    delete_existing credential
    hashed ← returns (env.hash plain)
    created ← env.create_credential user_id password (password_details hashed temporary)
    _ ← lift (unwrap_result created)
    pure tt

  unfoldable pub is_password_temporary : ℕ → Go W Bool
  is_password_temporary user_id = do
    rows ← reads (find_credentials user_id password)
    credential ← lift (single rows)
    (_, temporary) ← lift (password_of credential.details)
    pure temporary

  -- `AddTotp`: what the strategy answers is not used
  unfoldable pub add_totp : ℕ → String → String → AuthStrategy → Go W (Unit {0})
  unfolding authorize
  add_totp user_id secret display_name strategy = do
    _ ← authorize strategy user_id
    sealed ← returns (env.seal secret)
    created ← env.create_credential user_id totp (totp_details display_name sealed)
    _ ← lift (unwrap_result created)
    pure tt

  unfoldable pub requires_totp_onboarding : ℕ → Go W Bool
  requires_totp_onboarding user_id = do
    credentials ← reads (find_credentials user_id totp)
    found ← reads (env.find_user_by_id user_id)
    user ← lift (unwrap found)
    found_realm ← reads (env.find_realm_by_id user.realm_id)
    realm ← lift (unwrap found_realm)
    pure (not (any credentials) && realm.require_totp)

  -- `VerifyLogin`
  unfoldable pub verify_login : String → ℕ → Go W ℕ
  unfolding authorize_password
  verify_login plain user_id = do
    valid ← authorize_password plain user_id
    if valid then pure user_id else panic (http_error 401 "invalid username or password")

  -- `VerifyTotp`
  unfoldable pub verify_totp_code : String → ℕ → Go W (Unit {0})
  unfolding authorize_totp
  verify_totp_code code user_id = do
    valid ← authorize_totp code user_id
    if valid then pure tt else panic (http_error 401 "invalid totp code")

  -- `FindUserDevices` by user and device, which asks for no page
  abbrev pub find_user_devices : ℕ → String → W → PagedResult UserDevice
  find_user_devices user_id device_id w =
      paged_result false 0 (env.user_device_rows user_id device_id w)

  abbrev pub unknown_device : ℕ → Go W IsKnownDeviceResponse
  unknown_device user_id = do
    found ← reads (env.find_user_by_id user_id)
    user ← lift (unwrap found)
    found_realm ← reads (env.find_realm_by_id user.realm_id)
    realm ← lift (unwrap found_realm)
    pure (record { id = none; requires_verification = realm.require_device_verification })

  -- `devices.Values()[0].Id`
  abbrev first_id : List UserDevice → Outcome ℕ
  first_id [] = panicked (plain_error "index out of range")
  first_id (d ∷ _) = done d.id

  -- `IsKnownUserDevice`
  unfoldable pub is_known_user_device : ℕ → String → Go W IsKnownDeviceResponse
  is_known_user_device user_id device_id = do
    devices ← reads (find_user_devices user_id device_id)
    let known = (do
      id ← lift (first_id devices.values)
      pure (record { id = some id; requires_verification = false }))
    if is_positive devices.total_count then known else unknown_device user_id

  unfoldable pub device_id_or : ℕ → String → String → String → Option UserDevice → Go W ℕ
  unfolding inet_from_string
  device_id_or user_id device_id user_agent ip none = do
    _ ← lift (inet_from_string env.inet_set ip)
    returns (env.create_user_device user_id device_id user_agent ip)
  device_id_or user_id device_id user_agent ip (some d) = pure d.id

  -- `AddKnownDevice`
  unfoldable pub add_known_device : ℕ → (device_id user_agent ip : String) → Go W ℕ
  unfolding device_id_or
  add_known_device user_id device_id user_agent ip = do
    devices ← reads (find_user_devices user_id device_id)
    device ← lift (single_or_none devices.values)
    device_id_or user_id device_id user_agent ip device
