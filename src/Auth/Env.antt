-- ===== src/Auth/Env.antt =====
-- What the login flow works on: the rows of the repositories, the interface to everything that is
-- not the program's, and the state of one request.
use holvit_backend.Prelude.{ℕ, String, List, ◌++◌, [], ◌∷◌, Bool, Option}
use holvit_backend.Go.{Error, Outcome, done, Go, Result}
use holvit_backend.Hashing.{Digest, HashSettings}
use holvit_backend.Tokens.Service.{TokenService}

-- `repos.User`, `repos.Realm`, `repos.Credential`, `repos.UserDevice`: the fields that the flow
-- reads. Ids are numbers.
pub record User : Type 0 where
  pub id : ℕ
  pub realm_id : ℕ
  pub username : String
  pub email : Option String
  pub email_verified : Bool

pub record Realm : Type 0 where
  pub id : ℕ
  pub name : String
  pub require_device_verification : Bool
  pub require_totp : Bool
  pub enable_remember_me : Bool

pub data CredentialDetails : Type 0 where
  password_details : (hashed : String) (temporary : Bool) → CredentialDetails
  totp_details : (display_name encrypted_secret_base64 : String) → CredentialDetails

pub record Credential : Type 0 where
  pub id : ℕ
  pub user_id : ℕ
  pub details : CredentialDetails

pub record UserDevice : Type 0 where
  pub id : ℕ
  pub user_id : ℕ
  pub device_id : String

pub record Session : Type 0 where
  pub user_id : ℕ
  pub user_device_id : ℕ
  pub realm_id : ℕ
  pub hashed_token : String
  pub valid_until : ℕ

-- `constants.CredentialTypePassword` and `constants.CredentialTypeTotp`
pub data CredentialType : Type 0 where
  password totp : CredentialType

-- The database's answers to the repositories' queries, the token store, and the functions of
-- libraries, over a world `W`. A query that the database refuses is not modelled.
pub record Env (W : Type 0) : Type 0 where
  pub tokens : TokenService W
  pub find_user_by_id : ℕ → W → Option User
  pub find_users : (realm_id : ℕ) (username : String) → W → List User
  pub find_realm_by_id : ℕ → W → Option Realm
  pub find_credentials : (user_id : ℕ) → CredentialType → W → List Credential
  pub delete_credential : ℕ → W → W
  pub create_credential : ℕ → CredentialType → CredentialDetails → Go W (Result ℕ)
  pub user_device_rows : (user_id : ℕ) (device_id : String) → W → List UserDevice
  pub create_user_device : (user_id : ℕ) (device_id user_agent ip : String) → W → ℕ × W
  pub create_session : Session → W → W
  pub decode_hash : String → Result Digest
  pub hasher : HashSettings
  pub hash : String → W → String × W
  pub cheap_hash : String → String
  pub random_string_base64 : W → String × W
  pub random_secret : W → String × W
  -- base64 around `utils.EncryptSymmetric` and `utils.DecryptSymmetric` with the configured key
  pub seal : String → W → String × W
  pub open_base64 : String → Result String
  pub decrypt : String → Outcome String
  -- `totp.ValidateCustom(code, secret, now, …)`
  pub validate_totp : (code secret : String) (now : ℕ) → Result Bool
  -- `inet.Set` of `pgtype`
  pub inet_set : List ℕ → Result (Unit {0})
  pub now : W → ℕ

-- One request: the errors that the handler recorded (`rcs.Errors()`), the step that it answered,
-- and the session cookie that it set.
pub record Request (W : Type 0) : Type 0 where
  pub world : W
  pub errors : List Error
  pub next_step : Option String
  pub session_cookie : Option (String × Bool)
  pub redirect : Option String

module _ {W A : Type 0} where
  abbrev run_in : Request W → Outcome A × W → Outcome A × Request W
  run_in r (o, w) = (o, record r { world = w })

  -- A call of a service, in a handler.
  abbrev pub call : Go W A → Go (Request W) A
  call m r = run_in r (m r.world)

module _ {W : Type 0} where
  -- `rcs.Error`
  abbrev pub record_error : Error → Go (Request W) (Unit {0})
  record_error e r = (done tt, record r { errors = r.errors ++ e ∷ [] })

  abbrev pub reads : {A : Type 0} → (W → A) → Go W A
  reads f w = (done (f w), w)

  abbrev pub writes : (W → W) → Go W (Unit {0})
  writes f w = (done tt, f w)

  abbrev pub returns : {A : Type 0} → (W → A × W) → Go W A
  returns f w = let (a, w') = f w in (done a, w')
