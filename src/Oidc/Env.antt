-- ===== src/Oidc/Env.antt =====
-- What the token endpoints work on: rows of the repositories, and the interface to what is not the
-- program's.
use holvit_backend.Prelude.{ℕ, String, List, Option}
use holvit_backend.Go.{Go, Result}
use holvit_backend.Hashing.{Digest, HashSettings}
use holvit_backend.Tokens.Service.{TokenService}

-- `repos.Client`, `repos.RefreshToken`: the fields that the services read. Ids are numbers.
pub record Client : Type 0 where
  pub id : ℕ
  pub realm_id : ℕ
  pub client_id : String
  pub client_secret : Option String

pub record RefreshToken : Type 0 where
  pub id : ℕ
  pub user_id : ℕ
  pub client_id : ℕ
  pub realm_id : ℕ
  pub hashed_token : String
  pub valid_until : ℕ
  pub issuer : String
  pub subject : String
  pub audience : String
  pub scopes : List String

-- The claims of an ID token and of an access token, whose times are in seconds. Those in `claims`
-- are set last, and stand in place of others of their name.
pub record IdToken : Type 0 where
  pub subject : String
  pub issuer : String
  pub audience : String
  pub issued_at : ℕ
  pub expires : ℕ
  pub claims : List (String × String)

pub record AccessToken : Type 0 where
  pub user_id : ℕ
  pub scopes : List String
  pub issued_at : ℕ
  pub expires : ℕ

-- The database's answers, the key cache, and the functions of libraries, over a world `W` and the
-- type `K` of a realm's key.
pub record Env (W K : Type 0) : Type 0 where
  pub tokens : TokenService W
  pub now : W → ℕ
  pub find_clients : (client_id : String) → W → List Client
  pub update_client_secret : ℕ → String → Go W (Result (Unit {0}))
  pub find_refresh_tokens : (hashed_token : String) → W → List RefreshToken
  pub delete_refresh_token : ℕ → W → W
  pub create_refresh_token : RefreshToken → W → ℕ × W
  pub find_scope_ids : (realm_id : ℕ) (names : List String) → W → List ℕ
  pub get_claims : (user_id : ℕ) (scope_ids : List ℕ) → W → List (String × String)
  pub uuid_string : ℕ → String
  pub decode_hash : String → Result Digest
  pub hasher : HashSettings
  pub hash : String → W → String × W
  pub cheap_hash : String → String
  pub random_string_base64 : W → String × W
  pub get_key : (realm_id : ℕ) → W → Option K
  pub sign_id : K → IdToken → Result String
  pub sign_access : K → AccessToken → Result String
  -- base64 of the SHA-256 hash, and a text without the `=` at its end
  pub base64_sha256 : String → String
  pub trim_right_equals : String → String
