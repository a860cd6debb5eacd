-- ===== src/Tests/World.antt =====
-- A world for the tests: one user of one realm, whose login is kept in a table of texts.
use holvit_backend.Prelude.{
  ℕ, String, str_append, str_eq, List, [], ◌∷◌, refl, true, false, Option, none, some,
  if◌then◌else◌,
}
use holvit_backend.Go.{done, Result, ok}
use holvit_backend.Hashing.{bcrypt, Digest}
use holvit_backend.Tokens.Store.{Redis, IsRedis}
use holvit_backend.Tokens.Service.{LoginInfo, TokenService}
use holvit_backend.Auth.Env.{
  User, Realm, password_details, Credential, UserDevice, CredentialType, password, totp, Env,
  Request,
}
use holvit_backend.Tests.Codec.{to_json, grant, login, oidc}

abbrev pub World : Type 0
World = String → Option String

abbrev pub redis : Redis World
redis = record {
  set = λ k v seconds w j. if str_eq k j then some v else w j;
  get = λ k w. w k;
  get_del = λ k w. (w k, λ j. if str_eq k j then none else w j);
}

pub redis-IsRedis : IsRedis redis
redis-IsRedis = record {
  get-set = λ k j v seconds w. refl;
  get_del_value = λ k w. refl;
  get-get_del = λ k j w. refl;
}

abbrev pub tokens : TokenService World
tokens = record {
  redis = redis;
  grant_json = to_json grant;
  code_json = to_json oidc;
  login_json = to_json login;
  development = false;
  next_token = λ w. ("token", w);
}

abbrev pub user : User
user = record { id = 7; realm_id = 1; username = "ada"; email = none; email_verified = false }

abbrev pub realm : Realm
realm = record {
  id = 1;
  name = "main";
  require_device_verification = true;
  require_totp = false;
  enable_remember_me = true;
}

abbrev pub device : UserDevice
device = record { id = 3; user_id = 7; device_id = "laptop" }

-- The user's password is "secret", and the hash of a password is its text.
abbrev credentials : ℕ → CredentialType → World → List Credential
credentials user_id password w =
    record { id = 5; user_id = 7; details = password_details "secret" false } ∷ []
credentials user_id totp w = []

abbrev pub decode : String → Result Digest
decode hashed =
    ok (record { settings = some (bcrypt 12); matches = λ plain. ok (str_eq plain hashed) })

abbrev pub env : Env World
env = record {
  tokens = tokens;
  find_user_by_id = λ id w. some user;
  find_users = λ id username w. if str_eq username "ada" then user ∷ [] else [];
  find_realm_by_id = λ id w. some realm;
  find_credentials = credentials;
  delete_credential = λ id w. w;
  create_credential = λ id type details w. (done (ok 6), w);
  user_device_rows = λ id device_id w. if str_eq device_id "laptop" then device ∷ [] else [];
  create_user_device = λ id device_id agent ip w. (4, w);
  create_session = λ s w j. if str_eq j "session" then some s.hashed_token else w j;
  decode_hash = decode;
  hasher = bcrypt 12;
  hash = λ plain w. (plain, w);
  cheap_hash = λ s. str_append "#" s;
  random_string_base64 = λ w. ("cookie", w);
  random_secret = λ w. ("seed", w);
  seal = λ s w. (s, w);
  open_base64 = ok;
  decrypt = done;
  validate_totp = λ code secret now. ok (str_eq code secret);
  inet_set = λ s. ok tt;
  now = λ w. 1000;
}

-- A login at a step, under the code "abc".
abbrev pub login_at : String → LoginInfo
login_at step = record {
  next_step = step;
  realm_id = 1;
  user_id = 7;
  device_id = "laptop";
  remember_me = false;
  encrypted_totp_onboarding_secret_base64 = "";
  original_url = "/";
}

abbrev pub empty : World
empty k = none

abbrev pub stored : LoginInfo → World
stored info = redis.set "loginCode:abc" ((to_json login).marshal info) 1800 empty

abbrev pub request : World → Request World
request w = record {
  world = w;
  errors = [];
  next_step = none;
  session_cookie = none;
  redirect = none;
}
