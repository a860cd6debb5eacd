-- ===== src/Tests/Tokens.antt =====
-- Runs of the token service and of the password hashes.
use holvit_backend.Prelude.{[], ◌∷◌, ◌≡◌, ◌↔◌, refl, true, none, some, str_eq}
use holvit_backend.Go.{done, ok}
use holvit_backend.Hashing.{bcrypt, Digest, check_if_rehash_needed, validate_hash}
use holvit_backend.Hashing.Rehash.{validate_hash_rehash}
use holvit_backend.Tokens.Service.{
  CodeInfo, store_oidc_code, retrieve_oidc_code, peek_login_code, overwrite_login_code,
}
use holvit_backend.Tokens.Lifecycle.{retrieve_oidc_code_once, overwrite_login_code_revives}
use holvit_backend.Tests.Codec.{to_json-IsJson, login, oidc}
use holvit_backend.Tests.World.{redis-IsRedis, tokens, decode, login_at, empty}

abbrev code_info : CodeInfo
code_info = record {
  realm_id = 1;
  client_id = "client";
  user_id = 7;
  redirect_uri = "/back";
  granted_scopes = "openid" ∷ [];
  granted_scope_ids = 2 ∷ [];
  pkce_challenge = "";
}

retrieve_oidc_code_once_example :
    let stored = store_oidc_code tokens code_info empty in
    let first = retrieve_oidc_code tokens "token" stored.1 in
    (stored.0 ≡ done "token")
    × (first.0 ≡ done (some code_info))
    × ((retrieve_oidc_code tokens "token" first.1).0 ≡ done none)
retrieve_oidc_code_once_example =
    retrieve_oidc_code_once tokens redis-IsRedis (to_json-IsJson oidc) code_info empty

overwrite_login_code_revives_example :
    let overwritten = overwrite_login_code tokens "abc" (login_at "submit") empty in
    (overwritten.0 ≡ done none)
    × ((peek_login_code tokens "abc" overwritten.1).0 ≡ done (some (login_at "submit")))
overwrite_login_code_revives_example =
    overwrite_login_code_revives tokens redis-IsRedis (to_json-IsJson login) "abc"
      (login_at "submit") empty

abbrev digest : Digest
digest = record { settings = some (bcrypt 12); matches = λ plain. ok (str_eq plain "secret") }

validated :
    validate_hash decode "secret" "secret" (bcrypt 12)
    ≡ done (record { is_valid = true; needs_rehash = true })
unfolding validate_hash check_if_rehash_needed
validated = refl

validate_hash_rehash_example : (true ≡ true) ↔ ((true ≡ true) × (bcrypt 12 ≡ bcrypt 12))
validate_hash_rehash_example =
    validate_hash_rehash decode "secret" "secret" (bcrypt 12) (bcrypt 12) digest
      (record { is_valid = true; needs_rehash = true }) refl refl validated
