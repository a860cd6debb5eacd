-- ===== src/Oidc/Clients.antt =====
-- `Authenticate` of services/ClientService.go.
use Prim.Native.Char.{code}
use holvit_backend.Prelude.{String, Bool, true, false, ◌==◌, Option, none, some, if◌then◌else◌}
use holvit_backend.Go.{http_error, Go, Result, ok, err, ◌>>=◌, pure, lift, unwrap_result}
use holvit_backend.Filter.{single}
use holvit_backend.Hashing.{validate_hash}
use holvit_backend.Auth.Env.{reads, returns}
use holvit_backend.Oidc.Env.{Client, Env}

-- `strings.CutPrefix`: what follows the prefix, if the text has it
abbrev pub cut_prefix : (prefix s : String) → Option String
cut_prefix String.[] s = some s
cut_prefix (String.◌∷◌ p ps) String.[] = none
cut_prefix (String.◌∷◌ p ps) (String.◌∷◌ c s) =
    let rest = cut_prefix ps s in if code p == code c then rest else none

module _ {W K : Type 0} (env : Env W K) where
  open env use {find_clients, decode_hash, hasher}

  abbrev rehash : Bool → String → Client → Go W (Result Client)
  rehash false secret client = pure (ok client)
  rehash true secret client = do
    hashed ← returns (env.hash secret)
    updated ← env.update_client_secret client.id hashed
    _ ← lift (unwrap_result updated)
    pure (ok client)

  -- the test of a secret without its prefix
  abbrev check_secret : (hashed secret : String) → Client → Go W (Result Client)
  check_secret hashed secret client = do
    result ← lift (validate_hash decode_hash secret hashed hasher)
    if result.is_valid
        then rehash result.needs_rehash secret client
        else pure (err (http_error 401 "wrong client secret"))

  abbrev check_prefixed : (hashed : String) → Option String → Client → Go W (Result Client)
  check_prefixed hashed none client = pure (err (http_error 401 "missing secret_ prefix"))
  check_prefixed hashed (some secret) client = check_secret hashed secret client

  -- by the stored secret and the given one
  abbrev authenticate_client : Option String → Option String → Client → Go W (Result Client)
  authenticate_client (some hashed) (some provided) client =
      check_prefixed hashed (cut_prefix "secret_" provided) client
  authenticate_client (some hashed) none client =
      pure (err (http_error 401 "client requires a secret"))
  authenticate_client none (some provided) client =
      pure (err (http_error 401 "secret provided for secret-less client, secret missing"))
  authenticate_client none none client = pure (ok client)

  -- `Authenticate`
  unfoldable pub authenticate : String → Option String → Go W (Result Client)
  authenticate client_id client_secret = do
    rows ← reads (find_clients client_id)
    client ← lift (single rows)
    authenticate_client client.client_secret client_secret client
