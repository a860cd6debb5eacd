-- ===== src/Oidc/Registration.antt =====
-- `CreateClient` of services/ClientService.go. The insertion of a row and the source of random ids
-- are parameters.
pub mod Secrets
use holvit_backend.Prelude.{ℕ, String, str_append, List, Bool, true, false, Option, none, some}
use holvit_backend.Go.{Outcome, done, Go, Result, ◌>>=◌, pure, lift, unwrap_result}
use holvit_backend.Auth.Env.{returns}
use holvit_backend.Oidc.Env.{Env}

pub record CreateClientRequest : Type 0 where
  pub realm_id : ℕ
  pub client_id : Option String
  pub display_name : String
  pub with_secret : Bool
  pub redirect_urls : List String

pub record CreateClientResponse : Type 0 where
  pub id : ℕ
  pub client_id : String
  pub client_secret : Option String

-- the row of a client before it has an id
pub record NewClient : Type 0 where
  pub realm_id : ℕ
  pub display_name : String
  pub client_id : String
  pub client_secret : Option String
  pub redirect_uris : List String

-- the secret as it is handed out
abbrev pub prefixed : Option String → Option String
prefixed none = none
prefixed (some secret) = some (str_append "secret_" secret)

abbrev pub new_client : CreateClientRequest → String → Option String → NewClient
new_client request client_id hashed = record {
  realm_id = request.realm_id;
  display_name = request.display_name;
  client_id = client_id;
  client_secret = hashed;
  redirect_uris = request.redirect_urls;
}

abbrev pub client_response : String → Option String → ℕ → CreateClientResponse
client_response client_id secret id = record {
  id = id;
  client_id = client_id;
  client_secret = prefixed secret;
}

module _ {W K : Type 0} (env : Env W K) (random_uuid : W → String × W)
    (insert_client : NewClient → Go W (Result ℕ)) where
  -- the given id, or a random one
  abbrev pub client_id_of : Option String → Go W String
  client_id_of (some id) = pure id
  client_id_of none = returns random_uuid

  abbrev pub new_secret : Bool → Go W (Option String)
  new_secret false = pure none
  new_secret true = do secret ← returns env.random_string_base64; pure (some secret)

  abbrev pub hash_secret : Option String → Go W (Option String)
  hash_secret none = pure none
  hash_secret (some secret) = do hashed ← returns (env.hash secret); pure (some hashed)

  abbrev pub insert_row :
      CreateClientRequest → String → (secret hashed : Option String) → Go W CreateClientResponse
  insert_row request client_id secret hashed = do
    created ← insert_client (new_client request client_id hashed)
    id ← lift (unwrap_result created)
    pure (client_response client_id secret id)

  -- `CreateClient`
  unfoldable pub create_client : CreateClientRequest → Go W CreateClientResponse
  create_client request = do
    client_id ← client_id_of request.client_id
    secret ← new_secret request.with_secret
    hashed ← hash_secret secret
    insert_row request client_id secret hashed
