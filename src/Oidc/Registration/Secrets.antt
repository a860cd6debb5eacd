-- ===== src/Oidc/Registration/Secrets.antt =====
-- The secret of a new client, between `CreateClient` and `Authenticate` of
-- services/ClientService.go.
use Prim.Native.Char.{code}
use package.text.Mathlib.TextLemmas.{cons-append, nil-append}
use holvit_backend.Prelude.{
  ℕ, String, str_append, [], ◌∷◌, true, ◌==◌, ◌≡◌, refl, sym, ap, ◌∙◌, Option, none, some, arith,
}
use holvit_backend.Go.{
  Outcome, done, Go, Result, ok, err, ◌>>=◌, bind-done, lift, pure, unwrap_result,
}
use holvit_backend.Hashing.{Digest, validate_hash, check_if_rehash_needed}
use holvit_backend.Hashing.Rehash.{compare_settings_refl}
use holvit_backend.Oidc.Env.{Client, Env}
use holvit_backend.Repos.Database.{Database, text, uuid, answer}
use holvit_backend.Repos.Clients.{update_client}
use holvit_backend.Oidc.Clients.{cut_prefix, authenticate}
use holvit_backend.Oidc.Registration.{
  CreateClientRequest, CreateClientResponse, NewClient, new_client, client_response, client_id_of,
  new_secret, hash_secret, insert_row, create_client,
}

same_code : (n : ℕ) → (n == n) ≡ true
same_code n = ground arith

-- A text that starts with the prefix has it cut off.
cut_prefix-append : (prefix s : String) → cut_prefix prefix (str_append prefix s) ≡ some s
cut_prefix-append String.[] s = rw (nil-append s) refl
cut_prefix-append (String.◌∷◌ c ps) s =
    rw (cons-append c ps s, same_code (code c)) (cut_prefix-append ps s)

-- The row that a database makes of a new client
abbrev pub row_of : ℕ → NewClient → Client
row_of id c = record {
  id = id;
  realm_id = c.realm_id;
  client_id = c.client_id;
  client_secret = c.client_secret;
}

module _ {W K : Type 0} (env : Env W K) (random_uuid : W → String × W)
    (insert_client : NewClient → Go W (Result ℕ)) (db : Database W) where
  -- A hash is made with the settings of the hasher and matches the text that it was made of.
  pub record IsHash : Type 0 where
    pub digest : (s : String) (w : W) → Digest
    pub decoded : (s : String) (w : W) → env.decode_hash (env.hash s w).0 ≡ ok (digest s w)
    pub settings : (s : String) (w : W) → (digest s w).settings ≡ some env.hasher
    pub matches : (s : String) (w : W) → (digest s w).matches s ≡ ok true

  -- The database finds a client that it inserted, where there was none of its name, and executes
  -- updates of a secret; random numbers and hashes leave the database as it is.
  pub record IsClientStore : Type 0 where
    pub inserted :
        (c : NewClient) (w w' : W) (id : ℕ)
        → env.find_clients c.client_id w ≡ []
        → insert_client c w ≡ (done (ok id), w')
        → env.find_clients c.client_id w' ≡ row_of id c ∷ []
    pub uuid_keeps :
        (s : String) (w : W) → env.find_clients s (random_uuid w).1 ≡ env.find_clients s w
    pub random_keeps :
        (s : String) (w : W)
        → env.find_clients s (env.random_string_base64 w).1 ≡ env.find_clients s w
    pub hash_keeps :
        (s t : String) (w : W) → env.find_clients s (env.hash t w).1 ≡ env.find_clients s w
    -- the update of a secret is `UpdateClient` on the database
    pub update_secret :
        (id : ℕ) (hashed : String) (w : W)
        → env.update_client_secret id hashed w
          ≡ update_client db id
              (record { display_name = none; redirect_uris = none; client_secret = some hashed })
              w
    -- the database has a transaction for the request, and executes the update of one column
    pub in_tx : (w : W) → (db.get_tx w).0 ≡ done (ok tt)
    pub executes :
        (id : ℕ) (hashed : String) (w : W)
        → (db.exec
            (db.sqlbuilder_update "clients"
              (("hashed_client_secret", text hashed) ∷ [])
              "id"
              (uuid id))
            w).0
          ≡ answer tt

  insert_row-done :
      (request : CreateClientRequest) (client_id : String) (secret hashed : Option String)
      (w w' : W) (response : CreateClientResponse)
      → insert_row env random_uuid insert_client request client_id secret hashed w
        ≡ (done response, w')
      → (id : ℕ) × ((insert_client (new_client request client_id hashed) w ≡ (done (ok id), w'))
          × (response ≡ client_response client_id secret id))
  insert_row-done request client_id secret hashed w w' response h =
      let (created, (e, h1)) =
        bind-done (insert_client (new_client request client_id hashed))
          (λ created.
            lift (unwrap_result created) >>= λ id. pure (client_response client_id secret id))
          w w' response h in
      by_created created (insert_client (new_client request client_id hashed) w).1 e h1
    where
      by_created :
          (created : Result ℕ) (v : W)
          → insert_client (new_client request client_id hashed) w ≡ (done created, v)
          → (lift (unwrap_result created) >>= λ id. pure (client_response client_id secret id)) v
            ≡ (done response, w')
          → (id : ℕ) × ((insert_client (new_client request client_id hashed) w ≡ (done (ok id), w'))
              × (response ≡ client_response client_id secret id))
      by_created (err x) v e k = absurd cc
      by_created (ok id) v e k =
          (id, (e ∙ ap (λ (u : W). (Outcome.done (ok id), u)) (ap (λ x. x.1) k), cc))

  module _ (is_hash : IsHash) (is_store : IsClientStore) where
    validated :
        (s : String) (v : W)
        → validate_hash env.decode_hash s (env.hash s v).0 env.hasher
          ≡ done (record { is_valid = true; needs_rehash = true })
    unfolding validate_hash check_if_rehash_needed
    validated s v =
        rw
          (
            validate_hash,
            is_hash.decoded s v,
            is_hash.matches s v,
            is_hash.settings s v,
            compare_settings_refl env.hasher,
          )
          refl

    update_secret-done :
        (id : ℕ) (hashed : String) (w : W) → (env.update_client_secret id hashed w).0 ≡ done (ok tt)
    unfolding update_client
    update_secret-done id hashed w =
        rw (is_store.update_secret id hashed w, is_store.in_tx w, is_store.executes id hashed) refl

    -- A stored hash of a secret lets a client in that gives the secret as it was handed out.
    authenticate-hashed :
        (client_id s : String) (client : Client) (v w : W)
        → env.find_clients client_id w ≡ client ∷ []
        → client.client_secret ≡ some (env.hash s v).0
        → (authenticate env client_id (some (str_append "secret_" s)) w).0 ≡ done (ok client)
    unfolding authenticate
    authenticate-hashed client_id s client v w one hashed =
        rw
          (
            one,
            hashed,
            cut_prefix-append "secret_" s,
            validated s v,
            update_secret-done client.id (env.hash s w).0 (env.hash s w).1,
          )
          refl

    client_id_of-keeps :
        (given : Option String) (t : String) (w : W)
        → env.find_clients t (client_id_of env random_uuid insert_client given w).1
          ≡ env.find_clients t w
    client_id_of-keeps (some id) t w = refl
    client_id_of-keeps none t w = is_store.uuid_keeps t w

    -- Where a hash that is made can be decoded, has the hasher's settings and matches the text that it
    -- was made of, and where the database finds the client that it inserted, executes the update of a
    -- secret, and is left as it is by random numbers and hashes: a client that was created with a
    -- secret is authenticated by its id and the secret that it was given, where no client had this id
    -- before.
    pub create_client-authenticate :
        (request : CreateClientRequest) (w w' : W) (response : CreateClientResponse)
        → request.with_secret ≡ true
        → create_client env random_uuid insert_client request w ≡ (done response, w')
        → env.find_clients response.client_id w ≡ []
        → (client : Client) × ((client.id ≡ response.id)
            × ((authenticate env response.client_id response.client_secret w').0
                ≡ done (ok client)))
    unfolding create_client
    create_client-authenticate request w w' response secret created new =
        let (client_id, (e, h1)) =
          bind-done (client_id_of env random_uuid insert_client request.client_id)
            (λ client_id. new_secret env random_uuid insert_client request.with_secret >>= λ secret.
              hash_secret env random_uuid insert_client secret >>= λ hashed.
              insert_row env random_uuid insert_client request client_id secret hashed)
            w w' response created in
        let w1 : W = (client_id_of env random_uuid insert_client request.client_id w).1 in
        let s : String = (env.random_string_base64 w1).0 in
        let w2 : W = (env.random_string_base64 w1).1 in
        let (id, (inserted, answered)) =
          insert_row-done request client_id (some s) (some (env.hash s w2).0) (env.hash s w2).1 w'
            response (rw secret at h1) in
        let row : Client = row_of id (new_client request client_id (some (env.hash s w2).0)) in
        let absent : env.find_clients client_id (env.hash s w2).1 ≡ [] =
          is_store.hash_keeps client_id s w2
          ∙ is_store.random_keeps client_id w1
          ∙ client_id_of-keeps request.client_id client_id w
          ∙ ap (λ (r : CreateClientResponse). env.find_clients r.client_id w) (sym answered)
          ∙ new in
        let found : env.find_clients client_id w' ≡ row ∷ [] =
          is_store.inserted (new_client request client_id (some (env.hash s w2).0))
            (env.hash s w2).1 w' id absent inserted in
        (
          row,
          (
            ap (λ (r : CreateClientResponse). r.id) (sym answered),
            rw answered (authenticate-hashed client_id s row w2 w' found refl),
          ),
        )
