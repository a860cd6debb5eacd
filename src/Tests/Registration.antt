-- ===== src/Tests/Registration.antt =====
-- A client is created in a database that has no clients, and authenticates.
use holvit_backend.Prelude.{
  ℕ, String, str_append, str_eq, eq_iff, List, [], ◌∷◌, ◌≡◌, refl, sym, ap, ◌∙◌, arith, true, false,
  Option, none, some, if◌then◌else◌,
}
use holvit_backend.Go.{done, Go, Result, ok, pure}
use holvit_backend.Hashing.{bcrypt}
use holvit_backend.Tokens.Service.{TokenService}
use holvit_backend.Oidc.Env.{Client, Env}
use holvit_backend.Oidc.Clients.{authenticate}
use holvit_backend.Oidc.Registration.{
  CreateClientRequest, CreateClientResponse, NewClient, create_client,
}
use holvit_backend.Oidc.Registration.Secrets.{
  row_of, IsHash, IsClientStore, create_client-authenticate,
}
use holvit_backend.Repos.Database.{Database, answer}
use holvit_backend.Repos.Clients.{update_client}
use holvit_backend.Tests.World.{tokens, decode}

-- the client of each name
abbrev Clients : Type 0
Clients = String → Option Client

abbrev rows : Option Client → List Client
rows none = []
rows (some c) = c ∷ []

abbrev no_tokens : TokenService Clients
no_tokens = record {
  redis = record { set = λ k v seconds w. w; get = λ k w. none; get_del = λ k w. (none, w) };
  grant_json = tokens.grant_json;
  code_json = tokens.code_json;
  login_json = tokens.login_json;
  development = false;
  next_token = λ w. ("token", w);
}

abbrev env : Env Clients String
env = record {
  tokens = no_tokens;
  now = λ w. 1000;
  find_clients = λ id w. rows (w id);
  update_client_secret = λ id hashed. pure (ok tt);
  find_refresh_tokens = λ hashed w. [];
  delete_refresh_token = λ id w. w;
  create_refresh_token = λ row w. (10, w);
  find_scope_ids = λ realm_id names w. [];
  get_claims = λ user_id scope_ids w. [];
  uuid_string = λ id. "7";
  decode_hash = decode;
  hasher = bcrypt 12;
  hash = λ plain w. (plain, w);
  cheap_hash = λ s. str_append "#" s;
  random_string_base64 = λ w. ("new", w);
  get_key = λ realm_id w. none;
  sign_id = λ key t. ok key;
  sign_access = λ key t. ok key;
  base64_sha256 = λ s. str_append "hash of " s;
  trim_right_equals = λ s. s;
}

abbrev uuid : Clients → String × Clients
uuid w = ("8f14", w)

abbrev insert : NewClient → Go Clients (Result ℕ)
insert c w = (done (ok 1), λ j. if str_eq c.client_id j then some (row_of 1 c) else w j)

-- The database executes every statement.
abbrev db : Database Clients
db = record {
  get_tx = pure (ok tt);
  now = λ w. 1000;
  scan_all = λ s. [];
  query = λ q w. (answer [], w);
  query_row = λ q w. (answer 1, w);
  exec = λ q w. (answer tt, w);
  sqlbuilder_update = λ table cols column v. record { sql = table; parameters = [] };
  sqlbuilder_delete = λ table column v. record { sql = table; parameters = [] };
  sqlbuilder_insert = λ table cols rows. record { sql = table; parameters = [] };
}

same_text : (s : String) → str_eq s s ≡ true
same_text s = ground (arith, eq_iff s s)

hash-IsHash : IsHash env uuid insert db
hash-IsHash = record {
  digest = λ s w. record { settings = some (bcrypt 12); matches = λ plain. ok (str_eq plain s) };
  decoded = λ s w. refl;
  settings = λ s w. refl;
  matches = λ s w. ap ok (same_text s);
}

clients-IsClientStore : IsClientStore env uuid insert db
unfolding update_client
clients-IsClientStore = record {
  inserted = λ c w w' id absent e.
      ap (λ (g : Clients). rows (g c.client_id)) (sym (ap (λ x. x.1) e))
      ∙ rw (same_text c.client_id) (ap (λ k. row_of k c ∷ []) cc);
  uuid_keeps = λ s w. refl;
  random_keeps = λ s w. refl;
  hash_keeps = λ s t w. refl;
  update_secret = λ id hashed w. refl;
  in_tx = λ w. refl;
  executes = λ id hashed w. refl;
}

abbrev request : CreateClientRequest
request = record {
  realm_id = 1;
  client_id = none;
  display_name = "App";
  with_secret = true;
  redirect_urls = "/back" ∷ [];
}

abbrev answered : CreateClientResponse
answered = record { id = 1; client_id = "8f14"; client_secret = some "secret_new" }

abbrev after_request : Clients
unfolding create_client
after_request = (create_client env uuid insert request (λ j. none)).1

created : create_client env uuid insert request (λ j. none) ≡ (done answered, after_request)
unfolding create_client
created = refl

create_client-authenticate_example :
    (client : Client) × ((client.id ≡ 1)
      × ((authenticate env "8f14" (some "secret_new") after_request).0 ≡ done (ok client)))
create_client-authenticate_example =
    create_client-authenticate env uuid insert db hash-IsHash clients-IsClientStore request
      (λ j. none) after_request answered refl created refl
