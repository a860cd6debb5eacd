-- ===== src/Realms.antt =====
-- New realms: services/RealmService.go.
use holvit_backend.Prelude.{
  ℕ, String, str_append, str_eq, [], Bool, true, false, Option, none, some, if◌then◌else◌,
}
use holvit_backend.Go.{done, Go, ◌>>=◌, ◌>>◌, pure, lift, unwrap_result}
use holvit_backend.Filter.{ℤ, pos, single}
use holvit_backend.Repos.Database.{Database}
use holvit_backend.Repos.Filters.{no_filter}
use holvit_backend.Repos.Realms.{Realm, find_realms, create_realm}
use holvit_backend.Repos.Roles.{Role, create_role}
use holvit_backend.Repos.Scopes.{Scope, create_scope}
use holvit_backend.Repos.ClaimMappers.{
  ClaimMapperDetails, user_info_details, roles_details, ClaimMapper, MapperJson,
  create_claim_mapper, associate_claim_mapper,
}

-- `CreateRealmRequest`; a nil pointer is none.
pub record CreateRealmRequest : Type 0 where
  pub name : String
  pub display_name : String
  pub require_username : Option Bool
  pub require_email : Option Bool
  pub require_device_verification : Option Bool
  pub require_totp : Option Bool
  pub enable_remember_me : Option Bool
  pub password_history_length : Option ℤ

-- `utils.GetOrDefault`
abbrev pub get_or_default : {A : Type 0} → Option A → A → A
get_or_default none d = d
get_or_default (some a) d = a

-- The row of a new realm. The e-mail address is required where the request requires a user name.
unfoldable pub new_realm : CreateRealmRequest → (encrypted_private_key : String) → Realm
new_realm request key = record {
  id = 0;
  name = request.name;
  display_name = request.display_name;
  encrypted_private_key = key;
  require_username = get_or_default request.require_username true;
  require_email = get_or_default request.require_username false;
  require_device_verification = get_or_default request.require_device_verification false;
  require_totp = get_or_default request.require_totp false;
  enable_remember_me = get_or_default request.enable_remember_me false;
  password_history_length = get_or_default request.password_history_length (pos 3);
}

abbrev new_scope : ℕ → (name display_name description : String) → ℕ → Scope
new_scope realm_id name display_name description sort_index = record {
  id = 0;
  realm_id = realm_id;
  name = name;
  display_name = display_name;
  description = description;
  sort_index = pos sort_index;
  grant = none;
}

abbrev new_mapper : ℕ → (display_name description : String) → ClaimMapperDetails → ClaimMapper
new_mapper realm_id display_name description details = record {
  id = 0;
  realm_id = realm_id;
  display_name = display_name;
  description = description;
  mapper_type = "user_info";
  details = details;
}

abbrev new_role : ℕ → (display_name name description : String) → Role
new_role realm_id display_name name description = record {
  id = 0;
  realm_id = realm_id;
  client_id = none;
  display_name = display_name;
  name = name;
  description = description;
  implies_cache = [];
  internal = true;
}

module _ {W : Type 0} (db : Database W) (json : MapperJson) where
  -- a claim mapper and its association with a scope
  abbrev add_mapper : (scope_id : ℕ) → ClaimMapper → Go W (Unit {0})
  unfolding create_claim_mapper associate_claim_mapper
  add_mapper scope_id mapper = do
    mapper_id ← create_claim_mapper json db mapper
    id ← associate_claim_mapper db (record { claim_mapper_id = mapper_id; scope_id = scope_id })
    pure tt

  abbrev add_scope : Scope → Go W ℕ
  unfolding create_scope
  add_scope scope = do r ← create_scope db scope; lift (unwrap_result r)

  -- `createRoleScope`, which nothing calls
  unfoldable pub create_role_scope : ℕ → Go W (Unit {0})
  unfolding create_scope create_claim_mapper associate_claim_mapper
  create_role_scope realm_id = do
    scope_id ← add_scope (new_scope realm_id "roles" "Roles" "Access your roles" 4)
    add_mapper scope_id
        (new_mapper realm_id "Roles" "The roles of the user" (roles_details "roles"))

  -- `createProfileScope`
  unfoldable pub create_profile_scope : ℕ → Go W (Unit {0})
  unfolding create_scope create_claim_mapper associate_claim_mapper
  create_profile_scope realm_id = do
    scope_id ← add_scope (new_scope realm_id "profile" "Profile" "Access your name" 3)
    add_mapper scope_id (
        new_mapper realm_id "Username" "The username of the user"
          (user_info_details "preferred_username" "username"))

  -- `createEmailScope`
  unfoldable pub create_email_scope : ℕ → Go W (Unit {0})
  unfolding create_scope create_claim_mapper associate_claim_mapper
  create_email_scope realm_id = do
    scope_id ← add_scope (new_scope realm_id "email" "Email" "Access your email address" 2)
    add_mapper scope_id (
        new_mapper realm_id "Email address" "The primary email address of the user"
          (user_info_details "email" "email"))
    add_mapper scope_id (
        new_mapper realm_id "Email address verified" "Whether the email address was verified or not"
          (user_info_details "email_verified" "email_verified"))

  -- `createOpenIdScope`
  unfoldable pub create_open_id_scope : ℕ → Go W (Unit {0})
  unfolding create_scope create_claim_mapper associate_claim_mapper
  create_open_id_scope realm_id = do
    scope_id ← add_scope (new_scope realm_id "openid" "OpenId Connect" "Sign you in" 1)
    add_mapper scope_id (
        new_mapper realm_id "Subject Identifier" "The id of the user"
          (user_info_details "sub" "id"))

  abbrev add_role : Role → Go W (Unit {0})
  unfolding create_role
  add_role role = do r ← create_role db role; id ← lift (unwrap_result r); pure tt

  -- the role of the administrator of a realm, in the master realm
  abbrev add_admin_role : CreateRealmRequest → Go W (Unit {0})
  unfolding find_realms create_role
  add_admin_role request = do
    realms ← find_realms db (record { base = no_filter; name = some "admin" })
    master ← lift (single realms.values)
    add_role (
        new_role master.id (str_append request.display_name " Realm Administrator")
          (str_append request.name ".admin")
          (str_append "Administrator role for the " (str_append request.display_name " realm")))

  abbrev add_superuser_role : ℕ → Go W (Unit {0})
  unfolding create_role
  add_superuser_role realm_id =
      add_role (new_role realm_id "Superuser" "superuser" "Superuser of this holvit installation")

  -- A new private key and its bytes, the encryption of bytes, and the key cache.
  module _ (new_private_key : W → String × W) (encrypt : String → W → String × W)
      (set_key : ℕ → String → W → W) where
    abbrev made : (W → String × W) → Go W String
    made f w = let (s, w') = f w in (done s, w')

    -- `CreateRealm` of the service
    unfoldable pub create_realm_with_scopes : CreateRealmRequest → Go W ℕ
    unfolding create_realm new_realm create_open_id_scope create_email_scope create_profile_scope
        find_realms create_role
    create_realm_with_scopes request = do
      private_key ← made new_private_key
      encrypted ← made (encrypt private_key)
      created ← create_realm db (new_realm request encrypted)
      realm_id ← lift (unwrap_result created)
      create_open_id_scope realm_id
      create_email_scope realm_id
      create_profile_scope realm_id
      λ w. (done tt, set_key realm_id private_key w)
      if str_eq request.name "admin" then add_superuser_role realm_id else add_admin_role request
      pure realm_id
