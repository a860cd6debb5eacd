-- ===== src/Claims.antt =====
-- The claims of a user: services/ClaimsService.go.
use holvit_backend.Prelude.{
  ℕ, String, str_eq, List, [], ◌∷◌, ◌++◌, Bool, true, false, Option, none, some, if◌then◌else◌,
}
use holvit_backend.Go.{plain_error, Outcome, done, panicked, Go, ◌>>=◌, pure, lift, unwrap}
use holvit_backend.Auth.Env.{User}
use holvit_backend.Repos.Database.{Database}
use holvit_backend.Repos.Filters.{no_filter}
use holvit_backend.Repos.Users.{find_user_by_id}
use holvit_backend.Repos.Roles.{Role, no_role_filter, find_roles}
use holvit_backend.Repos.UserRoles.{UserRole, find_user_roles}
use holvit_backend.Repos.ClaimMappers.{
  ClaimMapperDetails, roles_details, user_info_details, ClaimMapper, MapperJson, find_claim_mappers,
}

-- A claim is a text or the names of roles.
pub data Claim : Type 0 where
  text : String → Claim
  role_names : List String → Claim

-- `ClaimResponse`
pub record ClaimResponse : Type 0 where
  pub name : String
  pub claim : Claim

-- The details of the mappers of one type.
abbrev pub details_of_type : String → List ClaimMapper → List ClaimMapperDetails
details_of_type mapper_type [] = []
details_of_type mapper_type (m ∷ mappers) =
    let rest = details_of_type mapper_type mappers in
    if str_eq m.mapper_type mapper_type then m.details ∷ rest else rest

abbrev bool_text : Bool → String
bool_text true = "true"
bool_text false = "false"

abbrev text_claim : String → String → ClaimResponse
text_claim name t = record { name = name; claim = Claim.text t }

abbrev email_claim : String → Option String → List ClaimResponse
email_claim name none = []
email_claim name (some email) = text_claim name email ∷ []

abbrev verified_claim : String → Option String → Bool → List ClaimResponse
verified_claim name none verified = []
verified_claim name (some email) verified = text_claim name (bool_text verified) ∷ []

module _ (uuid_string : ℕ → String) where
  -- `switch mapper.Property`; another property ends the program, as a panic here.
  unfoldable pub property_claim :
      User → (claim_name property : String) → Outcome (List ClaimResponse)
  property_claim user claim_name property =
      if str_eq property "id"
      then done (text_claim claim_name (uuid_string user.id) ∷ [])
      else if str_eq property "username"
      then done (text_claim claim_name user.username ∷ [])
      else if str_eq property "email"
      then done (email_claim claim_name user.email)
      else if str_eq property "email_verified"
      then done (verified_claim claim_name user.email user.email_verified)
      else panicked (plain_error "Unknown user property")

  -- The details of another type fail the type assertion.
  abbrev details_claim : User → ClaimMapperDetails → Outcome (List ClaimResponse)
  unfolding property_claim
  details_claim user (roles_details claim_name) = panicked (plain_error "interface conversion")
  details_claim user (user_info_details claim_name property) =
      property_claim user claim_name property

  -- the loop over the mappers of the user's properties
  unfoldable pub user_claims : User → List ClaimMapperDetails → Outcome (List ClaimResponse)
  unfolding property_claim
  user_claims user [] = done []
  user_claims user (m ∷ mappers) = elim (details_claim user m) [
    | panicked e ↦ panicked e
    | done claims ↦ elim (user_claims user mappers) [
      | panicked e ↦ panicked e
      | done rest ↦ done (claims ++ rest)
    ]
  ]

  module _ {W : Type 0} (db : Database W) (json : MapperJson)
      (map_ids : (UserRole → ℕ) → List UserRole → List ℕ)
      (map_names : (Role → String) → List Role → List String) where
    -- the claim of the roles, where there is a mapper for it; `iter.Map` is a library's
    abbrev role_claims : (user_id : ℕ) → User → List ClaimMapperDetails → Go W (List ClaimResponse)
    unfolding find_user_roles find_roles
    role_claims user_id user [] = pure []
    role_claims user_id user (m ∷ mappers) = do
      user_roles ← find_user_roles db user_id
      roles ← find_roles db (record no_role_filter {
        realm_id = user.realm_id;
        role_ids = some (map_ids (λ (r : UserRole). r.role_id) user_roles);
      })
      pure (
          record {
            name = "role";
            claim = role_names (map_names (λ (r : Role). r.name) roles.values);
          }
          ∷ [])

    -- `GetClaims`
    unfoldable pub get_claims : (user_id : ℕ) → List ℕ → Go W (List ClaimResponse)
    unfolding find_claim_mappers find_user_by_id find_user_roles find_roles user_claims
    get_claims user_id scope_ids = do
      mappers ←
          find_claim_mappers json db
            (record { base = no_filter; realm_id = none; scope_ids = some scope_ids })
      found ← find_user_by_id db user_id
      user ← lift (unwrap found)
      roles ← role_claims user_id user (details_of_type "roles" mappers.values)
      infos ← lift (user_claims user (details_of_type "user_info" mappers.values))
      pure (roles ++ infos)
