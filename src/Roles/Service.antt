-- ===== src/Roles/Service.antt =====
-- The methods of services/RoleService.go.
use holvit_backend.Prelude.{
  ℕ, String, List, [], ◌∷◌, map, Bool, false, Option, none, some, if◌then◌else◌, ◌==◌, not,
}
use holvit_backend.Go.{
  plain_error, Go, Result, ok, err, ◌>>=◌, ◌>>◌, pure, panic, lift, unwrap_result,
}
use holvit_backend.Repos.Database.{Database}
use holvit_backend.Repos.Roles.{
  Role, RoleUpdate, no_role_filter, find_roles, create_role, delete_roles, update_role,
}
use holvit_backend.Repos.RoleImplications.{
  RoleImplication, find_role_implications, delete_implications_for_role, create_implications,
}
use holvit_backend.Repos.UserRoles.{UserRole, create_user_roles}
use holvit_backend.Roles.Cache.{Cache, empty_cache, add_roles, add_implications, find_implications}

pub record CreateRoleRequest : Type 0 where
  pub realm_id : ℕ
  pub client_id : Option ℕ
  pub name : String
  pub display_name : Option String
  pub description : Option String

pub record SetImplicationRequest : Type 0 where
  pub realm_id : ℕ
  pub role_id : ℕ
  pub role_ids : List ℕ

abbrev or_default : Option String → String → String
or_default none other = other
or_default (some s) other = s

-- `RoleUpdate{ImpliesCache: h.Some(ids)}`
abbrev pub cache_update : List ℕ → RoleUpdate
cache_update ids = record {
  display_name = none;
  name = none;
  description = none;
  implies_cache = some ids;
}

-- `slices.Contains`
abbrev pub contains : List ℕ → ℕ → Bool
contains [] a = false
contains (x ∷ xs) a = if x == a then Bool.true else contains xs a

-- An id that the database gives is not set.
abbrev new_implication : ℕ → ℕ → RoleImplication
new_implication role_id implied = record { id = 0; role_id = role_id; implied_role_id = implied }

-- the loop of `SetImplications` over the roles that were found
unfoldable pub check_roles : SetImplicationRequest → List Role → Result (List RoleImplication)
check_roles request [] = ok []
check_roles request (r ∷ roles) =
    if contains r.implies_cache request.role_id
    then err (plain_error "Circular role implication error")
    else if not (r.realm_id == request.realm_id)
    then err (plain_error "Wrong realm")
    else elim (check_roles request roles) [
      | err e ↦ err e
      | ok rest ↦ ok (new_implication request.role_id r.id ∷ rest)
    ]

abbrev new_user_roles : ℕ → List ℕ → List UserRole
new_user_roles user_id [] = []
new_user_roles user_id (r ∷ role_ids) =
    record { id = 0; user_id = user_id; role_id = r } ∷ new_user_roles user_id role_ids

-- The recursion of `findImplications` has no bound of its own; the fuel stands for the stack.
module _ {W : Type 0} (db : Database W) (fuel : ℕ) where
  -- `CreateRole`
  abbrev pub create_role_or_panic : CreateRoleRequest → Go W (Unit {0})
  unfolding create_role
  create_role_or_panic request = do
    r ← create_role db (record {
      id = 0;
      realm_id = request.realm_id;
      client_id = request.client_id;
      display_name = or_default request.display_name request.name;
      name = request.name;
      description = or_default request.description "";
      implies_cache = [];
      internal = false;
    })
    id ← lift (unwrap_result r)
    pure tt

  -- the loop of `recalculateCache` that searches from each role and stores what it finds
  unfoldable pub search_and_store : List ℕ → Cache → Go W (Unit {0})
  unfolding update_role find_implications
  search_and_store [] c = pure tt
  search_and_store (r ∷ roles) c = elim (find_implications fuel r c) [
    | none ↦ panic (plain_error "stack overflow")
    | some (implied, c') ↦ (do update_role db r (cache_update implied); search_and_store roles c')
  ]

  unfoldable pub search_from : List ℕ → List RoleImplication → Go W (Unit {0})
  unfolding search_and_store add_implications add_roles
  search_from roles implications =
      search_and_store roles (add_implications implications (add_roles roles empty_cache))

  -- `recalculateCache`
  unfoldable pub recalculate_cache : (realm_id : ℕ) → Go W (Unit {0})
  unfolding find_roles find_role_implications search_from
  recalculate_cache realm_id = do
    roles ← find_roles db (record no_role_filter { realm_id = realm_id })
    implications ← find_role_implications db realm_id
    search_from (map (λ (r : Role). r.id) roles.values) implications

  -- `DeleteRoles`
  unfoldable pub delete_realm_roles : (realm_id : ℕ) → List ℕ → Go W (Unit {0})
  unfolding recalculate_cache delete_roles
  delete_realm_roles realm_id role_ids = do
    delete_roles db realm_id role_ids
    recalculate_cache realm_id

  abbrev replace_implications :
      SetImplicationRequest → Result (List RoleImplication) → Go W (Result (Unit {0}))
  unfolding recalculate_cache delete_implications_for_role create_implications update_role
  replace_implications request (err e) = pure (err e)
  replace_implications request (ok implications) = do
    delete_implications_for_role db request.role_id
    create_implications db implications
    update_role db request.role_id (cache_update request.role_ids)
    recalculate_cache request.realm_id
    pure (ok tt)

  -- `SetImplications`
  unfoldable pub set_implications : SetImplicationRequest → Go W (Result (Unit {0}))
  unfolding find_roles check_roles recalculate_cache delete_implications_for_role
      create_implications update_role
  set_implications request = do
    found ← find_roles db (record no_role_filter { role_ids = some request.role_ids })
    replace_implications request (check_roles request found.values)

module _ {W : Type 0} (db : Database W) where
  -- `AssignRolesToUser`
  unfoldable pub assign_roles_to_user : (user_id : ℕ) → List ℕ → Go W (Unit {0})
  unfolding create_user_roles
  assign_roles_to_user user_id role_ids = create_user_roles db (new_user_roles user_id role_ids)
