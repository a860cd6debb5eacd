-- ===== src/Api/Endpoints.antt =====
-- The handlers of handlers/api/users.go, handlers/api/scopes.go and handlers/api/realms.go. The
-- value of a handler is the answer that it writes.
use holvit_backend.Prelude.{ℕ, String, List, [], ◌∷◌, ◌++◌, Bool, false, Option, none, some}
use holvit_backend.Go.{Outcome, done, Go, Result, ◌>>=◌, pure, lift, unwrap_result}
use holvit_backend.Filter.{PagedResult}
use holvit_backend.Auth.Env.{User}
use holvit_backend.Repos.Database.{Database, after}
use holvit_backend.Repos.Filters.{SortInfo, PagingInfo, no_filter}
use holvit_backend.Repos.Realms.{Realm, find_realms}
use holvit_backend.Repos.Users.{UserFilter, find_users, create_user}
use holvit_backend.Repos.Scopes.{Scope, ScopeFilter, no_scope_filter, find_scopes}
use holvit_backend.Oidc.Endpoints.{HttpRequest}
use holvit_backend.Api.Query.{
  QuerySortOrder, FindResponse, map_allowed, search_text_from_query, sort_from_query,
  paging_from_query, get_request_realm,
}

pub record UserResponse : Type 0 where
  pub id : ℕ
  pub username : String
  pub email : Option String
  pub email_verified : Bool

-- `mapUserResponse`
abbrev pub map_user_response : User → UserResponse
map_user_response user = record {
  id = user.id;
  username = user.username;
  email = user.email;
  email_verified = user.email_verified;
}

pub record ScopeResponse : Type 0 where
  pub id : ℕ
  pub name : String
  pub display_name : String
  pub description : String

-- `mapScopeResponse`
abbrev pub map_scope_response : Scope → ScopeResponse
map_scope_response scope = record {
  id = scope.id;
  name = scope.name;
  display_name = scope.display_name;
  description = scope.description;
}

pub record RealmResponse : Type 0 where
  pub id : ℕ
  pub name : String
  pub display_name : String

-- `mapRealmResponse`
abbrev pub map_realm_response : Realm → RealmResponse
map_realm_response realm = record {
  id = realm.id;
  name = realm.name;
  display_name = realm.display_name;
}

-- the columns that users are sorted by
abbrev pub user_columns : List (String × String)
user_columns = ("username", "username") ∷ ("email", "email") ∷ []

-- `MapOpt` with `MapAllowed`
abbrev pub mapped_order : Option QuerySortOrder → Outcome (Option SortInfo)
mapped_order none = done none
mapped_order (some order) = after (map_allowed user_columns order) λ i. done (some i)

-- the filter of `FindUsers`
unfoldable pub user_filter : (realm_id : ℕ) → HttpRequest → Outcome UserFilter
unfolding paging_from_query sort_from_query
user_filter realm_id r = after (paging_from_query r) λ paging.
    after (after (sort_from_query r) mapped_order) λ order.
      after (search_text_from_query r) λ search. done (record {
        base = record { id = none; paging_info = paging; sort_info = order; search_text = search };
        realm_id = some realm_id;
        username = none;
      })

-- The element of a new slice, and the loop that appends to it.
abbrev pub blank_scope : ScopeResponse
blank_scope = record { id = 0; name = ""; display_name = ""; description = "" }

unfoldable pub made : List Scope → List ScopeResponse
made [] = []
made (s ∷ scopes) = blank_scope ∷ made scopes

unfoldable pub append_rows : List ScopeResponse → List Scope → List ScopeResponse
append_rows rows [] = rows
append_rows rows (s ∷ scopes) = append_rows (rows ++ map_scope_response s ∷ []) scopes

abbrev pub scopes_response : PagedResult Scope → FindResponse ScopeResponse
unfolding made append_rows
scopes_response scopes = record {
  total_count = scopes.total_count;
  rows = append_rows (made scopes.values) scopes.values;
}

abbrev pub scopes_filter : (realm_id : ℕ) → Option PagingInfo → ScopeFilter
scopes_filter realm_id paging = record no_scope_filter {
  base = record no_filter { paging_info = paging };
  realm_id = realm_id;
}

module _ {W : Type 0} (db : Database W) where
  abbrev pub scopes_page : (realm_id : ℕ) → Option PagingInfo → Go W (FindResponse ScopeResponse)
  unfolding find_scopes made append_rows
  scopes_page realm_id paging = do
    scopes ← find_scopes db (scopes_filter realm_id paging)
    pure (scopes_response scopes)

  -- `FindScopes`
  unfoldable pub find_scopes_endpoint :
      (realm_name : String) → HttpRequest → Go W (FindResponse ScopeResponse)
  unfolding find_realms paging_from_query find_scopes made append_rows
  find_scopes_endpoint realm_name r = do
    realm ← get_request_realm db realm_name
    paging ← lift (paging_from_query r)
    scopes_page realm.id paging

  -- `CreateUser`, over the name and the address of the decoded body
  unfoldable pub create_user_endpoint :
      (realm_name : String) → (decoded : Result (String × Option String)) → Go W ℕ
  unfolding find_realms create_user
  create_user_endpoint realm_name decoded = do
    (username, email) ← lift (unwrap_result decoded)
    realm ← get_request_realm db realm_name
    created ← create_user db (record {
      id = 0;
      realm_id = realm.id;
      username = username;
      email = email;
      email_verified = false;
    })
    lift (unwrap_result created)

  -- `iter.Map` is a library's.
  module _ (iter_map : (A B : Type 0) → (A → B) → List A → List B) where
    abbrev pub users_page : Outcome UserFilter → Go W (FindResponse UserResponse)
    unfolding find_users
    users_page filtered = do
      filter ← lift filtered
      users ← find_users db filter
      pure (record {
        total_count = users.total_count;
        rows = iter_map User UserResponse map_user_response users.values;
      })

    -- `FindUsers`
    unfoldable pub find_users_endpoint :
        (realm_name : String) → HttpRequest → Go W (FindResponse UserResponse)
    unfolding find_realms user_filter find_users
    find_users_endpoint realm_name r = do
      realm ← get_request_realm db realm_name
      users_page (user_filter realm.id r)

    -- `FindRealms`
    unfoldable pub find_realms_endpoint : Go W (FindResponse RealmResponse)
    unfolding find_realms
    find_realms_endpoint = do
      realms ← find_realms db (record { base = no_filter; name = none })
      pure (record {
        total_count = realms.total_count;
        rows = iter_map Realm RealmResponse map_realm_response realms.values;
      })
