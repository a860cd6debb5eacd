-- ===== src/Tests/Api.antt =====
-- Lists of the administration's interface.
use holvit_backend.Prelude.{
  String, str_eq, List, [], ◌∷◌, ◌++◌, map, length, true, false, ◌≡◌, refl, ap, none, if◌then◌else◌,
}
use holvit_backend.Go.{Outcome, done, ok}
use holvit_backend.Filter.{pos, PagedResult}
use holvit_backend.Repos.Database.{Value, int, uuid, text, bool, bytes, answer, Database}
use holvit_backend.Repos.Realms.{find_realms}
use holvit_backend.Repos.Scopes.{Scope, ScopeFilter, find_scopes}
use holvit_backend.Oidc.Endpoints.{HttpRequest}
use holvit_backend.Api.Query.{FindResponse, paging_from_query, atoi}
use holvit_backend.Api.Endpoints.{
  ScopeResponse, blank_scope, map_scope_response, find_scopes_endpoint, find_users_endpoint,
}
use holvit_backend.Api.Lists.{
  SameList, repeat, find_scopes_endpoint-pads, find_users_endpoint-direction,
}
use holvit_backend.Sqlb.Build.{build_select}
use holvit_backend.Sqlb.Writer.{
  build_with, write, build_fragments, build_where, append_param, build_having,
}
use holvit_backend.Tests.Store.{Log, recorder}

abbrev realm_row : List Value
realm_row =
    int (pos 1)
    ∷ uuid 1
    ∷ text "demo"
    ∷ text "Demo"
    ∷ bytes ""
    ∷ bool true
    ∷ bool false
    ∷ bool false
    ∷ bool false
    ∷ bool false
    ∷ int (pos 3)
    ∷ []

-- The first query is for the realm; the others are answered with these rows.
abbrev rows_after : List (List Value) → Log → List (List Value)
rows_after rows [] = realm_row ∷ []
rows_after rows (_ ∷ _) = rows

abbrev then_rows : List (List Value) → Database Log
then_rows rows = record (recorder []) { query = λ q w. (answer (rows_after rows w), w ++ q ∷ []) }

abbrev field : (dir : String) → String → String
field dir name =
    if str_eq name "pageSize"
    then "10"
    else if str_eq name "sort"
    then "email"
    else if str_eq name "dir"
    then dir
    else ""

abbrev asking : (dir : String) → HttpRequest
asking dir = record { parse_form = ok tt; form = field dir; basic_auth = none; url = "/" }

same : SameList (asking "asc") (asking "desc")
same = record {
  parse_form = refl;
  page_size = refl;
  page = refl;
  search = refl;
  sort = refl;
  direction = refl;
  direction' = refl;
}

abbrev map_list : (A B : Type 0) → (A → B) → List A → List B
map_list A B f l = map f l

find_users_endpoint-direction_example :
    find_users_endpoint (then_rows []) map_list "demo" (asking "asc") []
    ≡ find_users_endpoint (then_rows []) map_list "demo" (asking "desc") []
find_users_endpoint-direction_example =
    find_users_endpoint-direction (then_rows []) map_list "demo" (asking "asc") (asking "desc") []
      same

abbrev scope_row : List Value
scope_row = int (pos 1) ∷ uuid 4 ∷ uuid 1 ∷ text "email" ∷ text "Email" ∷ text "" ∷ []

abbrev one_scope : Database Log
one_scope = then_rows (scope_row ∷ [])

abbrev listed : FindResponse ScopeResponse
listed = record {
  total_count = pos 1;
  rows =
      blank_scope
      ∷ record { id = 4; name = "email"; display_name = "Email"; description = "" }
      ∷ [];
}

answered : (find_scopes_endpoint one_scope "demo" (asking "") []).0 ≡ done listed
unfolding find_scopes_endpoint find_realms find_scopes atoi paging_from_query build_select
    build_with write build_fragments build_where append_param build_having
answered = refl

find_scopes_endpoint-pads_example :
    (filter : ScopeFilter) × (v : Log) × (found : PagedResult Scope) × ((find_scopes one_scope
        filter v).0
      ≡ done found)
    × (listed.total_count ≡ found.total_count)
    × (listed.rows
        ≡ repeat (length found.values) blank_scope ++ map map_scope_response found.values)
find_scopes_endpoint-pads_example =
    find_scopes_endpoint-pads one_scope "demo" (asking "") []
      (find_scopes_endpoint one_scope "demo" (asking "") []).1 listed
      (ap
        (λ (o : Outcome (FindResponse ScopeResponse)).
          (o, (find_scopes_endpoint one_scope "demo" (asking "") []).1))
        answered)
