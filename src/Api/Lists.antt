-- ===== src/Api/Lists.antt =====
-- What the lists of the administration's interface hold: handlers/api.
use holvit_backend.Prelude.{
  ℕ, zero, suc, String, str_eq, true, length, Bool-cases, List, [], ◌∷◌, ◌++◌, map, append-nil,
  append_assoc, ◌≡◌, refl, sym, ap, ◌∙◌, Option, inl, inr,
}
use holvit_backend.Go.{
  Result, ok, err, Outcome, done, panicked, Go, continue, ◌>>=◌, bind-done, lift, pure,
}
use holvit_backend.Filter.{PagedResult}
use holvit_backend.Repos.Database.{Database, after}
use holvit_backend.Repos.Scopes.{Scope, ScopeFilter, find_scopes}
use holvit_backend.Oidc.Endpoints.{HttpRequest}
use holvit_backend.Repos.Realms.{Realm}
use holvit_backend.Api.Query.{
  QuerySortOrder, parsed, sort_order, direction_of, is_direction, sort_from_query,
  paging_from_query, get_request_realm, FindResponse,
}
use holvit_backend.Api.Endpoints.{
  ScopeResponse, user_filter, mapped_order, map_scope_response, blank_scope, made, append_rows,
  find_scopes_endpoint, find_users_endpoint, users_page, scopes_page, scopes_filter,
  scopes_response,
}

abbrev pub repeat : ℕ → ScopeResponse → List ScopeResponse
repeat zero x = []
repeat (suc n) x = x ∷ repeat n x

append_rows_lem :
    (rows : List ScopeResponse) (scopes : List Scope)
    → append_rows rows scopes ≡ rows ++ map map_scope_response scopes
unfolding append_rows
append_rows_lem rows [] = sym (append-nil rows)
append_rows_lem rows (s ∷ scopes) =
    append_rows_lem (rows ++ map_scope_response s ∷ []) scopes
    ∙ append_assoc rows (map_scope_response s ∷ []) (map map_scope_response scopes)

made_lem : (scopes : List Scope) → made scopes ≡ repeat (length scopes) blank_scope
unfolding made
made_lem [] = refl
made_lem (s ∷ scopes) = ap (λ l. blank_scope ∷ l) (made_lem scopes)

-- Two requests for the same page of the same search, by the same field, each with a direction that
-- is allowed
pub record SameList (r r' : HttpRequest) : Type 0 where
  pub parse_form : r.parse_form ≡ r'.parse_form
  pub page_size : r.form "pageSize" ≡ r'.form "pageSize"
  pub page : r.form "page" ≡ r'.form "page"
  pub search : r.form "q" ≡ r'.form "q"
  pub sort : r.form "sort" ≡ r'.form "sort"
  pub direction : is_direction (direction_of (r.form "dir")) ≡ true
  pub direction' : is_direction (direction_of (r'.form "dir")) ≡ true

mapped_lem :
    (sort_field d d' : String)
    → mapped_order (sort_order sort_field d) ≡ mapped_order (sort_order sort_field d')
mapped_lem sort_field d d' = elim (Bool-cases (str_eq sort_field "")) [
  | inl h ↦ rw h refl
  | inr h ↦ rw h refl
]

after-parsed :
    (form : Result (Unit {0})) (o o' : Outcome (Option QuerySortOrder))
    → after o mapped_order ≡ after o' mapped_order
    → after (parsed form o) mapped_order ≡ after (parsed form o') mapped_order
after-parsed (ok u) o o' h = h
after-parsed (err e) o o' h = refl

continue-ext :
    {S A B : Type 0} (f g : A → Go S B)
    → ((a : A) (s : S) → f a s ≡ g a s)
    → (o : Outcome A) (s : S) → continue f o s ≡ continue g o s
continue-ext f g h (done a) s = h a s
continue-ext f g h (panicked e) s = refl

module _ (r r' : HttpRequest) (same : SameList r r') where
  sorted_lem : after (sort_from_query r) mapped_order ≡ after (sort_from_query r') mapped_order
  unfolding sort_from_query
  sorted_lem =
      rw (same.parse_form, same.direction, same.direction', same.sort)
        (after-parsed r'.parse_form
          (done (sort_order (r'.form "sort") (direction_of (r.form "dir"))))
          (done (sort_order (r'.form "sort") (direction_of (r'.form "dir"))))
          (mapped_lem (r'.form "sort") (direction_of (r.form "dir"))
            (direction_of (r'.form "dir"))))

  user_filter_lem : (realm_id : ℕ) → user_filter realm_id r ≡ user_filter realm_id r'
  unfolding user_filter paging_from_query
  user_filter_lem realm_id =
      rw (sorted_lem, same.parse_form, same.page_size, same.page, same.search) refl

module _ {W : Type 0} (db : Database W) where
  -- Two requests for users that differ in their directions alone get the same answer, whether they
  -- ask for the ascending order, for the descending one or for none.
  pub find_users_endpoint-direction :
      (iter_map : (A B : Type 0) → (A → B) → List A → List B) (realm_name : String)
      (r r' : HttpRequest) (w : W)
      → SameList r r'
      → find_users_endpoint db iter_map realm_name r w
        ≡ find_users_endpoint db iter_map realm_name r' w
  unfolding find_users_endpoint
  find_users_endpoint-direction iter_map realm_name r r' w same =
      continue-ext (λ (realm : Realm). users_page db iter_map (user_filter realm.id r))
        (λ realm. users_page db iter_map (user_filter realm.id r'))
        (λ realm s. ap (λ o. users_page db iter_map o s) (user_filter_lem r r' same realm.id))
        (get_request_realm db realm_name w).0 (get_request_realm db realm_name w).1

  -- An answered list of scopes has a blank row for each scope that was found, and then the rows of
  -- the scopes.
  pub find_scopes_endpoint-pads :
      (realm_name : String) (r : HttpRequest) (w w' : W) (response : FindResponse ScopeResponse)
      → find_scopes_endpoint db realm_name r w ≡ (done response, w')
      → (filter : ScopeFilter) × (v : W) × (found : PagedResult Scope) × ((find_scopes db filter
            v).0
          ≡ done found)
        × (response.total_count ≡ found.total_count)
        × (response.rows
            ≡ repeat (length found.values) blank_scope ++ map map_scope_response found.values)
  unfolding find_scopes_endpoint
  find_scopes_endpoint-pads realm_name r w w' response h =
      let (realm, (e, h1)) =
        bind-done (get_request_realm db realm_name)
          (λ realm. lift (paging_from_query r) >>= λ paging. scopes_page db realm.id paging) w w'
          response h in
      let (paging, (e1, h2)) =
        bind-done (lift (paging_from_query r)) (λ paging. scopes_page db realm.id paging) _ w'
          response h1 in
      let (found, (e2, h3)) =
        bind-done (find_scopes db (scopes_filter realm.id paging)) (λ s. pure (scopes_response s)) _
          w' response h2 in
      let answered : response ≡ scopes_response found = cc in
      (
        scopes_filter realm.id paging,
        _,
        found,
        ap (λ x. x.0) e2,
        ap (λ x. x.total_count) answered,
        ap (λ x. x.rows) answered
            ∙ append_rows_lem (made found.values) found.values
            ∙ ap (λ l. l ++ map map_scope_response found.values) (made_lem found.values),
      )
