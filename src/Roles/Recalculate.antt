-- ===== src/Roles/Recalculate.antt =====
-- `recalculateCache` of services/RoleService.go stores the closures.
use holvit_backend.Prelude.{ℕ, List, [], ◌∷◌, Option, none, some, ◌≡◌, refl, ◌<◌, ap, ◌∙◌}
use mathlib.Core.Path.{subst}
use holvit_backend.Go.{done, Go, ◌>>◌, pure, panic, plain_error}
use holvit_backend.Repos.Database.{Database, Value, uuid, uuids, execute, build_of_update}
use holvit_backend.Sqlb.Syntax.{value, raw_query, param, no_params, fragment, no_fragments}
use holvit_backend.Sqlb.Fragment.{make_raw_fragment}
use holvit_backend.Sqlb.Update.{UpdateQuery, add_where, add_set}
use holvit_backend.Repos.Roles.{update_role}
use holvit_backend.Repos.RoleImplications.{RoleImplication}
use holvit_backend.Roles.Cache.{
  Cache, empty_cache, add_roles, add_implications, find_implications, find_all, implies_caches,
}
use holvit_backend.Roles.Service.{cache_update, search_and_store, search_from}
use holvit_backend.Roles.Closure.{direct, AllClosures, Descends}
use holvit_backend.Roles.Closure.Caches.{implies_caches-AllClosures}

-- UPDATE roles SET implies_cache = ? WHERE id = ?
abbrev pub cache_statement : ℕ → List ℕ → UpdateQuery Value
cache_statement r implied = record {
  withs = no_fragments;
  table = "roles";
  cols =
      record {
        col = "implies_cache";
        assigned = raw_query "?" (param (value (uuids implied)) no_params);
      }
      ∷ [];
  conditions = fragment (raw_query "id = ?" (param (value (uuid r)) no_params)) no_fragments;
  from = no_fragments;
  returning = no_fragments;
}

-- The statement with the list of implied roles is executed for each pair.
unfoldable pub store_caches : {W : Type 0} → Database W → List (ℕ × List ℕ) → Go W (Unit {0})
unfolding execute
store_caches db [] = pure tt
store_caches db ((r, implied) ∷ rest) = do
  execute db (build_of_update db (done (cache_statement r implied)))
  store_caches db rest

update_role_lem :
    {W : Type 0} (db : Database W) (r : ℕ) (implied : List ℕ)
    → update_role db r (cache_update implied)
      ≡ execute db (build_of_update db (done (cache_statement r implied)))
unfolding update_role add_where add_set make_raw_fragment
update_role_lem db r implied = refl

module _ {W : Type 0} (db : Database W) (fuel : ℕ) where
  -- Where the search gives results, this computation stores them.
  abbrev Stores : Option (List (ℕ × List ℕ)) → Go W (Unit {0}) → Type 0
  Stores none m = Unit
  Stores (some results) m = m ≡ store_caches db results

  search_and_store-Stores :
      (roles : List ℕ) (c : Cache)
      → Stores (find_all fuel roles c) (search_and_store db fuel roles c)
  unfolding search_and_store find_all store_caches
  search_and_store-Stores [] c = refl
  search_and_store-Stores (r ∷ roles) c =
      first (find_implications fuel r c) (λ c'. search_and_store-Stores roles c')
    where
      rest_lem :
          (implied : List ℕ) (m : Go W (Unit {0})) (o : Option (List (ℕ × List ℕ)))
          → Stores o m
          → Stores
              (elim o [ none ↦ none | some rest ↦ some ((r, implied) ∷ rest) ])
              (do update_role db r (cache_update implied); m)
      rest_lem implied m none h = tt
      rest_lem implied m (some rest) h =
          ap (λ (k : Go W (Unit {0})). (do update_role db r (cache_update implied); k)) h
          ∙ ap (λ (u : Go W (Unit {0})). (do u; store_caches db rest))
              (update_role_lem db r implied)

      first :
          (o : Option (List ℕ × Cache))
          → ((c' : Cache) → Stores (find_all fuel roles c') (search_and_store db fuel roles c'))
          → Stores
              (elim o [
                | none ↦ none
                | some (implied, c') ↦ elim (find_all fuel roles c') [
                  | none ↦ none
                  | some rest ↦ some ((r, implied) ∷ rest)
                ]
              ])
              (elim o [
                | none ↦ panic (plain_error "stack overflow")
                | some (implied, c') ↦ (do
                  update_role db r (cache_update implied)
                  search_and_store db fuel roles c')
              ])
      first none next = tt
      first (some (implied, c')) next = rest_lem implied _ _ (next c')

  -- Where each implication goes to a role of a lower rank and the fuel is above every rank, the
  -- loop of the search does not overflow: it updates the roles of the list one after the other, each by its id and with the
  -- roles that it implies, in one step or more, and with no others.
  pub search_from-closures :
      (implications : List RoleImplication) (rank : ℕ → ℕ) (roles : List ℕ)
      → Descends (direct implications) rank
      → ((r : ℕ) → rank r < fuel)
      → (results : List (ℕ × List ℕ)) × ((search_from db fuel roles implications
            ≡ store_caches db results)
          × AllClosures (direct implications) roles results)
  unfolding implies_caches search_from
  search_from-closures implications rank roles descends enough =
      let (results, (found, closures)) =
        implies_caches-AllClosures implications rank fuel roles descends enough in
      (
        results,
        (
          subst (λ o. Stores o (search_from db fuel roles implications)) found
              (search_and_store-Stores roles
                (add_implications implications (add_roles roles empty_cache))),
          closures,
        ),
      )
