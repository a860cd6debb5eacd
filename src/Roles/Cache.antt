-- ===== src/Roles/Cache.antt =====
-- The search of `recalculateCache`, services/RoleService.go, over the implications of a realm.
use holvit_backend.Prelude.{
  ℕ, zero, suc, List, [], ◌∷◌, ◌++◌, Bool, true, false, Option, none, some, if◌then◌else◌, ◌==◌,
}
use holvit_backend.Repos.RoleImplications.{RoleImplication}

-- `implicationCache`: whether the list of a role is its result, and the list. A missing role has
-- the zero value.
abbrev pub Cache : Type 0
Cache = ℕ → Bool × List ℕ

abbrev pub empty_cache : Cache
empty_cache r = (false, [])

abbrev pub set_role : Cache → ℕ → Bool × List ℕ → Cache
set_role c r entry s = if s == r then entry else c s

-- the loop over the roles
unfoldable pub add_roles : List ℕ → Cache → Cache
add_roles [] c = c
add_roles (r ∷ roles) c = add_roles roles (set_role c r (false, []))

-- the loop over the implications
unfoldable pub add_implications : List RoleImplication → Cache → Cache
add_implications [] c = c
add_implications (i ∷ implications) c =
    add_implications implications
      (set_role c i.role_id (false, (c i.role_id).1 ++ i.implied_role_id ∷ []))

-- the loop over the edges of a role, where `find` is the recursive call
unfoldable pub search_edges :
    (find : ℕ → Cache → Option (List ℕ × Cache)) → List ℕ → List ℕ → Cache → Option (List ℕ × Cache)
search_edges find [] res c = some (res, c)
search_edges find (edge ∷ edges) res c = elim (find edge c) [
  | none ↦ none
  | some (implied, c') ↦ search_edges find edges ((res ++ edge ∷ []) ++ implied) c'
]

abbrev pub store_result : ℕ → Option (List ℕ × Cache) → Option (List ℕ × Cache)
store_result r none = none
store_result r (some (res, c)) = some (res, set_role c r (true, res))

-- `findImplications`; `none` means that the recursion is deeper than the fuel.
unfoldable pub find_implications : (fuel : ℕ) → ℕ → Cache → Option (List ℕ × Cache)
unfolding search_edges
find_implications zero r c = none
find_implications (suc fuel) r c =
    let searched = store_result r (search_edges (find_implications fuel) (c r).1 [] c) in
    if (c r).0 then some ((c r).1, c) else searched

-- the loop over the roles that takes their results
unfoldable pub find_all : (fuel : ℕ) → List ℕ → Cache → Option (List (ℕ × List ℕ))
unfolding find_implications
find_all fuel [] c = some []
find_all fuel (r ∷ roles) c = elim (find_implications fuel r c) [
  | none ↦ none
  | some (implied, c') ↦ elim (find_all fuel roles c') [
    | none ↦ none
    | some rest ↦ some ((r, implied) ∷ rest)
  ]
]

-- What `recalculateCache` stores for each role.
unfoldable pub implies_caches :
    (fuel : ℕ) → List ℕ → List RoleImplication → Option (List (ℕ × List ℕ))
unfolding find_all add_roles add_implications
implies_caches fuel roles implications =
    find_all fuel roles (add_implications implications (add_roles roles empty_cache))
