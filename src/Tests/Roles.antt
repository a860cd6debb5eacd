-- ===== src/Tests/Roles.antt =====
-- Three roles: the first implies the second, which implies the third.
use holvit_backend.Prelude.{ℕ, ◌-◌, List, [], ◌∷◌, ◌≡◌, refl, some, arith}
use holvit_backend.Repos.RoleImplications.{RoleImplication}
use holvit_backend.Roles.Cache.{
  add_roles, add_implications, search_edges, find_implications, find_all, implies_caches,
}
use holvit_backend.Roles.Service.{search_from}
use holvit_backend.Roles.Closure.{direct, Descends, AllClosures}
use holvit_backend.Roles.Recalculate.{store_caches, search_from-closures}
use holvit_backend.Repos.Database.{uuid}
use holvit_backend.Repos.RoleImplications.{find_role_implications}
use holvit_backend.Repos.RoleImplications.Scan.{NoneOrPanic, find_role_implications-empty}
use holvit_backend.Tests.Store.{recorder}

abbrev chain : List RoleImplication
chain =
    record { id = 0; role_id = 1; implied_role_id = 2 }
    ∷ record { id = 1; role_id = 2; implied_role_id = 3 }
    ∷ []

chain_caches :
    implies_caches 4 (1 ∷ 2 ∷ 3 ∷ []) chain ≡ some ((1, 2 ∷ 3 ∷ []) ∷ (2, 3 ∷ []) ∷ (3, []) ∷ [])
unfolding implies_caches find_all find_implications search_edges add_implications add_roles
chain_caches = refl

chain-Descends : Descends (direct chain) (λ r. 3 - r)
chain-Descends a b m = ground arith

search_from-closures_example :
    (results : List (ℕ × List ℕ)) × ((search_from (recorder []) 4 (1 ∷ 2 ∷ 3 ∷ []) chain
        ≡ store_caches (recorder []) results)
      × AllClosures (direct chain) (1 ∷ 2 ∷ 3 ∷ []) results)
search_from-closures_example =
    search_from-closures (recorder []) 4 chain (λ r. 3 - r) (1 ∷ 2 ∷ 3 ∷ []) chain-Descends
      (λ r. omega arith)

-- The database answers with an implication.
find_role_implications-empty_example :
    NoneOrPanic (find_role_implications (recorder ((uuid 4 ∷ uuid 1 ∷ uuid 2 ∷ []) ∷ [])) 1 []).0
find_role_implications-empty_example =
    find_role_implications-empty (recorder ((uuid 4 ∷ uuid 1 ∷ uuid 2 ∷ []) ∷ [])) 1 []
