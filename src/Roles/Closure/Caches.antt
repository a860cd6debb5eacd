-- ===== src/Roles/Closure/Caches.antt =====
-- The cache that recalculateCache of services/RoleService.go starts from, and what it ends with.
use holvit_backend.Prelude.{
  ℕ, ◌<◌, List, [], ◌∷◌, ◌++◌, false, some, ◌≡◌, refl, inl, inr, ◌==◌, if◌then◌else◌, Bool-cases,
  ap, sym, ◌∙◌, append_assoc, append-nil,
}
use holvit_backend.Repos.RoleImplications.{RoleImplication}
use mathlib.Core.Path.{subst}
use holvit_backend.Roles.Cache.{
  Cache, empty_cache, set_role, add_roles, add_implications, implies_caches,
}
use holvit_backend.Roles.Closure.{
  direct, AllClosures, IsGood, IsGoodEntry, Descends, same_role, find_all_lem,
}

-- Every entry is one to start from, with the list that `l` gives.
abbrev IsFresh : (ℕ → List ℕ) → Cache → Type 0
IsFresh l c = (r : ℕ) → c r ≡ (false, l r)

add_roles-IsFresh :
    (roles : List ℕ) (c : Cache) → IsFresh (λ r. []) c → IsFresh (λ r. []) (add_roles roles c)
unfolding add_roles
add_roles-IsFresh [] c h = h
add_roles-IsFresh (s ∷ roles) c h = add_roles-IsFresh roles (set_role c s (false, [])) fresh
  where
    fresh : IsFresh (λ r. []) (set_role c s (false, []))
    fresh r = elim (Bool-cases (r == s)) [ inl e ↦ rw e refl | inr e ↦ rw e (h r) ]

add_implications-IsFresh :
    (implications : List RoleImplication) (l : ℕ → List ℕ) (c : Cache)
    → IsFresh l c
    → IsFresh (λ r. l r ++ direct implications r) (add_implications implications c)
unfolding add_implications
add_implications-IsFresh [] l c h r = h r ∙ ap (λ k. (false, k)) (sym (append-nil (l r)))
add_implications-IsFresh (i ∷ implications) l c h r =
    add_implications-IsFresh implications grown
      (set_role c i.role_id (false, (c i.role_id).1 ++ i.implied_role_id ∷ [])) fresh r
    ∙ ap (λ k. (false, k)) (regrouped r)
  where
    grown : ℕ → List ℕ
    grown s = if s == i.role_id then l i.role_id ++ i.implied_role_id ∷ [] else l s

    fresh : IsFresh grown (set_role c i.role_id (false, (c i.role_id).1 ++ i.implied_role_id ∷ []))
    fresh s = elim (Bool-cases (s == i.role_id)) [
      | inl e ↦ rw e (ap (λ k. (false, k.1 ++ i.implied_role_id ∷ [])) (h i.role_id))
      | inr e ↦ rw e (h s)
    ]

    regrouped : (s : ℕ) → grown s ++ direct implications s ≡ l s ++ direct (i ∷ implications) s
    regrouped s = elim (Bool-cases (s == i.role_id)) [
      | inl e ↦
          rw (e, same_role i.role_id s e)
            (append_assoc (l i.role_id) (i.implied_role_id ∷ []) (direct implications i.role_id))
      | inr e ↦ rw e refl
    ]

-- Where each implication goes to a role of a lower rank and the fuel is above every rank, the
-- search ends, and what it stores for each role are the roles that the role implies, in one step
-- or more, and no others.
pub implies_caches-AllClosures :
    (implications : List RoleImplication) (rank : ℕ → ℕ) (fuel : ℕ) (roles : List ℕ)
    → Descends (direct implications) rank
    → ((r : ℕ) → rank r < fuel)
    → (results : List (ℕ × List ℕ)) × ((implies_caches fuel roles implications ≡ some results)
        × AllClosures (direct implications) roles results)
unfolding implies_caches
implies_caches-AllClosures implications rank fuel roles descends enough =
    find_all_lem (direct implications) rank descends fuel roles _ enough good
  where
    good :
        IsGood (direct implications) (add_implications implications (add_roles roles empty_cache))
    good r =
        subst (IsGoodEntry (direct implications) r)
          (sym (
            add_implications-IsFresh implications (λ s. []) (add_roles roles empty_cache)
              (add_roles-IsFresh roles empty_cache (λ s. refl)) r))
          refl
