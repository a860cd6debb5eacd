-- ===== src/Roles/Closure.antt =====
-- The search of services/RoleService.go against the transitive closure of the implications.
pub mod Caches
use holvit_backend.Prelude.{
  ℕ, zero, suc, ◌<◌, List, [], ◌∷◌, ◌++◌, Bool, true, false, Option, none, some, ◌≡◌, refl, ◌⊎◌,
  inl, inr, ◌==◌, if◌then◌else◌, Bool-cases, arith, ap, sym, ◌∙◌, append_assoc, append-nil,
}
use holvit_backend.Repos.RoleImplications.{RoleImplication}
use mathlib.Core.Path.{subst}
use holvit_backend.Roles.Cache.{
  store_result, Cache, empty_cache, set_role, add_roles, add_implications, search_edges,
  find_implications, find_all, implies_caches,
}

-- The roles that a role implies directly, in the order of the implications.
abbrev pub direct : List RoleImplication → ℕ → List ℕ
direct [] r = []
direct (i ∷ implications) r =
    let rest = direct implications r in if r == i.role_id then i.implied_role_id ∷ rest else rest

abbrev pub In : ℕ → List ℕ → Type 0
In x [] = ⊥
In x (y ∷ ys) = (x ≡ y) ⊎ In x ys

-- A role implies another, in one step or more.
pub data Implies (edges : ℕ → List ℕ) : ℕ → ℕ → Type 0 where
  directly : {a b : ℕ} → In b (edges a) → Implies edges a b
  through : {a b c : ℕ} → In b (edges a) → Implies edges b c → Implies edges a c

-- The list holds the roles that `r` implies, and no others.
pub record IsClosure (edges : ℕ → List ℕ) (r : ℕ) (l : List ℕ) : Type 0 where
  pub sound : (x : ℕ) → In x l → Implies edges r x
  pub complete : (x : ℕ) → Implies edges r x → In x l

-- The results of the roles, in their order, are the closures.
abbrev pub AllClosures : (ℕ → List ℕ) → List ℕ → List (ℕ × List ℕ) → Type 0
AllClosures edges [] [] = Unit
AllClosures edges (r ∷ roles) ((s, l) ∷ rest) =
    (s ≡ r) × IsClosure edges r l × AllClosures edges roles rest
AllClosures edges _ _ = ⊥

In-left : (x : ℕ) (xs ys : List ℕ) → In x xs → In x (xs ++ ys)
In-left x (y ∷ xs) ys (inl e) = inl e
In-left x (y ∷ xs) ys (inr m) = inr (In-left x xs ys m)
In-left x [] ys m = absurd m

In-right : (x : ℕ) (xs ys : List ℕ) → In x ys → In x (xs ++ ys)
In-right x [] ys m = m
In-right x (y ∷ xs) ys m = inr (In-right x xs ys m)

In-append : (x : ℕ) (xs ys : List ℕ) → In x (xs ++ ys) → In x xs ⊎ In x ys
In-append x [] ys m = inr m
In-append x (y ∷ xs) ys (inl e) = inl (inl e)
In-append x (y ∷ xs) ys (inr m) = elim (In-append x xs ys m) [ inl a ↦ inl (inr a) | inr b ↦ inr b ]

pub same_role : (r s : ℕ) → (s == r) ≡ true → s ≡ r
same_role r s h = ground arith

module _ (edges : ℕ → List ℕ) where
  -- An entry is the direct implications that the search starts from, or the result.
  abbrev pub IsGoodEntry : ℕ → Bool × List ℕ → Type 0
  IsGoodEntry r (false, l) = l ≡ edges r
  IsGoodEntry r (true, l) = IsClosure edges r l

  abbrev pub IsGood : Cache → Type 0
  IsGood c = (r : ℕ) → IsGoodEntry r (c r)

  -- The search of `r` returns its closure and leaves the cache good.
  abbrev pub Returns : ℕ → Option (List ℕ × Cache) → Type 0
  Returns r none = ⊥
  Returns r (some (l, c)) = IsClosure edges r l × IsGood c

  -- What the loop over the edges collects.
  abbrev Collected : ℕ → List ℕ → Type 0
  Collected x [] = ⊥
  Collected x (e ∷ es) = ((x ≡ e) ⊎ Implies edges e x) ⊎ Collected x es

  abbrev Collects : List ℕ → List ℕ → Option (List ℕ × Cache) → Type 0
  Collects es acc none = ⊥
  Collects es acc (some (l, c)) =
      ((x : ℕ) → In x l → In x acc ⊎ Collected x es)
      × ((x : ℕ) → In x acc ⊎ Collected x es → In x l)
      × IsGood c

  -- One edge and its closure, behind the results so far.
  step_sound :
      (x e : ℕ) (acc l : List ℕ) (es : List ℕ)
      → IsClosure edges e l
      → In x ((acc ++ e ∷ []) ++ l) ⊎ Collected x es
      → In x acc ⊎ Collected x (e ∷ es)
  step_sound x e acc l es h (inr m) = inr (inr m)
  step_sound x e acc l es h (inl m) = elim (In-append x (acc ++ e ∷ []) l m) [
    | inr b ↦ inr (inl (inr (h.sound x b)))
    | inl a ↦ elim (In-append x acc (e ∷ []) a) [
      | inl b ↦ inl b
      | inr b ↦ elim b [ inl q ↦ inr (inl (inl q)) | inr n ↦ absurd n ]
    ]
  ]

  step_complete :
      (x e : ℕ) (acc l : List ℕ) (es : List ℕ)
      → IsClosure edges e l
      → In x acc ⊎ Collected x (e ∷ es)
      → In x ((acc ++ e ∷ []) ++ l) ⊎ Collected x es
  step_complete x e acc l es h (inl m) =
      inl (In-left x (acc ++ e ∷ []) l (In-left x acc (e ∷ []) m))
  step_complete x e acc l es h (inr (inl (inl q))) =
      inl (In-left x (acc ++ e ∷ []) l (In-right x acc (e ∷ []) (inl q)))
  step_complete x e acc l es h (inr (inl (inr p))) =
      inl (In-right x (acc ++ e ∷ []) l (h.complete x p))
  step_complete x e acc l es h (inr (inr m)) = inr m

  Collects-step :
      (e : ℕ) (es acc l : List ℕ) (o : Option (List ℕ × Cache))
      → IsClosure edges e l
      → Collects es ((acc ++ e ∷ []) ++ l) o
      → Collects (e ∷ es) acc o
  Collects-step e es acc l none h k = k
  Collects-step e es acc l (some (res, c)) h (sound, complete, good) = (
    λ x m. step_sound x e acc l es h (sound x m),
    λ x m. complete x (step_complete x e acc l es h m),
    good,
  )

  search_edges_lem :
      (find : ℕ → Cache → Option (List ℕ × Cache)) (es acc : List ℕ) (c : Cache)
      → ((e : ℕ) → In e es → (c : Cache) → IsGood c → Returns e (find e c))
      → IsGood c
      → Collects es acc (search_edges find es acc c)
  unfolding search_edges
  search_edges_lem find [] acc c ok g =
      (λ x m. inl m, λ x m. elim m [ inl a ↦ a | inr n ↦ absurd n ], g)
  search_edges_lem find (e ∷ es) acc c ok g =
      continue_lem (find e c) (ok e (inl refl) c g)
        (λ l c' g'. search_edges_lem find es ((acc ++ e ∷ []) ++ l) c' (λ d m. ok d (inr m)) g')
    where
      continue_lem :
          (o : Option (List ℕ × Cache))
          → Returns e o
          → ((l : List ℕ) (c' : Cache)
              → IsGood c'
              → Collects es ((acc ++ e ∷ []) ++ l) (search_edges find es ((acc ++ e ∷ []) ++ l) c'))
          → Collects (e ∷ es) acc (elim o [
            | none ↦ none
            | some (implied, c') ↦ search_edges find es ((acc ++ e ∷ []) ++ implied) c'
          ])
      continue_lem none r next = absurd r
      continue_lem (some (l, c')) (h, g') next = Collects-step e es acc l _ h (next l c' g')

  Collected-Implies :
      (r x : ℕ) (es : List ℕ)
      → ((e : ℕ) → In e es → In e (edges r))
      → Collected x es
      → Implies edges r x
  Collected-Implies r x (e ∷ es) h (inl (inl q)) = directly (rw q (h e (inl refl)))
  Collected-Implies r x (e ∷ es) h (inl (inr p)) = through (h e (inl refl)) p
  Collected-Implies r x (e ∷ es) h (inr m) = Collected-Implies r x es (λ d n. h d (inr n)) m
  Collected-Implies r x [] h m = absurd m

  Collected-direct : (x : ℕ) (es : List ℕ) → In x es → Collected x es
  Collected-direct x (e ∷ es) (inl q) = inl (inl q)
  Collected-direct x (e ∷ es) (inr m) = inr (Collected-direct x es m)
  Collected-direct x [] m = absurd m

  Collected-through : (x b : ℕ) (es : List ℕ) → In b es → Implies edges b x → Collected x es
  Collected-through x b (e ∷ es) (inl q) p = inl (inr (subst (λ k. Implies edges k x) q p))
  Collected-through x b (e ∷ es) (inr m) p = inr (Collected-through x b es m p)
  Collected-through x b [] m p = absurd m

  Implies-Collected : (r x : ℕ) → Implies edges r x → Collected x (edges r)
  Implies-Collected r x (directly m) = Collected-direct x (edges r) m
  Implies-Collected r x (through {b = b} m p) = Collected-through x b (edges r) m p

  set_role-IsGood :
      (r : ℕ) (l : List ℕ) (c : Cache)
      → IsClosure edges r l
      → IsGood c
      → IsGood (set_role c r (true, l))
  set_role-IsGood r l c h g s = elim (Bool-cases (s == r)) [
    | inl e ↦ rw e (subst (λ k. IsClosure edges k l) (sym (same_role r s e)) h)
    | inr e ↦ rw e (g s)
  ]

  store_result_lem :
      (r : ℕ) (o : Option (List ℕ × Cache)) → Collects (edges r) [] o → Returns r (store_result r o)
  store_result_lem r none h = h
  store_result_lem r (some (l, c)) (sound, complete, g) = (closure, set_role-IsGood r l c closure g)
    where
      closure : IsClosure edges r l
      closure = record {
        sound = λ x m. elim (sound x m) [
          | inl n ↦ absurd n
          | inr d ↦ Collected-Implies r x (edges r) (λ e n. n) d
        ];
        complete = λ x p. complete x (inr (Implies-Collected r x p));
      }

  -- The implications have no cycle: each goes to a role of a lower rank.
  abbrev pub Descends : (ℕ → ℕ) → Type 0
  Descends rank = (a b : ℕ) → In b (edges a) → rank b < rank a

  module _ (rank : ℕ → ℕ) (descends : Descends rank) where
    pub find_implications_lem :
        (fuel r : ℕ) (c : Cache) → rank r < fuel → IsGood c → Returns r (find_implications fuel r c)
    unfolding find_implications
    find_implications_lem zero r c enough g = elim enough [ ]
    find_implications_lem (suc fuel) r c enough g = by_entry (c r) refl (g r) (
        search_edges_lem (find_implications fuel) (edges r) [] c
          (λ e m c' g'. find_implications_lem fuel e c' (lower e m) g') g)
      where
        lower : (e : ℕ) → In e (edges r) → rank e < fuel
        lower e m = omega (arith, descends r e m)

        by_entry :
            (entry : Bool × List ℕ)
            → c r ≡ entry
            → IsGoodEntry r entry
            → Collects (edges r) [] (search_edges (find_implications fuel) (edges r) [] c)
            → Returns r (find_implications (suc fuel) r c)
        by_entry (true, l) e good next = rw e (good, g)
        by_entry (false, l) e good next = rw (e, good) (store_result_lem r _ next)

    pub find_all_lem :
        (fuel : ℕ) (roles : List ℕ) (c : Cache)
        → ((r : ℕ) → rank r < fuel)
        → IsGood c
        → (results : List (ℕ × List ℕ)) × ((find_all fuel roles c ≡ some results)
            × AllClosures edges roles results)
    unfolding find_all
    find_all_lem fuel [] c enough g = ([], (refl, tt))
    find_all_lem fuel (r ∷ roles) c enough g =
        first (find_implications fuel r c) (find_implications_lem fuel r c (enough r) g)
          (λ c' g'. find_all_lem fuel roles c' enough g')
      where
        first :
            (o : Option (List ℕ × Cache))
            → Returns r o
            → ((c' : Cache)
                → IsGood c'
                → (results : List (ℕ × List ℕ)) × ((find_all fuel roles c' ≡ some results)
                    × AllClosures edges roles results))
            → (results : List (ℕ × List ℕ)) × ((elim o [
              | none ↦ none
              | some (implied, c') ↦ elim (find_all fuel roles c') [
                | none ↦ none
                | some rest ↦ some ((r, implied) ∷ rest)
              ]
            ]
                  ≡ some results)
                × AllClosures edges (r ∷ roles) results)
        first none h next = absurd h
        first (some (l, c')) (h, g') next =
            let (rest, (e, k)) = next c' g' in ((r, l) ∷ rest, (rw e, (refl, h, k)))
