-- ===== src/Ioc/Lifetimes.antt =====
-- How long the instances of ioc/ioc.go live.
use holvit_backend.Prelude.{
  ℕ, zero, suc, Option, none, some, ◌≡◌, refl, arith, ◌==◌, ap, ◌∙◌, sym, true,
}
use holvit_backend.Go.{Outcome, done, bind-done}
use holvit_backend.Ioc.{
  Container, Collection, Getter, ProviderFunc, get, get_scoped, get_singleton, store_scoped,
  store_singleton,
}

==-self : (n : ℕ) → (n == n) ≡ true
==-self n = ground arith

module _ {I : Type 0} (dependencies : Collection I) where
  -- A type that is scoped, and not given anew at each call.
  pub record IsScoped (k : ℕ) : Type 0 where
    pub not_instance : dependencies.instance_providers k ≡ none
    pub provider : ProviderFunc I
    pub scoped : dependencies.scoped_providers k ≡ some provider

  stored_scoped :
      (scope k : ℕ) (a : I) (c : Container I)
      → (store_scoped scope k a c).1.scoped_instances scope k ≡ some a
  stored_scoped scope k a c = rw (==-self scope, ==-self k) refl

  same_instance :
      (scope k : ℕ) (a i : I) (c c' : Container I)
      → store_scoped scope k a c ≡ (done i, c')
      → c'.scoped_instances scope k ≡ some i
  same_instance scope k a i c c' e =
      sym (ap (λ (p : Outcome I × Container I). p.1.scoped_instances scope k) e)
      ∙ stored_scoped scope k a c
      ∙ done_some a i (ap (λ (p : Outcome I × Container I). p.0) e)
    where
      done_some : (a i : I) → done a ≡ done i → some a ≡ some i
      done_some a i h = cc

  module _ (scope k : ℕ) (scoped : IsScoped k) where
    after_lookup :
        (inner : Getter I) (o : Option I) (c c' : Container I) (i : I)
        → c.scoped_instances scope k ≡ o
        → get_scoped dependencies inner scope k o c ≡ (done i, c')
        → c'.scoped_instances scope k ≡ some i
    after_lookup inner (some j) c c' i known e = cc
    after_lookup inner none c c' i new e =
        let (a, (e', k')) =
          bind-done (scoped.provider inner scope) (store_scoped scope k) c c' i
            (rw (get_scoped, scoped.scoped) at e) in
        same_instance scope k a i _ c' k'

    -- After a scoped dependency has been got in a scope, the scope holds it.
    pub get-stores :
        (fuel : ℕ) (c c' : Container I) (i : I)
        → get dependencies fuel scope k c ≡ (done i, c')
        → c'.scoped_instances scope k ≡ some i
    unfolding get
    get-stores zero c c' i e = cc
    get-stores (suc fuel) c c' i e =
        after_lookup (get dependencies fuel) (c.scoped_instances scope k) c c' i refl
          (rw (get, scoped.not_instance) at e)

    -- Where a scope got an instance of a type that is scoped, it gets the same instance from then
    -- on, and nothing is made anew.
    pub get_twice :
        (fuel fuel' : ℕ) (c c' : Container I) (i : I)
        → get dependencies fuel scope k c ≡ (done i, c')
        → get dependencies (suc fuel') scope k c' ≡ (done i, c')
    unfolding get
    get_twice fuel fuel' c c' i e = rw (get, scoped.not_instance, get-stores fuel c c' i e) refl

  -- A type that is a singleton, and neither scoped nor given anew at each call.
  pub record IsSingleton (k : ℕ) : Type 0 where
    pub no_instance : dependencies.instance_providers k ≡ none
    pub no_scoped : dependencies.scoped_providers k ≡ none
    pub provider : ProviderFunc I
    pub singleton : dependencies.singleton_providers k ≡ some provider

  stored_singleton :
      (k : ℕ) (a i : I) (c c' : Container I)
      → store_singleton k a c ≡ (done i, c')
      → c'.singleton_instances k ≡ some i
  stored_singleton k a i c c' e =
      sym (ap (λ (p : Outcome I × Container I). p.1.singleton_instances k) e)
      ∙ rw (==-self k) (done_some a i (ap (λ (p : Outcome I × Container I). p.0) e))
    where
      done_some : (a i : I) → done a ≡ done i → some a ≡ some i
      done_some a i h = cc

  module _ (k : ℕ) (single : IsSingleton k) where
    after_singleton :
        (inner : Getter I) (o : Option I) (c c' : Container I) (i : I)
        → c.singleton_instances k ≡ o
        → get_singleton dependencies inner k o c ≡ (done i, c')
        → c'.singleton_instances k ≡ some i
    after_singleton inner (some j) c c' i known e = cc
    after_singleton inner none c c' i new e =
        let (a, (e', k')) =
          bind-done (single.provider inner 0) (store_singleton k) c c' i
            (rw (get_singleton, single.singleton) at e) in
        stored_singleton k a i _ c' k'

    -- A singleton that one scope got is what every scope gets from then on, and nothing is made
    -- anew.
    pub get_shared :
        (fuel fuel' scope other : ℕ) (c c' : Container I) (i : I)
        → c.scoped_instances scope k ≡ none
        → c'.scoped_instances other k ≡ none
        → get dependencies fuel scope k c ≡ (done i, c')
        → get dependencies (suc fuel') other k c' ≡ (done i, c')
    unfolding get
    get_shared zero fuel' scope other c c' i h h' e = cc
    get_shared (suc fuel) fuel' scope other c c' i h h' e =
        let stored : c'.singleton_instances k ≡ some i =
          after_singleton (get dependencies fuel) (c.singleton_instances k) c c' i refl
            (rw (get, single.no_instance, h, get_scoped, single.no_scoped) at e) in
        rw (get, single.no_instance, h', get_scoped, single.no_scoped, stored) refl
