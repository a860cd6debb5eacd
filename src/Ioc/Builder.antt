-- ===== src/Ioc/Builder.antt =====
-- The builder of a dependency provider: ioc/ioc.go. A map is a function here, and the order in which
-- Go goes through the keys of one is a parameter.
use holvit_backend.Prelude.{ℕ, List, [], ◌∷◌, Option, none, some, if◌then◌else◌, ◌==◌}
use holvit_backend.Go.{Error, plain_error, Outcome, done, panicked, Go, ◌>>=◌, ◌>>◌, pure, panic}
use holvit_backend.Ioc.{Container, Getter, ProviderFunc, Collection, put, store_singleton}

module _ {I : Type 0} where
  -- `NewDependencyProviderBuilder`
  abbrev pub new_builder : Collection I
  new_builder = record {
    singleton_providers = λ k. none;
    scoped_providers = λ k. none;
    instance_providers = λ k. none;
    close_handlers = [];
  }

  -- `Add`, `AddScoped` and `AddSingleton`, where a later provider takes the place of an earlier one
  abbrev pub add : ℕ → ProviderFunc I → Collection I → Collection I
  add k provider b = record b { instance_providers = put k provider b.instance_providers }

  abbrev pub add_scoped : ℕ → ProviderFunc I → Collection I → Collection I
  add_scoped k provider b = record b { scoped_providers = put k provider b.scoped_providers }

  abbrev pub add_singleton : ℕ → ProviderFunc I → Collection I → Collection I
  add_singleton k provider b = record b {
    singleton_providers = put k provider b.singleton_providers;
  }

  abbrev without : ℕ → List (ℕ × (I → Option Error)) → List (ℕ × (I → Option Error))
  without k [] = []
  without k ((j, handler) ∷ handlers) =
      let rest = without k handlers in if j == k then rest else (j, handler) ∷ rest

  -- `AddCloseHandler`
  abbrev pub add_close_handler : ℕ → (I → Option Error) → Collection I → Collection I
  add_close_handler k handler b = record b {
    close_handlers = (k, handler) ∷ without k b.close_handlers;
  }

  -- what a provider that is called with nil gets when it asks for a dependency
  abbrev nil_getter : Getter I
  nil_getter scope k = panic (plain_error "invalid memory address or nil pointer dereference")

  abbrev make_singleton : ℕ → Option (ProviderFunc I) → Go (Container I) (Unit {0})
  make_singleton k none = pure tt
  make_singleton k (some provider) = do
    i ← provider nil_getter 0
    stored ← store_singleton k i
    pure tt

  -- the loop over the providers of singletons, each called with nil
  unfoldable pub make_singletons : Collection I → List ℕ → Go (Container I) (Unit {0})
  make_singletons b [] = pure tt
  make_singletons b (k ∷ keys) = do
    make_singleton k (b.singleton_providers k)
    make_singletons b keys

  abbrev empty_container : Container I
  empty_container = record {
    singleton_instances = λ k. none;
    scoped_instances = λ s k. none;
    created = 1;
  }

  -- `Build`, which gives the root scope
  unfoldable pub build : Collection I → (keys : List ℕ) → Outcome (Container I)
  unfolding make_singletons
  build b keys =
      let (r, c) = make_singletons b keys empty_container in
      elim r [ done u ↦ done c | panicked e ↦ panicked e ]
