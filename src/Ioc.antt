-- ===== src/Ioc.antt =====
-- The dependency provider: ioc/ioc.go.
pub mod Lifetimes
pub mod Builder
use holvit_backend.Prelude.{
  ℕ, zero, suc, ◌+◌, List, [], ◌∷◌, Bool, true, false, ◌&&◌, Option, none, some, if◌then◌else◌,
  ◌==◌,
}
use holvit_backend.Go.{Error, plain_error, Outcome, done, panicked, Go, ◌>>=◌, ◌>>◌, pure, panic}

-- The instances of the scopes, over a type `I` of values. A type that is asked for is a number, and
-- so is a scope; the root scope is 0, which alone holds singletons, and `created` is the number of
-- the scopes.
pub record Container (I : Type 0) : Type 0 where
  pub singleton_instances : ℕ → Option I
  pub scoped_instances : (scope : ℕ) → ℕ → Option I
  pub created : ℕ

-- `DependencyProvider.Get` of a scope, as a provider may call it
abbrev pub Getter : Type 0 → Type 0
Getter I = (scope dependency_type : ℕ) → Go (Container I) I

-- `ProviderFunc`: what makes an instance for a scope, and may ask for others.
abbrev pub ProviderFunc : Type 0 → Type 0
ProviderFunc I = Getter I → (scope : ℕ) → Go (Container I) I

-- `dependencyCollection` and the close handlers, which answer with an error or without
pub record Collection (I : Type 0) : Type 0 where
  pub singleton_providers : ℕ → Option (ProviderFunc I)
  pub scoped_providers : ℕ → Option (ProviderFunc I)
  pub instance_providers : ℕ → Option (ProviderFunc I)
  pub close_handlers : List (ℕ × (I → Option Error))

abbrev pub put : {A : Type 0} → ℕ → A → (ℕ → Option A) → ℕ → Option A
put k a f j = if j == k then some a else f j

abbrev first_error : List Error → Option Error
first_error [] = none
first_error (e ∷ errors) = some e

module _ {I : Type 0} where
  -- a write to the map of a scope, and to that of the root
  abbrev pub store_scoped : ℕ → ℕ → I → Go (Container I) I
  store_scoped scope k i c = (
    done i,
    record c {
      scoped_instances =
          λ s. if s == scope then put k i (c.scoped_instances s) else c.scoped_instances s;
    },
  )

  abbrev pub store_singleton : ℕ → I → Go (Container I) I
  store_singleton k i c = (done i, record c { singleton_instances = put k i c.singleton_instances })

  -- `NewScope`, by its number
  unfoldable pub new_scope : Go (Container I) ℕ
  new_scope c = (
    done c.created,
    record c {
      created = c.created + 1;
      scoped_instances = λ s. if s == c.created then (λ k. none) else c.scoped_instances s;
    },
  )

  -- `Close` of a scope; the root has singletons to close too. The first error is returned.
  abbrev close_instance : Option I → (I → Option Error) → List Error → List Error
  close_instance none handler errors = errors
  close_instance (some i) handler errors = elim (handler i) [ none ↦ errors | some e ↦ e ∷ errors ]

  unfoldable pub close_all : (scope : ℕ) → Container I → List (ℕ × (I → Option Error)) → List Error
  close_all scope c [] = []
  close_all scope c ((k, handler) ∷ handlers) =
      close_instance (c.scoped_instances scope k) handler (
        close_instance (if scope == 0 then c.singleton_instances k else none) handler
          (close_all scope c handlers))

  unfoldable pub close : Collection I → (scope : ℕ) → Container I → Option Error
  unfolding close_all
  close dependencies scope c = first_error (close_all scope c dependencies.close_handlers)

  module _ (dependencies : Collection I) where
    -- `getSingletonDependency`, the last of the three that `Get` tries
    abbrev pub get_singleton : Getter I → ℕ → Option I → Go (Container I) I
    get_singleton get k (some i) = pure i
    get_singleton get k none = elim (dependencies.singleton_providers k) [
      | none ↦ panic (plain_error "Could not resolve dependency")
      | some provider ↦ provider get 0 >>= store_singleton k
    ]

    -- `getScopedDependency`, and then the singletons
    abbrev pub get_scoped : Getter I → (scope k : ℕ) → Option I → Go (Container I) I
    get_scoped get scope k (some i) = pure i
    get_scoped get scope k none = elim (dependencies.scoped_providers k) [
      | none ↦ λ c. get_singleton get k (c.singleton_instances k) c
      | some provider ↦ provider get scope >>= store_scoped scope k
    ]

    -- `Get`, where the fuel bounds how deep providers ask for others
    unfoldable pub get : (fuel : ℕ) → Getter I
    get zero scope k = panic (plain_error "stack overflow")
    get (suc fuel) scope k = elim (dependencies.instance_providers k) [
      | some provider ↦ provider (get fuel) scope
      | none ↦ λ c. get_scoped (get fuel) scope k (c.scoped_instances scope k) c
    ]
