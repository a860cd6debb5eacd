-- ===== src/Tests/Ioc.antt =====
-- A provider that counts: a scoped type that asks for a singleton.
use holvit_backend.Prelude.{ℕ, suc, ◌+◌, [], ◌∷◌, none, some, ◌≡◌, refl, ◌==◌, if◌then◌else◌}
use holvit_backend.Go.{Outcome, done, panicked, ◌>>=◌, pure}
use holvit_backend.Ioc.{Container, Collection, ProviderFunc, get}
use holvit_backend.Ioc.Builder.{
  new_builder, add_scoped, add_singleton, add_close_handler, make_singletons, build,
}
use holvit_backend.Ioc.Lifetimes.{IsScoped, get_twice}

-- Type 1 is a singleton; type 2 is scoped, and one more than what it gets for type 1.
abbrev shared : ProviderFunc ℕ
shared get scope = pure 40

abbrev one_more : ProviderFunc ℕ
one_more get scope = do n ← get scope 1; pure (n + 1)

abbrev dependencies : Collection ℕ
dependencies = record {
  singleton_providers = λ k. if k == 1 then some shared else none;
  scoped_providers = λ k. if k == 2 then some one_more else none;
  instance_providers = λ k. none;
  close_handlers = [];
}

abbrev empty : Container ℕ
empty = record { singleton_instances = λ k. none; scoped_instances = λ s k. none; created = 2 }

two-IsScoped : IsScoped dependencies 2
two-IsScoped = record { not_instance = refl; provider = one_more; scoped = refl }

got : (get dependencies 2 1 2 empty).0 ≡ done 41
unfolding get
got = refl

got_all : get dependencies 2 1 2 empty ≡ (done 41, (get dependencies 2 1 2 empty).1)
unfolding get
got_all = refl

get_twice_example :
    get dependencies (suc 4) 1 2 (get dependencies 2 1 2 empty).1
    ≡ (done 41, (get dependencies 2 1 2 empty).1)
get_twice_example =
    get_twice dependencies 1 2 two-IsScoped 2 4 empty (get dependencies 2 1 2 empty).1 41 got_all

-- The singleton is made when the provider is built, and a later provider of type 2 counts.
abbrev builder : Collection ℕ
builder =
    add_scoped 2 one_more
      (add_scoped 2 shared (add_close_handler 2 (λ i. none) (add_singleton 1 shared new_builder)))

abbrev two_of : Outcome (Container ℕ) → Outcome ℕ
unfolding get
two_of (panicked e) = panicked e
two_of (done c) = (get builder 2 0 2 c).0

built : two_of (build builder (1 ∷ [])) ≡ done 41
unfolding build make_singletons get
built = refl
