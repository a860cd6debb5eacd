-- ===== src/Sqlb/Numbering.antt =====
-- Every build method numbers its placeholders in the order of its parameters: what that means, and the rules for
-- a sequence of builds.
pub mod Parts
pub mod Scan
pub mod Statements
pub mod Inserts
pub mod Results
pub mod Queries
use native.Mathlib.Numerals.{add-one}
use holvit_backend.Prelude.{
  ℕ, zero, suc, String, List, [], ◌∷◌, ◌++◌, ◌≡◌, refl, Bool, true, false, none, some, length,
  if◌then◌else◌, append-nil, append_assoc, ap, length-append, ◌∙◌, sym,
}
use holvit_backend.Go.{Error, Outcome, done, panicked, Go, ◌>>=◌, ◌>>◌, pure, panic, continue}
use holvit_backend.Sqlb.Syntax.{Any}
use holvit_backend.Sqlb.Writer.{Piece, text, placeholder, Writer, Build, skip, write, append_param}
use holvit_backend.Sqlb.Arguments.{Args, ◌&◌, &-nil, nil-&}

-- The numbers of the placeholders of a text, from left to right.
abbrev pub placeholders : List Piece → List ℕ
placeholders [] = []
placeholders (text t ∷ ps) = placeholders ps
placeholders (placeholder n ∷ ps) = n ∷ placeholders ps

-- 1, 2, …, n
abbrev pub count_up : ℕ → List ℕ
count_up zero = []
count_up (suc n) = count_up n ++ suc n ∷ []

placeholders-append :
    (xs ys : List Piece) → placeholders (xs ++ ys) ≡ placeholders xs ++ placeholders ys
placeholders-append [] ys = refl
placeholders-append (text t ∷ xs) ys = placeholders-append xs ys
placeholders-append (placeholder n ∷ xs) ys = ap (λ l. n ∷ l) (placeholders-append xs ys)

abbrev pub IsPanic : {A : Type 0} → Outcome A → Type 0
IsPanic (done _) = ⊥
IsPanic (panicked _) = Unit

module _ {V : Type 0} where
  -- The i-th placeholder of the text is `$i`, and there is one for each parameter.
  abbrev pub IsNumbered : Writer V → Type 0
  IsNumbered w = placeholders w.sql ≡ count_up (length w.params)

  -- How a build that began at `w` ends, against the arguments that it should bind.
  abbrev pub Ends : {A : Type 0} → A → Args V → Writer V → Outcome A × Writer V → Type 0
  Ends a none w (r, w') = IsPanic r
  Ends a (some args) w (r, w') = (r ≡ done a) × (w'.params ≡ w.params ++ args) × IsNumbered w'

  -- The build binds these arguments wherever it begins, and returns `a`; or it panics.
  pub record Emits {A : Type 0} (m : Go (Writer V) A) (a : A) (o : Args V) : Type 0 where
    pub at : (w : Writer V) → IsNumbered w → Ends a o w (m w)

  pub Emits-pure : {A : Type 0} (a : A) → Emits (pure a) a (some [])
  Emits-pure a = record { at = λ w h. (refl, sym (append-nil w.params), h) }

  pub Emits-panic : {A : Type 0} (e : Error) (a : A) → Emits (panic e) a none
  Emits-panic e a = record { at = λ w h. tt }

  pub Emits-write : (t : String) → Emits (write t) tt (some [])
  unfolding write
  Emits-write t = record {
    at = λ w h. (
      refl,
      sym (append-nil w.params),
      placeholders-append w.sql (text t ∷ []) ∙ append-nil (placeholders w.sql) ∙ h,
    );
  }

  pub Emits-append_param : (a : Any V) → Emits (append_param a) tt (some (a ∷ []))
  unfolding append_param
  Emits-append_param a = record { at = λ w h. (refl, refl, numbered w h) }
    where
      numbered : (w : Writer V) → IsNumbered w → IsNumbered (append_param a w).1
      numbered w h = rw (placeholders-append, length-append, h, add-one)

  Ends-shift :
      {B : Type 0} (b : B) (xs : List (Any V)) (p : Args V) (w w' : Writer V)
      (r : Outcome B × Writer V)
      → w'.params ≡ w.params ++ xs
      → Ends b p w' r
      → Ends b (some xs & p) w r
  Ends-shift b xs none w w' r e h = h
  Ends-shift b xs (some ys) w w' r e (returned, bound, numbered) =
      (returned, bound ∙ ap (λ l. l ++ ys) e ∙ append_assoc w.params xs ys, numbered)

  Ends-continue :
      {A B : Type 0} (k : A → Go (Writer V) B) (a : A) (b : B) (o p : Args V) (w : Writer V)
      (r : Outcome A × Writer V)
      → Ends a o w r
      → Emits (k a) b p
      → Ends b (o & p) w (continue k r.0 r.1)
  Ends-continue k a b none p w (panicked e, w') h hk = tt
  Ends-continue k a b none p w (done x, w') h hk = absurd h
  Ends-continue k a b (some xs) p w (r, w') h hk =
      rw (h.0) (Ends-shift b xs p w w' _ h.1 (hk.at w' h.2))

  pub Emits-bind :
      {A B : Type 0} {a : A} {b : B} {o p : Args V} (m : Go (Writer V) A) (k : A → Go (Writer V) B)
      → Emits m a o
      → Emits (k a) b p
      → Emits (m >>= k) b (o & p)
  Emits-bind {a} {b} {o} {p} m k hm hk = record {
    at = λ w h. Ends-continue k a b o p w (m w) (hm.at w h) hk;
  }

  -- A build that binds nothing, as the writing of a text is.
  abbrev pub Quiet : Build V → Type 0
  Quiet m = Emits m tt (some [])

  pub Emits-then :
      {B : Type 0} {b : B} {o p : Args V} (m : Build V) (k : Go (Writer V) B)
      → Emits m tt o
      → Emits k b p
      → Emits (m >>= λ _. k) b (o & p)
  Emits-then m k hm hk = Emits-bind m (λ _. k) hm hk

  pub Quiet-then :
      {B : Type 0} {b : B} {o : Args V} (m : Build V) (k : Go (Writer V) B)
      → Quiet m
      → Emits k b o
      → Emits (m >>= λ _. k) b o
  Quiet-then {b} {o} m k hm hk = rw (nil-& o) at (Emits-then m k hm hk)

  pub then-Quiet : {o : Args V} (m k : Build V) → Emits m tt o → Quiet k → Emits (m >> k) tt o
  then-Quiet {o} m k hm hk = rw (&-nil o) at (Emits-then m k hm hk)

  pub Quiet-if : (b : Bool) (t : String) → Quiet (if b then write t else skip)
  Quiet-if true t = Emits-write t
  Quiet-if false t = Emits-pure tt

  pub Quiet-either : (b : Bool) (t u : String) → Quiet (if b then write t else write u)
  Quiet-either true t u = Emits-write t
  Quiet-either false t u = Emits-write u
