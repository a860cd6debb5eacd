-- ===== src/Sqlb/Text.antt =====
-- The text of a query does not depend on the values that it binds: a build and the build of the
-- same query with its values erased write the same, of sqlb/*.go.
pub mod Parts
pub mod Queries
pub mod Methods
use holvit_backend.Prelude.{
  ℕ, zero, suc, ◌+◌, ◌-◌, String, List, [], ◌∷◌, ◌++◌, ◌≡◌, refl, Bool, true, false, Option, none,
  some, length, length-append, map, if◌then◌else◌, ap, ltb, ◌==◌, ◌∙◌, sym,
}
use mathlib.Core.List.{map-append}
use holvit_backend.Go.{Error, Outcome, done, panicked, Go, ◌>>=◌, ◌>>◌, pure, panic, continue}
use holvit_backend.Sqlb.Syntax.{
  RawQuery, raw_query, Any, string, value, raw, select, Params, no_params, param, Fragments,
  no_fragments, fragment, Nillable, nil, set, SelectQuery, select_query,
}
use holvit_backend.Sqlb.Writer.{Piece, placeholder, Writer, Build, skip, write, append_param}

-- A query without its values: a string or a value among the parameters is forgotten.
unfoldable mutual
  pub erase_raw : {V : Type 0} → RawQuery V → RawQuery (Unit {0})
  erase_raw (raw_query term params) = raw_query term (erase_params params)

  pub erase_any : {V : Type 0} → Any V → Any (Unit {0})
  erase_any (string s) = value tt
  erase_any (value v) = value tt
  erase_any (raw q) = raw (erase_raw q)
  erase_any (select q) = select (erase_select q)

  pub erase_params : {V : Type 0} → Params V → Params (Unit {0})
  erase_params no_params = no_params
  erase_params (param p ps) = param (erase_any p) (erase_params ps)

  pub erase_fragments : {V : Type 0} → Fragments V → Fragments (Unit {0})
  erase_fragments no_fragments = no_fragments
  erase_fragments (fragment f fs) = fragment (erase_raw f) (erase_fragments fs)

  pub erase_nillable : {V : Type 0} → Nillable V → Nillable (Unit {0})
  erase_nillable nil = nil
  erase_nillable (set q) = set (erase_raw q)

  pub erase_select : {V : Type 0} → SelectQuery V → SelectQuery (Unit {0})
  erase_select
        (select_query withs columns from joins conditions group_by having distinct distinct_on
          order_by limit offset lock_for_update skip_locked) =
      select_query (erase_fragments withs) (erase_fragments columns) (erase_fragments from)
        (erase_fragments joins) (erase_fragments conditions) (erase_fragments group_by)
        (erase_fragments having) distinct (erase_fragments distinct_on) (erase_fragments order_by)
        (erase_nillable limit) (erase_nillable offset) lock_for_update skip_locked

module _ {V : Type 0} where
  abbrev forget : Any V → Any (Unit {0})
  forget a = value tt

  abbrev pub erase_writer : Writer V → Writer (Unit {0})
  erase_writer w = record { sql = w.sql; params = map forget w.params }

  abbrev pub erase_end : {A : Type 0} → Outcome A × Writer V → Outcome A × Writer (Unit {0})
  erase_end (r, w) = (r, erase_writer w)

  -- From an erased writer the one ends as the other does, erased.
  pub record Mirrors {A : Type 0} (m : Go (Writer V) A) (m' : Go (Writer (Unit {0})) A)
      : Type 0 where
    pub at : (w : Writer V) → m' (erase_writer w) ≡ erase_end (m w)

  pub Mirrors-pure : {A : Type 0} (a : A) → Mirrors (pure a) (pure a)
  Mirrors-pure a = record { at = λ w. refl }

  pub Mirrors-panic : {A : Type 0} (e : Error) → Mirrors {A = A} (panic e) (panic e)
  Mirrors-panic e = record { at = λ w. refl }

  pub Mirrors-write : (t : String) → Mirrors (write t) (write t)
  unfolding write
  Mirrors-write t = record { at = λ w. refl }

  length-forget : (l : List (Any V)) → length (map forget l) ≡ length l
  length-forget [] = refl
  length-forget (a ∷ l) = ap suc (length-forget l)

  pub Mirrors-append_param : (a : Any V) → Mirrors (append_param a) (append_param (value tt))
  unfolding append_param
  Mirrors-append_param a = record { at = appended }
    where
      appended :
          (w : Writer V) → append_param (value tt) (erase_writer w) ≡ erase_end (append_param a w)
      appended w = simp (length-append, length-forget, map-append)

  Mirrors-continue :
      {A B : Type 0} (k : A → Go (Writer V) B) (k' : A → Go (Writer (Unit {0})) B) (r : Outcome A)
      (w : Writer V)
      → ((a : A) → Mirrors (k a) (k' a))
      → continue k' r (erase_writer w) ≡ erase_end (continue k r w)
  Mirrors-continue k k' (done a) w h = (h a).at w
  Mirrors-continue k k' (panicked e) w h = refl

  pub Mirrors-bind :
      {A B : Type 0} {m : Go (Writer V) A} {m' : Go (Writer (Unit {0})) A} {k : A → Go (Writer V) B}
      {k' : A → Go (Writer (Unit {0})) B}
      → Mirrors m m'
      → ((a : A) → Mirrors (k a) (k' a))
      → Mirrors (m >>= k) (m' >>= k')
  Mirrors-bind {m} {m'} {k} {k'} h hk = record {
    at = λ w. rw (h.at w) (Mirrors-continue k k' (m w).0 (m w).1 hk);
  }

  pub Mirrors-then :
      {B : Type 0} {m : Build V} {m' : Build (Unit {0})} {k : Go (Writer V) B}
      {k' : Go (Writer (Unit {0})) B}
      → Mirrors m m'
      → Mirrors k k'
      → Mirrors (m >>= λ _. k) (m' >>= λ _. k')
  Mirrors-then h hk = Mirrors-bind h (λ a. hk)

  pub Mirrors-if :
      {m n : Build V} {m' n' : Build (Unit {0})} (b : Bool)
      → Mirrors m m'
      → Mirrors n n'
      → Mirrors (if b then m else n) (if b then m' else n')
  Mirrors-if true h k = h
  Mirrors-if false h k = k
