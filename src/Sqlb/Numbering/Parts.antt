-- ===== src/Sqlb/Numbering/Parts.antt =====
-- The loops of sqlb/sqlb.go and the clause methods of sqlb/select.go bind what their parts bind,
-- in order.
use holvit_backend.Prelude.{
  ℕ, suc, ◌≡◌, arith, ◌+◌, ◌-◌, String, List, [], ◌∷◌, Bool, true, false, Option, none, some,
  length, ltb, ◌==◌, if◌then◌else◌,
}
use holvit_backend.Go.{◌>>◌}
use holvit_backend.Sqlb.Writer.{
  Build, skip, write, fragments_from, build_fragments, build_with, conditions_from, build_where,
  build_having,
}
use holvit_backend.Sqlb.Build.{build_columns, build_clause, build_bound, build_lock}
use holvit_backend.Sqlb.Arguments.{Args, ◌&◌, all_of, at_most_one, nil-&}
use holvit_backend.Sqlb.Numbering.{
  Emits, Quiet, Emits-pure, Emits-write, Emits-then, Quiet-then, then-Quiet, Quiet-if, Quiet-either,
}

ltb-zero-suc : (n : ℕ) → ltb 0 (suc n) ≡ true
ltb-zero-suc n = ground arith

module _ {V : Type 0} where
  -- Each build binds its arguments.
  abbrev pub EmitAll : List (Build V) → List (Args V) → Type 0
  EmitAll [] [] = Unit
  EmitAll (m ∷ ms) (o ∷ os) = Emits m tt o × EmitAll ms os
  EmitAll _ _ = ⊥

  fragments_from-Emits :
      (i n : ℕ) (joiner : String) (ms : List (Build V)) (os : List (Args V))
      → EmitAll ms os
      → Emits (fragments_from i n joiner ms) tt (all_of os)
  unfolding fragments_from
  fragments_from-Emits i n joiner [] [] h = Emits-pure tt
  fragments_from-Emits i n joiner (m ∷ ms) (o ∷ os) h = Emits-then m _ h.0 (
      Quiet-then _ _ (Quiet-if (ltb i (n - 1)) joiner)
        (fragments_from-Emits (i + 1) n joiner ms os h.1))
  fragments_from-Emits i n joiner [] (o ∷ os) h = absurd h
  fragments_from-Emits i n joiner (m ∷ ms) [] h = absurd h

  pub build_fragments-Emits :
      (ms : List (Build V)) (os : List (Args V)) (joiner : String)
      → EmitAll ms os
      → Emits (build_fragments ms joiner) tt (all_of os)
  unfolding build_fragments
  build_fragments-Emits ms os joiner h = fragments_from-Emits 0 (length ms) joiner ms os h

  pub build_with-Emits :
      (ms : List (Build V)) (os : List (Args V))
      → EmitAll ms os
      → Emits (build_with ms) tt (all_of os)
  unfolding build_with
  build_with-Emits [] [] h = Emits-pure tt
  build_with-Emits (m ∷ ms) (o ∷ os) h =
      Quiet-then _ _ (Emits-write "WITH ")
        (then-Quiet _ _ (build_fragments-Emits (m ∷ ms) (o ∷ os) ", " h) (Emits-write " "))
  build_with-Emits [] (o ∷ os) h = absurd h
  build_with-Emits (m ∷ ms) [] h = absurd h

  conditions_from-Emits :
      (i : ℕ) (keyword : String) (wrap : Bool) (ms : List (Build V)) (os : List (Args V))
      → EmitAll ms os
      → Emits (conditions_from i keyword wrap ms) tt (all_of os)
  unfolding conditions_from
  conditions_from-Emits i keyword wrap [] [] h = Emits-pure tt
  conditions_from-Emits i keyword wrap (m ∷ ms) (o ∷ os) h =
      Quiet-then _ _ (Quiet-either (i == 0) keyword " AND ") (
        Quiet-then _ _ (Quiet-if wrap "(") (
          Emits-then m _ h.0 (
            Quiet-then _ _ (Quiet-if wrap ")")
              (conditions_from-Emits (i + 1) keyword wrap ms os h.1))))
  conditions_from-Emits i keyword wrap [] (o ∷ os) h = absurd h
  conditions_from-Emits i keyword wrap (m ∷ ms) [] h = absurd h

  pub build_where-Emits :
      (ms : List (Build V)) (os : List (Args V))
      → EmitAll ms os
      → Emits (build_where ms) tt (all_of os)
  unfolding build_where
  build_where-Emits ms os h = conditions_from-Emits 0 " WHERE " (ltb 1 (length ms)) ms os h

  pub build_having-Emits :
      (ms : List (Build V)) (os : List (Args V))
      → EmitAll ms os
      → Emits (build_having ms) tt (all_of os)
  unfolding build_having
  build_having-Emits ms os h = conditions_from-Emits 0 " HAVING " (ltb 1 (length ms)) ms os h

  pub build_clause-Emits :
      (keyword joiner : String) (ms : List (Build V)) (os : List (Args V))
      → EmitAll ms os
      → Emits (build_clause keyword joiner ms) tt (all_of os)
  unfolding build_clause
  build_clause-Emits keyword joiner [] [] h = Emits-pure tt
  build_clause-Emits keyword joiner (m ∷ ms) (o ∷ os) h =
      Quiet-then _ _ (Emits-write keyword) (build_fragments-Emits (m ∷ ms) (o ∷ os) joiner h)
  build_clause-Emits keyword joiner [] (o ∷ os) h = absurd h
  build_clause-Emits keyword joiner (m ∷ ms) [] h = absurd h

  -- The argument of `DISTINCT`: nothing, or the expressions of `DISTINCT ON`.
  build_on-Emits :
      (ms : List (Build V)) (os : List (Args V))
      → EmitAll ms os
      → Emits
          (if ltb 0 (length ms)
            then (do write "ON ("; build_fragments ms ", "; write ") ")
            else skip)
          tt
          (all_of os)
  build_on-Emits [] [] h = Emits-pure tt
  build_on-Emits (m ∷ ms) (o ∷ os) h = rw (ltb-zero-suc (length ms)) (
      Quiet-then _ _ (Emits-write "ON (")
        (then-Quiet _ _ (build_fragments-Emits (m ∷ ms) (o ∷ os) ", " h) (Emits-write ") ")))
  build_on-Emits [] (o ∷ os) h = absurd h
  build_on-Emits (m ∷ ms) [] h = absurd h

  pub build_columns-Emits :
      (distinct : Bool) (ons columns : List (Build V)) (os ps : List (Args V))
      → EmitAll ons os
      → EmitAll columns ps
      → Emits
          (build_columns distinct ons columns)
          tt
          ((if distinct then all_of os else some []) & all_of ps)
  unfolding build_columns
  build_columns-Emits true ons columns os ps h k = Quiet-then _ _ (Emits-write "SELECT ") (
      Quiet-then _ _ (Emits-write "DISTINCT ")
        (Emits-then _ _ (build_on-Emits ons os h) (build_fragments-Emits columns ps ", " k)))
  build_columns-Emits false ons columns os ps h k = rw (nil-& (all_of ps)) (
      Quiet-then _ _ (Emits-write "SELECT ") (
        Quiet-then _ _ (Emits-pure tt)
          (Quiet-then _ _ (Emits-pure tt) (build_fragments-Emits columns ps ", " k))))

  -- The build of a field that may be nil binds its arguments.
  abbrev pub EmitOne : Option (Build V) → Option (Args V) → Type 0
  EmitOne none none = Unit
  EmitOne (some m) (some o) = Emits m tt o
  EmitOne _ _ = ⊥

  pub build_bound-Emits :
      (keyword : String) (m : Option (Build V)) (o : Option (Args V))
      → EmitOne m o
      → Emits (build_bound keyword m) tt (at_most_one o)
  unfolding build_bound
  build_bound-Emits keyword none none h = Emits-pure tt
  build_bound-Emits keyword (some m) (some o) h = Quiet-then _ _ (Emits-write keyword) h
  build_bound-Emits keyword none (some o) h = absurd h
  build_bound-Emits keyword (some m) none h = absurd h

  pub build_lock-Emits : (lock skip_locked : Bool) → Quiet {V = V} (build_lock lock skip_locked)
  unfolding build_lock
  build_lock-Emits false skip_locked = Emits-pure tt
  build_lock-Emits true skip_locked =
      Quiet-then _ _ (Emits-write " FOR UPDATE") (Quiet-if skip_locked " SKIP LOCKED")
