-- ===== src/Sqlb/Text/Parts.antt =====
-- The loops of sqlb/sqlb.go and sqlb/raw.go and the clause methods of sqlb/select.go mirror one another where their parts do.
use Prim.Native.Char.{code}
use holvit_backend.Prelude.{
  ℕ, zero, suc, ◌+◌, ◌-◌, String, List, [], ◌∷◌, Bool, true, false, Option, none, some, length, ltb,
  ◌==◌, ◌≡◌, refl, ap, if◌then◌else◌, ◌&&◌, Bool-cases, inl, inr,
}
use holvit_backend.Sqlb.Writer.{
  Build, skip, write, fragments_from, build_fragments, build_with, conditions_from, build_where,
  build_having,
}
use holvit_backend.Sqlb.Build.{
  Token, has_mark, param_at, scan_runes, scan_tokens, build_columns, build_clause, build_bound,
  build_lock,
}
use holvit_backend.Sqlb.Text.{
  Mirrors, Mirrors-pure, Mirrors-panic, Mirrors-write, Mirrors-bind, Mirrors-then, Mirrors-if,
}

module _ {V : Type 0} where
  -- Each build mirrors the one at its place.
  abbrev pub MirrorAll : List (Build V) → List (Build (Unit {0})) → Type 0
  MirrorAll [] [] = Unit
  MirrorAll (m ∷ ms) (n ∷ ns) = Mirrors m n × MirrorAll ms ns
  MirrorAll [] (n ∷ ns) = ⊥
  MirrorAll (m ∷ ms) [] = ⊥

  same_length :
      (ms : List (Build V)) (ns : List (Build (Unit {0}))) → MirrorAll ms ns → length ms ≡ length ns
  same_length [] [] h = refl
  same_length (m ∷ ms) (n ∷ ns) h = ap suc (same_length ms ns h.1)
  same_length [] (n ∷ ns) h = absurd h
  same_length (m ∷ ms) [] h = absurd h

  Mirrors-either :
      (b : Bool) (t u : String)
      → Mirrors {V = V} (if b then write t else write u) (if b then write t else write u)
  Mirrors-either b t u = Mirrors-if b (Mirrors-write t) (Mirrors-write u)

  Mirrors-maybe :
      (b : Bool) (t : String)
      → Mirrors {V = V} (if b then write t else skip) (if b then write t else skip)
  Mirrors-maybe b t = Mirrors-if b (Mirrors-write t) (Mirrors-pure tt)

  fragments_from-Mirrors :
      (i n : ℕ) (joiner : String) (ms : List (Build V)) (ns : List (Build (Unit {0})))
      → MirrorAll ms ns
      → Mirrors (fragments_from i n joiner ms) (fragments_from i n joiner ns)
  unfolding fragments_from
  fragments_from-Mirrors i n joiner [] [] h = Mirrors-pure tt
  fragments_from-Mirrors i n joiner (m ∷ ms) (k ∷ ns) h = Mirrors-then h.0 (
      Mirrors-then (Mirrors-maybe (ltb i (n - 1)) joiner)
        (fragments_from-Mirrors (i + 1) n joiner ms ns h.1))
  fragments_from-Mirrors i n joiner [] (k ∷ ns) h = absurd h
  fragments_from-Mirrors i n joiner (m ∷ ms) [] h = absurd h

  pub build_fragments-Mirrors :
      (ms : List (Build V)) (ns : List (Build (Unit {0}))) (joiner : String)
      → MirrorAll ms ns
      → Mirrors (build_fragments ms joiner) (build_fragments ns joiner)
  unfolding build_fragments
  build_fragments-Mirrors ms ns joiner h =
      rw (← same_length ms ns h) (fragments_from-Mirrors 0 (length ms) joiner ms ns h)

  pub build_with-Mirrors :
      (ms : List (Build V)) (ns : List (Build (Unit {0})))
      → MirrorAll ms ns
      → Mirrors (build_with ms) (build_with ns)
  unfolding build_with
  build_with-Mirrors [] [] h = Mirrors-pure tt
  build_with-Mirrors (m ∷ ms) (n ∷ ns) h =
      Mirrors-then (Mirrors-write "WITH ")
        (Mirrors-then (build_fragments-Mirrors (m ∷ ms) (n ∷ ns) ", " h) (Mirrors-write " "))
  build_with-Mirrors [] (n ∷ ns) h = absurd h
  build_with-Mirrors (m ∷ ms) [] h = absurd h

  conditions_from-Mirrors :
      (i : ℕ) (keyword : String) (wrap : Bool) (ms : List (Build V)) (ns : List (Build (Unit {0})))
      → MirrorAll ms ns
      → Mirrors (conditions_from i keyword wrap ms) (conditions_from i keyword wrap ns)
  unfolding conditions_from
  conditions_from-Mirrors i keyword wrap [] [] h = Mirrors-pure tt
  conditions_from-Mirrors i keyword wrap (m ∷ ms) (n ∷ ns) h =
      Mirrors-then (Mirrors-either (i == 0) keyword " AND ") (
        Mirrors-then (Mirrors-maybe wrap "(") (
          Mirrors-then h.0 (
            Mirrors-then (Mirrors-maybe wrap ")")
              (conditions_from-Mirrors (i + 1) keyword wrap ms ns h.1))))
  conditions_from-Mirrors i keyword wrap [] (n ∷ ns) h = absurd h
  conditions_from-Mirrors i keyword wrap (m ∷ ms) [] h = absurd h

  pub build_where-Mirrors :
      (ms : List (Build V)) (ns : List (Build (Unit {0})))
      → MirrorAll ms ns
      → Mirrors (build_where ms) (build_where ns)
  unfolding build_where
  build_where-Mirrors ms ns h =
      rw (← same_length ms ns h) (conditions_from-Mirrors 0 " WHERE " (ltb 1 (length ms)) ms ns h)

  pub build_having-Mirrors :
      (ms : List (Build V)) (ns : List (Build (Unit {0})))
      → MirrorAll ms ns
      → Mirrors (build_having ms) (build_having ns)
  unfolding build_having
  build_having-Mirrors ms ns h =
      rw (← same_length ms ns h) (conditions_from-Mirrors 0 " HAVING " (ltb 1 (length ms)) ms ns h)

  pub build_clause-Mirrors :
      (keyword joiner : String) (ms : List (Build V)) (ns : List (Build (Unit {0})))
      → MirrorAll ms ns
      → Mirrors (build_clause keyword joiner ms) (build_clause keyword joiner ns)
  unfolding build_clause
  build_clause-Mirrors keyword joiner [] [] h = Mirrors-pure tt
  build_clause-Mirrors keyword joiner (m ∷ ms) (n ∷ ns) h =
      Mirrors-then (Mirrors-write keyword) (build_fragments-Mirrors (m ∷ ms) (n ∷ ns) joiner h)
  build_clause-Mirrors keyword joiner [] (n ∷ ns) h = absurd h
  build_clause-Mirrors keyword joiner (m ∷ ms) [] h = absurd h

  pub build_columns-Mirrors :
      (distinct : Bool) (ons columns : List (Build V)) (ons' columns' : List (Build (Unit {0})))
      → MirrorAll ons ons'
      → MirrorAll columns columns'
      → Mirrors (build_columns distinct ons columns) (build_columns distinct ons' columns')
  unfolding build_columns
  build_columns-Mirrors distinct ons columns ons' columns' h k = rw (← same_length ons ons' h) (
      Mirrors-then (Mirrors-write "SELECT ") (
        Mirrors-then (Mirrors-maybe distinct "DISTINCT ") (
          Mirrors-then
            (Mirrors-if (distinct && ltb 0 (length ons))
              (Mirrors-then (Mirrors-write "ON (")
                (Mirrors-then (build_fragments-Mirrors ons ons' ", " h) (Mirrors-write ") ")))
              (Mirrors-pure tt))
            (build_fragments-Mirrors columns columns' ", " k))))

  abbrev pub MirrorOne : Option (Build V) → Option (Build (Unit {0})) → Type 0
  MirrorOne none none = Unit
  MirrorOne (some m) (some n) = Mirrors m n
  MirrorOne none (some n) = ⊥
  MirrorOne (some m) none = ⊥

  pub build_bound-Mirrors :
      (keyword : String) (m : Option (Build V)) (n : Option (Build (Unit {0})))
      → MirrorOne m n
      → Mirrors (build_bound keyword m) (build_bound keyword n)
  unfolding build_bound
  build_bound-Mirrors keyword none none h = Mirrors-pure tt
  build_bound-Mirrors keyword (some m) (some n) h = Mirrors-then (Mirrors-write keyword) h
  build_bound-Mirrors keyword none (some n) h = absurd h
  build_bound-Mirrors keyword (some m) none h = absurd h

  pub build_lock-Mirrors :
      (lock skip_locked : Bool)
      → Mirrors {V = V} (build_lock lock skip_locked) (build_lock lock skip_locked)
  unfolding build_lock
  build_lock-Mirrors false skip_locked = Mirrors-pure tt
  build_lock-Mirrors true skip_locked =
      Mirrors-then (Mirrors-write " FOR UPDATE") (Mirrors-maybe skip_locked " SKIP LOCKED")

  param_at-Mirrors :
      (ms : List (Build V)) (ns : List (Build (Unit {0}))) (i : ℕ)
      → MirrorAll ms ns
      → Mirrors (param_at ms i) (param_at ns i)
  unfolding param_at
  param_at-Mirrors [] [] i h = Mirrors-panic _
  param_at-Mirrors (m ∷ ms) (n ∷ ns) zero h = h.0
  param_at-Mirrors (m ∷ ms) (n ∷ ns) (suc i) h = param_at-Mirrors ms ns i h.1
  param_at-Mirrors [] (n ∷ ns) i h = absurd h
  param_at-Mirrors (m ∷ ms) [] i h = absurd h

  module _ (ms : List (Build V)) (ns : List (Build (Unit {0}))) (h : MirrorAll ms ns) where
    scan_runes-Mirrors : (s : String) (i : ℕ) → Mirrors (scan_runes ms s i) (scan_runes ns s i)
    unfolding scan_runes
    scan_runes-Mirrors String.[] i = Mirrors-pure i
    scan_runes-Mirrors (String.◌∷◌ c s) i = elim (Bool-cases (code c == b'?')) [
      | inl mark ↦
          rw mark (Mirrors-then (param_at-Mirrors ms ns i h) (scan_runes-Mirrors s (i + 1)))
      | inr other ↦ rw other (Mirrors-then (Mirrors-write _) (scan_runes-Mirrors s i))
    ]

    pub scan_tokens-Mirrors :
        (ts : List Token) (i : ℕ) → Mirrors (scan_tokens ms ts i) (scan_tokens ns ts i)
    unfolding scan_tokens
    scan_tokens-Mirrors [] i = Mirrors-pure tt
    scan_tokens-Mirrors (t ∷ ts) i = elim (Bool-cases (t.is_operator && has_mark t.value)) [
      | inl operator ↦
          rw operator (Mirrors-bind (scan_runes-Mirrors t.value i) (λ j. scan_tokens-Mirrors ts j))
      | inr other ↦ rw other (Mirrors-then (Mirrors-write t.value) (scan_tokens-Mirrors ts i))
    ]
