-- ===== src/Sqlb/Build.antt =====
-- The `build` methods of raw and select queries: sqlb/raw.go and sqlb/select.go.
use Prim.Native.Char.{code}
use holvit_backend.Prelude.{
  ℕ, ◌+◌, String, List, [], ◌∷◌, Bool, true, false, ◌&&◌, Option, none, some, get_elem?, length,
  ltb, ◌==◌, if◌then◌else◌,
}
use holvit_backend.Go.{plain_error, Go, ◌>>=◌, ◌>>◌, pure, panic}
use holvit_backend.Sqlb.Syntax.{
  RawQuery, raw_query, Any, string, value, raw, select, Params, no_params, param, Fragments,
  no_fragments, fragment, Nillable, nil, set, SelectQuery, select_query,
}
use holvit_backend.Sqlb.Writer.{
  Writer, Build, skip, write, append_param, build_fragments, build_with, build_where, build_having,
}

-- A token of `go-sqllexer`: whether its type is `OPERATOR`, and its text.
pub record Token : Type 0 where
  pub is_operator : Bool
  pub value : String

-- `strings.ContainsRune(s, '?')`
abbrev pub has_mark : String → Bool
has_mark String.[] = false
has_mark (String.◌∷◌ c s) = if code c == b'?' then true else has_mark s

module _ {V : Type 0} where
  -- `q.params[paramIdx]`, whose build is what the loop does with it
  unfoldable pub param_at : List (Build V) → ℕ → Build V
  param_at params i = elim (get_elem? params i) [
    | none ↦ panic (plain_error "index out of range")
    | some build ↦ build
  ]

  -- `for _, r := range token.Value`; the result is `paramIdx`
  unfoldable pub scan_runes : List (Build V) → String → ℕ → Go (Writer V) ℕ
  unfolding param_at
  scan_runes params String.[] i = pure i
  scan_runes params (String.◌∷◌ r rest) i =
      let mark = (do param_at params i; scan_runes params rest (i + 1)) in
      let other = (do write (String.◌∷◌ r String.[]); scan_runes params rest i) in
      if code r == b'?' then mark else other

  -- `for _, token := range tokens`
  unfoldable pub scan_tokens : List (Build V) → List Token → ℕ → Build V
  unfolding scan_runes
  scan_tokens params [] i = skip
  scan_tokens params (t ∷ ts) i =
      let operator = (do next ← scan_runes params t.value i; scan_tokens params ts next) in
      let other = (do write t.value; scan_tokens params ts i) in
      if t.is_operator && has_mark t.value then operator else other

-- `selectQuery.buildSelect` and the build methods after it, over the parts' own builds
module _ {V : Type 0} where
  unfoldable pub build_columns : Bool → List (Build V) → List (Build V) → Build V
  build_columns distinct on columns =
      let on_clause = (do write "ON ("; build_fragments on ", "; write ") ") in
      let distinct_on = if distinct && ltb 0 (length on) then on_clause else skip in
      do
        write "SELECT "
        if distinct then write "DISTINCT " else skip
        distinct_on
        build_fragments columns ", "

  -- `buildFrom`, `buildJoin`, `buildGroupBy`, `buildOrderBy`: nothing for no fragments
  unfoldable pub build_clause : String → String → List (Build V) → Build V
  build_clause keyword joiner [] = skip
  build_clause keyword joiner (f ∷ fs) = do write keyword; build_fragments (f ∷ fs) joiner

  -- one half of `buildLimitOffset`
  unfoldable pub build_bound : String → Option (Build V) → Build V
  build_bound keyword none = skip
  build_bound keyword (some b) = do write keyword; b

  unfoldable pub build_lock : Bool → Bool → Build V
  build_lock false skip_locked = skip
  build_lock true skip_locked = do
    write " FOR UPDATE"
    if skip_locked then write " SKIP LOCKED" else skip

-- `scan_all` is the lexer's `New(term).ScanAll()`.
module _ {V : Type 0} (scan_all : String → List Token) where
  unfoldable mutual
    unfolding scan_tokens build_columns build_clause build_bound build_lock

    pub build_raw : RawQuery V → Build V
    build_raw (raw_query term params) = scan_tokens (build_params params) (scan_all term) 0

    pub build_params : Params V → List (Build V)
    build_params no_params = []
    build_params (param p ps) = build_param p ∷ build_params ps

    -- the type switch of `rawQuery.build`
    pub build_param : Any V → Build V
    build_param (select q) = do write "("; build_select q; write ")"
    build_param (raw q) = build_raw q
    build_param (string s) = append_param (string s)
    build_param (value v) = append_param (value v)

    pub builds : Fragments V → List (Build V)
    builds no_fragments = []
    builds (fragment f fs) = build_raw f ∷ builds fs

    pub build_nillable : Nillable V → Option (Build V)
    build_nillable nil = none
    build_nillable (set q) = some (build_raw q)

    -- `selectQuery.build`
    pub build_select : SelectQuery V → Build V
    build_select
          (select_query withs columns from joins conditions group_by having distinct distinct_on
            order_by limit offset lock_for_update skip_locked) =
        do
          build_with (builds withs)
          build_columns distinct (builds distinct_on) (builds columns)
          build_clause " FROM " ", " (builds from)
          build_clause " " " " (builds joins)
          build_where (builds conditions)
          build_clause " GROUP BY " ", " (builds group_by)
          build_having (builds having)
          build_clause " ORDER BY " ", " (builds order_by)
          build_bound " LIMIT " (build_nillable limit)
          build_bound " OFFSET " (build_nillable offset)
          build_lock lock_for_update skip_locked
