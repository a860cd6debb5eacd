-- ===== src/Sqlb/Fragment.antt =====
-- The makers of raw queries: `makeRawFragment` of sqlb/sqlb.go, sqlb/helpers.go, sqlb/raw.go and
-- the expressions of sqlb/with.go. They may panic, and keep the state of whoever calls them.
use holvit_backend.Prelude.{str_append, String, List, [], ◌∷◌}
use holvit_backend.Go.{plain_error, Go, ◌>>=◌, pure, panic}
use holvit_backend.Sqlb.Syntax.{
  RawQuery, raw_query, Any, string, value, raw, select, Params, no_params, param, Fragments,
  no_fragments, fragment, SelectQuery,
}

module _ {V : Type 0} where
  abbrev pub to_params : List (Any V) → Params V
  to_params [] = no_params
  to_params (a ∷ rest) = param a (to_params rest)

  -- `append(fragments, f...)`
  abbrev pub append_fragments : Fragments V → Fragments V → Fragments V
  append_fragments no_fragments gs = gs
  append_fragments (fragment f fs) gs = fragment f (append_fragments fs gs)

  abbrev pub append_fragment : Fragments V → RawQuery V → Fragments V
  append_fragment fs f = append_fragments fs (fragment f no_fragments)

module _ {V : Type 0} where
  -- A string among the terms is a query of its own, and no parameter.
  abbrev wrap_string : Any V → Any V
  wrap_string (string s) = raw (raw_query s no_params)
  wrap_string (value v) = value v
  wrap_string (raw q) = raw q
  wrap_string (select q) = select q

  abbrev wrap_strings : List (Any V) → List (Any V)
  wrap_strings [] = []
  wrap_strings (t ∷ ts) = wrap_string t ∷ wrap_strings ts

  -- `strings.Join(parts, joiner)` for as many parts "(?)" as there are terms
  abbrev pub join_marks : String → List (Any V) → String
  join_marks joiner [] = ""
  join_marks joiner (t ∷ []) = "(?)"
  join_marks joiner (t ∷ u ∷ ts) = str_append "(?)" (str_append joiner (join_marks joiner (u ∷ ts)))

module _ {S V : Type 0} where
  unfoldable pub make_raw_fragment : Any V → List (Any V) → Go S (RawQuery V)
  make_raw_fragment (string s) params = pure (raw_query s (to_params params))
  make_raw_fragment _ (p ∷ params) =
      panic (plain_error "term can only take params if term is a string")
  make_raw_fragment (raw q) [] = pure q
  make_raw_fragment (select q) [] = pure (raw_query "?" (param (select q) no_params))
  make_raw_fragment (value v) [] = panic (plain_error "unsupported type")

  unfoldable pub make_raw_fragments : List (Any V) → Go S (Fragments V)
  unfolding make_raw_fragment
  make_raw_fragments [] = pure no_fragments
  make_raw_fragments (t ∷ ts) = do
    f ← make_raw_fragment t []
    fs ← make_raw_fragments ts
    pure (fragment f fs)

  -- `Raw`
  unfoldable pub raw_sql : String → List (Any V) → Go S (RawQuery V)
  unfolding make_raw_fragment
  raw_sql sql params = make_raw_fragment (string sql) params

  unfoldable pub andor : String → List (Any V) → Go S (RawQuery V)
  unfolding make_raw_fragment
  andor joiner [] = panic (plain_error "no terms given")
  andor joiner (t ∷ []) = make_raw_fragment t []
  andor joiner (t ∷ u ∷ ts) =
      pure (raw_query (join_marks joiner (t ∷ u ∷ ts)) (to_params (wrap_strings (t ∷ u ∷ ts))))

  -- `And`, `Or`, `Not`, `Exists`, `As`
  unfoldable pub and_terms : List (Any V) → Go S (RawQuery V)
  unfolding andor
  and_terms terms = andor " AND " terms

  unfoldable pub or_terms : List (Any V) → Go S (RawQuery V)
  unfolding andor
  or_terms terms = andor " OR " terms

  unfoldable pub not_term : Any V → Go S (RawQuery V)
  not_term term = pure (raw_query "NOT(?)" (param (wrap_string term) no_params))

  unfoldable pub exists_query : SelectQuery V → Go S (RawQuery V)
  exists_query subquery = pure (raw_query "EXISTS ?" (param (select subquery) no_params))

  unfoldable pub named : Any V → String → Go S (RawQuery V)
  unfolding make_raw_fragment
  named query name = do
    f ← make_raw_fragment query []
    pure (raw_query (str_append "? AS " name) (param (raw f) no_params))
