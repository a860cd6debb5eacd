-- ===== src/Sqlb/With.antt =====
-- Common table expressions: sqlb/with.go.
use holvit_backend.Prelude.{String, str_append, List, [], ◌∷◌, ◌++◌}
use holvit_backend.Go.{Outcome, Go, ◌>>=◌, pure}
use holvit_backend.Sqlb.Syntax.{
  RawQuery, raw_query, Any, string, value, raw, select, no_params, param, Fragments, no_fragments,
  fragment,
}
use holvit_backend.Sqlb.Fragment.{append_fragment, make_raw_fragment, make_raw_fragments}
use holvit_backend.Sqlb.Select.{Selection, new_selection}

-- `withQuery`
pub record WithQuery (V : Type 0) : Type 0 where
  pub withs : Fragments V

module _ {V : Type 0} where
  -- `strings.Repeat(" ?", len(withs))`
  abbrev repeat_mark : Fragments V → String
  repeat_mark no_fragments = ""
  repeat_mark (fragment f fs) = str_append " ?" (repeat_mark fs)

  abbrev as_params : Fragments V → List (Any V)
  as_params no_fragments = []
  as_params (fragment f fs) = raw f ∷ as_params fs

  abbrev parenthesised : Any V → Any V
  parenthesised (string s) = string (str_append "(" (str_append s ")"))
  parenthesised (value v) = value v
  parenthesised (raw q) = raw q
  parenthesised (select q) = select q

module _ {S V : Type 0} where
  -- `name+" AS ?"`, over the query and its parameters
  unfoldable pub expression : String → Any V → List (Any V) → Go S (RawQuery V)
  unfolding make_raw_fragment
  expression name query params = do
    f ← make_raw_fragment (parenthesised query) params
    pure (raw_query (str_append name " AS ?") (param (raw f) no_params))

  -- `With`, the function of the package
  unfoldable pub with_query : String → Any V → List (Any V) → Go S (WithQuery V)
  unfolding expression
  with_query name query params = do
    f ← expression name query params
    pure (record { withs = fragment f no_fragments })

  -- `WithQuery.Select`
  unfoldable pub select_with : WithQuery V → List (Any V) → Go S (Selection V)
  unfolding make_raw_fragments
  select_with q cols = do columns ← make_raw_fragments cols; pure (new_selection q.withs columns)

  -- `WithQuery.Raw`
  unfoldable pub raw_with : WithQuery V → String → List (Any V) → Go S (RawQuery V)
  unfolding make_raw_fragment
  raw_with q query params =
      make_raw_fragment
        (string (str_append "WITH" (str_append (repeat_mark q.withs) (str_append " " query))))
        (as_params q.withs ++ params)

-- `WithQuery.With`
unfoldable pub add_with : {V : Type 0} → String → Any V → List (Any V) → Go (WithQuery V) (Unit {0})
unfolding expression
add_with name query params = do
  f ← expression name query params
  λ q. (Outcome.done tt, record q { withs = append_fragment q.withs f })
