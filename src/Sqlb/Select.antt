-- ===== src/Sqlb/Select.antt =====
-- The methods that set up a select query: sqlb/select.go.
use holvit_backend.Prelude.{str_append, String, List, [], ◌∷◌, Bool, true, false}
use holvit_backend.Go.{Outcome, Go, ◌>>=◌, ◌>>◌, pure}
use holvit_backend.Sqlb.Syntax.{
  RawQuery, raw_query, Any, raw, no_params, param, Fragments, no_fragments, Nillable, nil, set,
  SelectQuery, select_query,
}
use holvit_backend.Sqlb.Fragment.{
  append_fragments, append_fragment, make_raw_fragment, make_raw_fragments, named,
}

-- The struct `selectQuery` by its fields, as the methods see it.
pub record Selection (V : Type 0) : Type 0 where
  pub withs : Fragments V
  pub columns : Fragments V
  pub from : Fragments V
  pub joins : Fragments V
  pub conditions : Fragments V
  pub group_by : Fragments V
  pub having : Fragments V
  pub distinct : Bool
  pub distinct_on : Fragments V
  pub order_by : Fragments V
  pub limit : Nillable V
  pub offset : Nillable V
  pub lock_for_update : Bool
  pub skip_locked : Bool

abbrev pub to_query : {V : Type 0} → Selection V → SelectQuery V
to_query s =
    select_query s.withs s.columns s.from s.joins s.conditions s.group_by s.having s.distinct
      s.distinct_on s.order_by s.limit s.offset s.lock_for_update s.skip_locked

-- `&selectQuery{with: withs, columns: columns}`
abbrev pub new_selection : {V : Type 0} → Fragments V → Fragments V → Selection V
new_selection withs columns = record {
  withs = withs;
  columns = columns;
  from = no_fragments;
  joins = no_fragments;
  conditions = no_fragments;
  group_by = no_fragments;
  having = no_fragments;
  distinct = false;
  distinct_on = no_fragments;
  order_by = no_fragments;
  limit = nil;
  offset = nil;
  lock_for_update = false;
  skip_locked = false;
}

module _ {S V : Type 0} where
  -- `Select`, the function of the package
  unfoldable pub select_from : Any V → List (Any V) → Go S (Selection V)
  unfolding make_raw_fragments
  select_from col cols = do
    columns ← make_raw_fragments (col ∷ cols)
    pure (new_selection no_fragments columns)

-- What `Limit` and `Offset` take: an `int`, or another value. A value that a query binds and that is
-- no `int` is `other (value v)`.
pub data Bound (V : Type 0) : Type 0 where
  number : V → Bound V
  other : Any V → Bound V

abbrev pub Method : Type 0 → Type 0
Method V = Go (Selection V) (Unit {0})

module _ {V : Type 0} where
  abbrev pub modify : (Selection V → Selection V) → Method V
  modify f s = (Outcome.done tt, f s)

  unfoldable pub add_columns : List (Any V) → Method V
  unfolding make_raw_fragments
  add_columns cols = do
    fs ← make_raw_fragments cols
    modify (λ s. record s { columns = append_fragments s.columns fs })

  unfoldable pub add_from : Any V → Method V
  unfolding make_raw_fragment
  add_from table = do
    f ← make_raw_fragment table []
    modify (λ s. record s { from = append_fragment s.from f })

  unfoldable pub from_as : Any V → String → Method V
  unfolding named
  from_as table name = do
    f ← named table name
    modify (λ s. record s { from = append_fragment s.from f })

  unfoldable pub add_where : Any V → List (Any V) → Method V
  unfolding make_raw_fragment
  add_where condition params = do
    f ← make_raw_fragment condition params
    modify (λ s. record s { conditions = append_fragment s.conditions f })

  unfoldable pub add_group_by : List (Any V) → Method V
  unfolding make_raw_fragments
  add_group_by elements = do
    fs ← make_raw_fragments elements
    modify (λ s. record s { group_by = append_fragments s.group_by fs })

  unfoldable pub add_having : Any V → List (Any V) → Method V
  unfolding make_raw_fragment
  add_having condition params = do
    f ← make_raw_fragment condition params
    modify (λ s. record s { having = append_fragment s.having f })

  -- `Limit` and `Offset`: an `int` becomes a parameter, and another value is no term.
  abbrev bound : Bound V → Go (Selection V) (RawQuery V)
  unfolding make_raw_fragment
  bound (number n) = pure (raw_query "?" (param (Any.value n) no_params))
  bound (other term) = make_raw_fragment term []

  unfoldable pub set_limit : Bound V → Method V
  unfolding make_raw_fragment
  set_limit limit = do f ← bound limit; modify (λ s. record s { limit = set f })

  unfoldable pub set_offset : Bound V → Method V
  unfolding make_raw_fragment
  set_offset offset = do f ← bound offset; modify (λ s. record s { offset = set f })

  unfoldable pub set_distinct : List (Any V) → Method V
  unfolding make_raw_fragments
  set_distinct on = do
    modify (λ s. record s { distinct = true })
    fs ← make_raw_fragments on
    modify (λ s. record s { distinct_on = append_fragments s.distinct_on fs })

  unfoldable pub set_lock : Bool → Method V
  set_lock skip_locked =
      modify (λ s. record s { lock_for_update = true; skip_locked = skip_locked })

  unfoldable pub add_order_by : List (Any V) → Method V
  unfolding make_raw_fragments
  add_order_by fields = do
    fs ← make_raw_fragments fields
    modify (λ s. record s { order_by = append_fragments s.order_by fs })

  abbrev push_join : RawQuery V → Selection V → Selection V
  push_join f s = record s { joins = append_fragment s.joins f }

  -- `selectQuery.join`, behind `Join`, `InnerJoin`, `LeftJoin`, `RightJoin` and `FullJoin`
  unfoldable pub add_join : String → Any V → Any V → List (Any V) → Method V
  unfolding make_raw_fragment
  add_join keyword table on params = do
    t ← make_raw_fragment table []
    c ← make_raw_fragment on params
    modify (
        push_join
          (raw_query (str_append keyword " ? ON ?") (param (raw t) (param (raw c) no_params))))

  -- `selectQuery.joinAs`
  unfoldable pub add_join_as : String → Any V → String → Any V → List (Any V) → Method V
  unfolding make_raw_fragment
  add_join_as keyword table name on params = do
    t ← make_raw_fragment table []
    c ← make_raw_fragment on params
    modify (
        push_join (
          raw_query (str_append keyword (str_append " ? AS " (str_append name " ON ?")))
            (param (raw t) (param (raw c) no_params))))

  unfoldable pub cross_join : Any V → Method V
  unfolding make_raw_fragment
  cross_join table = do
    t ← make_raw_fragment table []
    modify (push_join (raw_query "CROSS JOIN ?" (param (raw t) no_params)))

  unfoldable pub cross_join_as : Any V → String → Method V
  unfolding make_raw_fragment
  cross_join_as table name = do
    t ← make_raw_fragment table []
    modify (push_join (raw_query (str_append "CROSS JOIN ? AS " name) (param (raw t) no_params)))

  unfoldable pub raw_join : Any V → List (Any V) → Method V
  unfolding make_raw_fragment
  raw_join join params = do f ← make_raw_fragment join params; modify (push_join f)
