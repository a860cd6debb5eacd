-- ===== src/Sqlb/Insert.antt =====
-- Insert queries: sqlb/insert.go.
pub mod Build
pub mod Exclusive
use holvit_backend.Prelude.{
  ℕ, suc, ◌+◌, ◌-◌, String, str_append, str_eq, List, [], ◌∷◌, ◌++◌, Bool, true, false, not, Option,
  none, some, length, ltb, if◌then◌else◌,
}
use holvit_backend.Go.{Outcome, plain_error, Go, ◌>>=◌, ◌>>◌, pure, panic}
use holvit_backend.Sqlb.Syntax.{
  RawQuery, raw_query, Any, string, raw, no_params, param, Fragments, no_fragments, fragment,
  Nillable, nil, set,
}
use holvit_backend.Sqlb.Query.{Query}
use holvit_backend.Sqlb.Fragment.{
  append_fragments, append_fragment, make_raw_fragment, make_raw_fragments,
}

-- `insertQueryConflictStrategy`
pub data Strategy : Type 0 where
  invalid do_nothing do_update : Strategy

-- `insertQueryConflict`
pub record Conflict (V : Type 0) : Type 0 where
  pub constraint : String
  pub cols : List String
  pub sets : Fragments V
  pub conditions : Fragments V
  pub strategy : Strategy

-- `insertQuery`
pub record InsertQuery (V : Type 0) : Type 0 where
  pub withs : Fragments V
  pub table : String
  pub columns : List String
  pub values : List (Fragments V)
  pub query : Option (Query V)
  pub returning : Fragments V
  pub on_conflict : Option (Conflict V)
  pub on_conflict_raw : Nillable V

abbrev pub Method : Type 0 → Type 0
Method V = Go (InsertQuery V) (Unit {0})

-- `strings.Join`
abbrev pub join : List String → String → String
join [] joiner = ""
join (s ∷ []) joiner = s
join (s ∷ t ∷ rest) joiner = str_append s (str_append joiner (join (t ∷ rest) joiner))

module _ {V : Type 0} where
  -- `InsertInto`; `WithQuery.InsertInto` gives the common table expressions too.
  abbrev pub insert_into : Fragments V → String → List String → InsertQuery V
  insert_into withs table columns = record {
    withs = withs;
    table = table;
    columns = columns;
    values = [];
    query = none;
    returning = no_fragments;
    on_conflict = none;
    on_conflict_raw = nil;
  }

  abbrev modify : (InsertQuery V → InsertQuery V) → Method V
  modify f q = (Outcome.done tt, f q)

  both_error : Go (InsertQuery V) (Unit {0})
  both_error = panic (plain_error "cannot use both Query and Values on InsertQuery")

  -- A raw query among the values stands as it is; any other value becomes a parameter.
  abbrev value_fragment : Any V → RawQuery V
  value_fragment (raw q) = q
  value_fragment (string s) = raw_query "?" (param (string s) no_params)
  value_fragment (Any.value v) = raw_query "?" (param (Any.value v) no_params)
  value_fragment (Any.select q) = raw_query "?" (param (Any.select q) no_params)

  abbrev pub value_fragments : List (Any V) → Fragments V
  value_fragments [] = no_fragments
  value_fragments (v ∷ vals) = fragment (value_fragment v) (value_fragments vals)

  -- `Values`
  unfoldable pub add_values : List (Any V) → Method V
  unfolding both_error
  add_values vals q = elim q.query [
    | some _ ↦ both_error q
    | none ↦ modify (λ q. record q { values = q.values ++ value_fragments vals ∷ [] }) q
  ]

  -- `Query`
  unfoldable pub set_query : Query V → Method V
  unfolding both_error
  set_query query q = elim q.values [
    | [] ↦ modify (λ q. record q { query = some query }) q
    | _ ∷ _ ↦ both_error q
  ]

  -- `OnConflictRaw`
  unfoldable pub set_on_conflict_raw : String → List (Any V) → Method V
  unfolding make_raw_fragment
  set_on_conflict_raw sql params q = elim q.on_conflict [
    | some _ ↦ panic (plain_error "cannot use both OnConflict and OnConflictRaw") q
    | none ↦
        (do
          f ← make_raw_fragment (string sql) params
          modify (λ q. record q { on_conflict_raw = set f }))
          q
  ]

  abbrev new_conflict : Conflict V
  new_conflict = record {
    constraint = "";
    cols = [];
    sets = no_fragments;
    conditions = no_fragments;
    strategy = invalid;
  }

  -- `OnConflict`
  unfoldable pub on_conflict : Method V
  on_conflict q = elim q.on_conflict_raw [
    | set _ ↦ panic (plain_error "cannot use both OnConflict and OnConflictRaw") q
    | nil ↦ elim q.on_conflict [
      | some _ ↦ panic (plain_error "cannot call OnConflict more than once") q
      | none ↦ modify (λ q. record q { on_conflict = some new_conflict }) q
    ]
  ]

  -- What a method on `q.onConflict` does; the pointer is nil before `OnConflict`.
  change_conflict : (Conflict V → Conflict V) → Method V
  change_conflict f q = elim q.on_conflict [
    | none ↦ panic (plain_error "invalid memory address or nil pointer dereference") q
    | some c ↦ modify (λ q. record q { on_conflict = some (f c) }) q
  ]

  -- `Cols`, `Constraint`, `DoNothing`, `DoUpdate`
  unfoldable pub set_cols : List String → Method V
  unfolding change_conflict
  set_cols cols = change_conflict (λ c. record c { cols = cols })

  unfoldable pub set_constraint : String → Method V
  unfolding change_conflict
  set_constraint name = change_conflict (λ c. record c { constraint = name })

  unfoldable pub do_nothing_on_conflict : Method V
  unfolding change_conflict
  do_nothing_on_conflict = change_conflict (λ c. record c { strategy = do_nothing })

  unfoldable pub do_update_on_conflict : Method V
  unfolding change_conflict
  do_update_on_conflict = change_conflict (λ c. record c { strategy = do_update })

  -- The test that begins `Set` and `Where`.
  require_update : String → Method V
  require_update method q = elim q.on_conflict [
    | none ↦ panic (plain_error "invalid memory address or nil pointer dereference") q
    | some c ↦ elim c.strategy [
      | do_update ↦ (Outcome.done tt, q)
      | _ ↦ panic (plain_error method) q
    ]
  ]

  -- `Set`
  unfoldable pub add_set : String → Any V → List (Any V) → Method V
  unfolding require_update make_raw_fragment change_conflict
  add_set name new params = do
    require_update "cannot call Set() without DoUpdate()"
    f ← make_raw_fragment new params
    change_conflict (λ c. record c {
      sets = append_fragment c.sets (raw_query (str_append name " = ?") (param (raw f) no_params));
    })

  -- `Where`
  unfoldable pub add_where : Any V → List (Any V) → Method V
  unfolding require_update make_raw_fragment change_conflict
  add_where condition params = do
    require_update "cannot call Where() without DoUpdate()"
    f ← make_raw_fragment condition params
    change_conflict (λ c. record c { conditions = append_fragment c.conditions f })

  -- `Returning`
  unfoldable pub add_returning : List (Any V) → Method V
  unfolding make_raw_fragments
  add_returning exprs = do
    fs ← make_raw_fragments exprs
    modify (λ q. record q { returning = append_fragments q.returning fs })
