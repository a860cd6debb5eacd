-- ===== src/Sqlb/Syntax.antt =====
-- The values that the query builder stores: sqlb/raw.go and the struct of sqlb/select.go.
use holvit_backend.Prelude.{String, Bool}

-- A `[]RawQuery` and a nillable `RawQuery` are types of the block, for they hold raw queries. The
-- dynamic type of an `any` is one that `makeRawFragment` and `rawQuery.build` tell apart, or it
-- is some other value, of the type `V`.
mutual
  -- `rawQuery`
  pub data RawQuery (V : Type 0) : Type 0 where
    raw_query : String → Params V → RawQuery V

  -- `any`
  pub data Any (V : Type 0) : Type 0 where
    string : String → Any V
    value : V → Any V
    raw : RawQuery V → Any V
    select : SelectQuery V → Any V

  -- `[]any`, the parameters of a raw query
  pub data Params (V : Type 0) : Type 0 where
    no_params : Params V
    param : Any V → Params V → Params V

  -- `[]RawQuery`
  pub data Fragments (V : Type 0) : Type 0 where
    no_fragments : Fragments V
    fragment : RawQuery V → Fragments V → Fragments V

  -- a `RawQuery` field that may be nil
  pub data Nillable (V : Type 0) : Type 0 where
    nil : Nillable V
    set : RawQuery V → Nillable V

  -- `selectQuery`: with, columns, from, joins, where, groupBy, having; distinct, distinctOn;
  -- orderBy; limit, offset; lockForUpdate, skipLocked
  pub data SelectQuery (V : Type 0) : Type 0 where
    select_query :
        (withs columns from joins conditions group_by having : Fragments V) (distinct : Bool)
        (distinct_on order_by : Fragments V) (limit offset : Nillable V)
        (lock_for_update skip_locked : Bool)
        → SelectQuery V
