-- ===== src/Sqlb/Numbering/Queries.antt =====
-- `rawQuery.build` and `selectQuery.build`, for every query: sqlb/raw.go and sqlb/select.go.
use holvit_backend.Prelude.{String, List}
use holvit_backend.Sqlb.Syntax.{
  RawQuery, raw_query, Any, string, value, raw, select, Params, no_params, param, Fragments,
  no_fragments, fragment, Nillable, nil, set, SelectQuery, select_query,
}
use holvit_backend.Sqlb.Build.{
  Token, build_raw, build_params, build_param, builds, build_nillable, build_select,
}
use holvit_backend.Sqlb.Arguments.{
  raw_args, params_args, param_args, fragments_args, nillable_args, select_args,
}
use holvit_backend.Sqlb.Numbering.{
  Emits, Emits-append_param, Emits-write, Emits-then, Quiet-then, then-Quiet,
}
use holvit_backend.Sqlb.Numbering.Parts.{
  EmitAll, EmitOne, build_with-Emits, build_columns-Emits, build_clause-Emits, build_where-Emits,
  build_having-Emits, build_bound-Emits, build_lock-Emits,
}
use holvit_backend.Sqlb.Numbering.Scan.{scan_tokens-Emits}

module _ {V : Type 0} (scan_all : String → List Token) where
  mutual
    unfolding build_raw raw_args

    pub build_raw-Emits : (q : RawQuery V) → Emits (build_raw scan_all q) tt (raw_args scan_all q)
    build_raw-Emits (raw_query term params) =
        scan_tokens-Emits _ _ (build_params-EmitAll params) (scan_all term) 0

    pub build_params-EmitAll :
        (ps : Params V) → EmitAll (build_params scan_all ps) (params_args scan_all ps)
    build_params-EmitAll no_params = tt
    build_params-EmitAll (param p ps) = (build_param-Emits p, build_params-EmitAll ps)

    pub build_param-Emits : (a : Any V) → Emits (build_param scan_all a) tt (param_args scan_all a)
    build_param-Emits (select q) =
        Quiet-then _ _ (Emits-write "(") (then-Quiet _ _ (build_select-Emits q) (Emits-write ")"))
    build_param-Emits (raw q) = build_raw-Emits q
    build_param-Emits (string s) = Emits-append_param (string s)
    build_param-Emits (value v) = Emits-append_param (value v)

    pub builds-EmitAll :
        (fs : Fragments V) → EmitAll (builds scan_all fs) (fragments_args scan_all fs)
    builds-EmitAll no_fragments = tt
    builds-EmitAll (fragment f fs) = (build_raw-Emits f, builds-EmitAll fs)

    pub build_nillable-EmitOne :
        (q : Nillable V) → EmitOne (build_nillable scan_all q) (nillable_args scan_all q)
    build_nillable-EmitOne nil = tt
    build_nillable-EmitOne (set q) = build_raw-Emits q

    pub build_select-Emits :
        (q : SelectQuery V) → Emits (build_select scan_all q) tt (select_args scan_all q)
    build_select-Emits
          (select_query withs columns from joins conditions group_by having distinct distinct_on
            order_by limit offset lock_for_update skip_locked) =
        Emits-then _ _ (build_with-Emits _ _ (builds-EmitAll withs)) (
          Emits-then _ _
            (build_columns-Emits distinct _ _ _ _ (builds-EmitAll distinct_on)
              (builds-EmitAll columns))
            (Emits-then _ _ (build_clause-Emits " FROM " ", " _ _ (builds-EmitAll from)) (
              Emits-then _ _ (build_clause-Emits " " " " _ _ (builds-EmitAll joins)) (
                Emits-then _ _ (build_where-Emits _ _ (builds-EmitAll conditions)) (
                  Emits-then _ _
                    (build_clause-Emits " GROUP BY " ", " _ _ (builds-EmitAll group_by))
                    (Emits-then _ _ (build_having-Emits _ _ (builds-EmitAll having)) (
                      Emits-then _ _
                        (build_clause-Emits " ORDER BY " ", " _ _ (builds-EmitAll order_by))
                        (Emits-then _ _
                          (build_bound-Emits " LIMIT " _ _ (build_nillable-EmitOne limit))
                          (then-Quiet _ _
                            (build_bound-Emits " OFFSET " _ _ (build_nillable-EmitOne offset))
                            (build_lock-Emits lock_for_update skip_locked))))))))))
