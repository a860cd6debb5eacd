-- ===== src/Sqlb/Text/Queries.antt =====
-- The text of a select query is that of the query without its values: sqlb/raw.go, sqlb/select.go.
use holvit_backend.Prelude.{String, List, ◌≡◌, ◌∙◌, sym, ap, refl}
use holvit_backend.Go.{Outcome, done, panicked}
use holvit_backend.Sqlb.Syntax.{
  RawQuery, raw_query, Any, string, value, raw, select, Params, no_params, param, Fragments,
  no_fragments, fragment, Nillable, nil, set, SelectQuery, select_query,
}
use holvit_backend.Sqlb.Writer.{Writer}
use holvit_backend.Sqlb.Query.{SqlQuery, build_query, finish, empty_writer}
use holvit_backend.Sqlb.Build.{
  Token, build_raw, build_params, build_param, builds, build_nillable, build_select,
}
use holvit_backend.Sqlb.Text.{
  Mirrors, Mirrors-write, Mirrors-append_param, Mirrors-then, erase_raw, erase_any, erase_params,
  erase_fragments, erase_nillable, erase_select, erase_writer,
}
use holvit_backend.Sqlb.Text.Parts.{
  MirrorAll, MirrorOne, build_with-Mirrors, build_columns-Mirrors, build_clause-Mirrors,
  build_where-Mirrors, build_having-Mirrors, build_bound-Mirrors, build_lock-Mirrors,
  scan_tokens-Mirrors,
}

module _ {V : Type 0} (scan_all : String → List Token) where
  mutual
    unfolding build_raw erase_raw

    pub build_raw-Mirrors :
        (q : RawQuery V) → Mirrors (build_raw scan_all q) (build_raw scan_all (erase_raw q))
    build_raw-Mirrors (raw_query term params) =
        scan_tokens-Mirrors _ _ (build_params-MirrorAll params) (scan_all term) 0

    pub build_params-MirrorAll :
        (ps : Params V)
        → MirrorAll (build_params scan_all ps) (build_params scan_all (erase_params ps))
    build_params-MirrorAll no_params = tt
    build_params-MirrorAll (param p ps) = (build_param-Mirrors p, build_params-MirrorAll ps)

    pub build_param-Mirrors :
        (a : Any V) → Mirrors (build_param scan_all a) (build_param scan_all (erase_any a))
    build_param-Mirrors (select q) =
        Mirrors-then (Mirrors-write "(") (Mirrors-then (build_select-Mirrors q) (Mirrors-write ")"))
    build_param-Mirrors (raw q) = build_raw-Mirrors q
    build_param-Mirrors (string s) = Mirrors-append_param (string s)
    build_param-Mirrors (value v) = Mirrors-append_param (value v)

    pub builds-MirrorAll :
        (fs : Fragments V) → MirrorAll (builds scan_all fs) (builds scan_all (erase_fragments fs))
    builds-MirrorAll no_fragments = tt
    builds-MirrorAll (fragment f fs) = (build_raw-Mirrors f, builds-MirrorAll fs)

    pub build_nillable-MirrorOne :
        (q : Nillable V)
        → MirrorOne (build_nillable scan_all q) (build_nillable scan_all (erase_nillable q))
    build_nillable-MirrorOne nil = tt
    build_nillable-MirrorOne (set q) = build_raw-Mirrors q

    pub build_select-Mirrors :
        (q : SelectQuery V)
        → Mirrors (build_select scan_all q) (build_select scan_all (erase_select q))
    build_select-Mirrors
          (select_query withs columns from joins conditions group_by having distinct distinct_on
            order_by limit offset lock_for_update skip_locked) =
        Mirrors-then (build_with-Mirrors _ _ (builds-MirrorAll withs)) (
          Mirrors-then
            (build_columns-Mirrors distinct _ _ _ _ (builds-MirrorAll distinct_on)
              (builds-MirrorAll columns))
            (Mirrors-then (build_clause-Mirrors " FROM " ", " _ _ (builds-MirrorAll from)) (
              Mirrors-then (build_clause-Mirrors " " " " _ _ (builds-MirrorAll joins)) (
                Mirrors-then (build_where-Mirrors _ _ (builds-MirrorAll conditions)) (
                  Mirrors-then
                    (build_clause-Mirrors " GROUP BY " ", " _ _ (builds-MirrorAll group_by))
                    (Mirrors-then (build_having-Mirrors _ _ (builds-MirrorAll having)) (
                      Mirrors-then
                        (build_clause-Mirrors " ORDER BY " ", " _ _ (builds-MirrorAll order_by))
                        (Mirrors-then
                          (build_bound-Mirrors " LIMIT " _ _ (build_nillable-MirrorOne limit))
                          (Mirrors-then
                            (build_bound-Mirrors " OFFSET " _ _ (build_nillable-MirrorOne offset))
                            (build_lock-Mirrors lock_for_update skip_locked))))))))))

-- The text that is sent, or the panic of the build.
abbrev pub sql_of : {V : Type 0} → Outcome (SqlQuery V) → Outcome String
sql_of (done q) = done q.sql
sql_of (panicked e) = panicked e

abbrev pub select_text : {V : Type 0} → (String → List Token) → SelectQuery V → Outcome String
select_text scan_all q = sql_of (build_query (record { build = build_select scan_all q }))

finish_text :
    {V : Type 0} (r : Outcome (Unit {0})) (w : Writer V)
    → sql_of (finish r (erase_writer w)) ≡ sql_of (finish r w)
finish_text (done u) w = refl
finish_text (panicked e) w = refl

pub erased_text :
    {V : Type 0} (scan_all : String → List Token) (q : SelectQuery V)
    → select_text scan_all (erase_select q) ≡ select_text scan_all q
unfolding build_query erase_select
erased_text scan_all q =
    ap (λ (p : Outcome (Unit {0}) × Writer (Unit {0})). sql_of (finish p.0 p.1))
      ((build_select-Mirrors scan_all q).at empty_writer)
    ∙ finish_text _ _

-- Two queries that differ only in the strings and values that they bind are built to the same
-- text, or to the same panic.
pub select_text-erased :
    {V : Type 0} (scan_all : String → List Token) (q q' : SelectQuery V)
    → erase_select q ≡ erase_select q'
    → select_text scan_all q ≡ select_text scan_all q'
select_text-erased scan_all q q' h =
    sym (erased_text scan_all q) ∙ ap (select_text scan_all) h ∙ erased_text scan_all q'
