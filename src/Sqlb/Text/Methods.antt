-- ===== src/Sqlb/Text/Methods.antt =====
-- The methods of a select query, sqlb/select.go, on a query without its values.
use holvit_backend.Prelude.{String, List, [], ◌∷◌, map, ◌≡◌, refl, ap}
use holvit_backend.Go.{Outcome, done, panicked, ◌>>◌, pure, continue}
use holvit_backend.Sqlb.Syntax.{Any, string, param, Fragments, no_fragments, fragment}
use holvit_backend.Sqlb.Fragment.{
  append_fragments, to_params, make_raw_fragment, make_raw_fragments,
}
use holvit_backend.Sqlb.Select.{
  Selection, Method, to_query, add_from, add_where, add_order_by, set_limit, set_offset, number,
}
use holvit_backend.Sqlb.Text.{
  erase_raw, erase_any, erase_params, erase_fragments, erase_nillable, erase_select,
}

module _ {V : Type 0} where
  abbrev pub erase_selection : Selection V → Selection (Unit {0})
  erase_selection s = record {
    withs = erase_fragments s.withs;
    columns = erase_fragments s.columns;
    from = erase_fragments s.from;
    joins = erase_fragments s.joins;
    conditions = erase_fragments s.conditions;
    group_by = erase_fragments s.group_by;
    having = erase_fragments s.having;
    distinct = s.distinct;
    distinct_on = erase_fragments s.distinct_on;
    order_by = erase_fragments s.order_by;
    limit = erase_nillable s.limit;
    offset = erase_nillable s.offset;
    lock_for_update = s.lock_for_update;
    skip_locked = s.skip_locked;
  }

  abbrev erase_step : Outcome (Unit {0}) × Selection V → Outcome (Unit {0}) × Selection (Unit {0})
  erase_step (r, s) = (r, erase_selection s)

  -- What the one does to a selection, the other does to the selection without its values.
  pub record Follows (m : Method V) (m' : Method (Unit {0})) : Type 0 where
    pub at : (s : Selection V) → m' (erase_selection s) ≡ erase_step (m s)

  pub erase-append_fragments :
      (fs gs : Fragments V)
      → erase_fragments (append_fragments fs gs)
        ≡ append_fragments (erase_fragments fs) (erase_fragments gs)
  unfolding erase_fragments
  erase-append_fragments no_fragments gs = refl
  erase-append_fragments (fragment f fs) gs =
      ap (fragment (erase_raw f)) (erase-append_fragments fs gs)

  Follows-continue :
      (k : Method V) (k' : Method (Unit {0})) (r : Outcome (Unit {0})) (s : Selection V)
      → Follows k k'
      → continue (λ u. k') r (erase_selection s) ≡ erase_step (continue (λ u. k) r s)
  Follows-continue k k' (done u) s h = h.at s
  Follows-continue k k' (panicked e) s h = refl

  pub Follows-then :
      {m k : Method V} {m' k' : Method (Unit {0})}
      → Follows m m'
      → Follows k k'
      → Follows (m >> k) (m' >> k')
  Follows-then {m} {k} {m'} {k'} h hk = record {
    at = λ s. rw (h.at s) (Follows-continue k k' (m s).0 (m s).1 hk);
  }

  pub Follows-skip : Follows (pure tt) (pure tt)
  Follows-skip = record { at = λ s. refl }

  erase-to_params :
      (params : List (Any V)) → erase_params (to_params params) ≡ to_params (map erase_any params)
  unfolding erase_params
  erase-to_params [] = refl
  erase-to_params (p ∷ params) = ap (param (erase_any p)) (erase-to_params params)

  pub Follows-where :
      (condition : String) (params : List (Any V))
      → Follows
          (add_where (string condition) params)
          (add_where (string condition) (map erase_any params))
  unfolding add_where make_raw_fragment erase_raw
  Follows-where condition params = record {
    at = λ s. rw (erase-append_fragments, erase-to_params params) refl;
  }

  pub Follows-from : (table : String) → Follows (add_from (string table)) (add_from (string table))
  unfolding add_from make_raw_fragment erase_raw
  Follows-from table = record { at = λ s. rw (erase-append_fragments) refl }

  pub Follows-order_by :
      (field : String)
      → Follows (add_order_by (string field ∷ [])) (add_order_by (string field ∷ []))
  unfolding add_order_by make_raw_fragment make_raw_fragments erase_raw
  Follows-order_by field = record { at = λ s. rw (erase-append_fragments) refl }

  pub Follows-limit : (v : V) → Follows (set_limit (number v)) (set_limit (number tt))
  unfolding set_limit make_raw_fragment erase_raw
  Follows-limit v = record { at = λ s. refl }

  pub Follows-offset : (v : V) → Follows (set_offset (number v)) (set_offset (number tt))
  unfolding set_offset make_raw_fragment erase_raw
  Follows-offset v = record { at = λ s. refl }

  pub erase-to_query : (s : Selection V) → erase_select (to_query s) ≡ to_query (erase_selection s)
  unfolding erase_select
  erase-to_query s = refl
