-- ===== src/Repos/ClaimMappers.antt =====
-- repos/ClaimMapperRepository.go.
use holvit_backend.Prelude.{ℕ, String, str_eq, List, [], ◌∷◌, Option, none, some, if◌then◌else◌}
use holvit_backend.Go.{plain_error, Outcome, Go, ◌>>=◌, ◌>>◌, pure, panic, lift}
use holvit_backend.Filter.{ℤ, PagedResult, single_or_none}
use holvit_backend.Sqlb.Syntax.{string, value, raw, SelectQuery}
use holvit_backend.Sqlb.Fragment.{exists_query}
use holvit_backend.Sqlb.Select
use holvit_backend.Sqlb.Select.{add_columns, add_from, add_where, add_order_by, add_join, set_lock}
use holvit_backend.Sqlb.Insert.{add_values, add_returning}
use holvit_backend.Repos.Database.{
  Value, uuid, uuids, bytes, Database, Row, selected, inserted, build_of_insert, create,
}
use holvit_backend.Repos.Filters.{BaseFilter, by_id, count_col, if_some, page_and_sort}
use holvit_backend.Repos.Rows.{
  uuid_column, text_column, bytes_column, int_column, end_of_row, find_paged, columns, id_column,
}

-- `RolesClaimMapperDetails` and `UserInfoClaimMapperDetails`
pub data ClaimMapperDetails : Type 0 where
  roles_details : (claim_name : String) → ClaimMapperDetails
  user_info_details : (claim_name property : String) → ClaimMapperDetails

pub record ClaimMapper : Type 0 where
  pub id : ℕ
  pub realm_id : ℕ
  pub display_name : String
  pub description : String
  pub mapper_type : String
  pub details : ClaimMapperDetails

pub record ClaimMapperFilter : Type 0 where
  pub base : BaseFilter
  pub realm_id : Option ℕ
  pub scope_ids : Option (List ℕ)

pub record AssociateScopeClaimRequest : Type 0 where
  pub claim_mapper_id : ℕ
  pub scope_id : ℕ

-- `json.Marshal` of either type of details, and `json.Unmarshal` for the two types
pub record MapperJson : Type 0 where
  pub marshal : ClaimMapperDetails → String
  pub unmarshal_user_info : String → Option ClaimMapperDetails
  pub unmarshal_roles : String → Option ClaimMapperDetails

-- the subquery on the claims of the scopes
abbrev scope_claims_query : List ℕ → Outcome (SelectQuery Value)
unfolding selected add_from add_where
scope_claims_query scope_ids = selected (string "1") [] (do
  add_from (string "scope_claims sc")
  add_where (string "sc.claim_mapper_id = c.id") []
  add_where (string "sc.scope_id = any(?::uuid[])") (value (uuids scope_ids) ∷ []))

abbrev where_exists : List ℕ → Select.Method Value
unfolding selected add_from add_where exists_query
where_exists scope_ids = do
  subquery ← lift (scope_claims_query scope_ids)
  exists ← exists_query subquery
  add_where (raw exists) []

-- the query of `FindClaimMappers`, which filters the realm by the id of the filter
unfoldable pub claim_mappers_query : ClaimMapperFilter → Outcome (SelectQuery Value)
unfolding selected add_from add_where exists_query page_and_sort
claim_mappers_query filter =
    selected (string (count_col filter.base))
      (columns
        ("c.id" ∷ "c.realm_id" ∷ "c.display_name" ∷ "c.description" ∷ "c.type" ∷ "c.details" ∷ []))
      (do
        add_from (string "claim_mappers c")
        if_some filter.base.id λ x. add_where (string "c.realm_id = ?") (value (uuid x) ∷ [])
        if_some filter.base.id λ x. add_where (string "c.id = ?") (value (uuid x) ∷ [])
        if_some filter.scope_ids where_exists
        page_and_sort filter.base)

abbrev pub details_or_panic : Option ClaimMapperDetails → Row ClaimMapperDetails
details_or_panic none = panic (plain_error "invalid JSON")
details_or_panic (some details) = pure details

module _ (json : MapperJson) where
  -- `switch row.Type`; another type ends the program, as a panic here.
  abbrev mapper_details : (mapper_type details_raw : String) → Row ClaimMapperDetails
  mapper_details mapper_type details_raw =
      if str_eq mapper_type "user_info"
      then details_or_panic (json.unmarshal_user_info details_raw)
      else if str_eq mapper_type "roles"
      then details_or_panic (json.unmarshal_roles details_raw)
      else panic (plain_error "Unsupported mapper type")

  unfoldable pub scan_claim_mapper : Row (ℤ × ClaimMapper)
  scan_claim_mapper = do
    total ← int_column
    id ← uuid_column
    realm_id ← uuid_column
    display_name ← text_column
    description ← text_column
    mapper_type ← text_column
    details_raw ← bytes_column
    end_of_row
    details ← mapper_details mapper_type details_raw
    pure (
      total,
      record {
        id = id;
        realm_id = realm_id;
        display_name = display_name;
        description = description;
        mapper_type = mapper_type;
        details = details;
      },
    )

  module _ {W : Type 0} (db : Database W) where
    -- `FindClaimMappers`
    unfoldable pub find_claim_mappers : ClaimMapperFilter → Go W (PagedResult ClaimMapper)
    unfolding find_paged claim_mappers_query scan_claim_mapper
    find_claim_mappers filter = find_paged db (claim_mappers_query filter) scan_claim_mapper

    -- `FindClaimMapperById`
    unfoldable pub find_claim_mapper_by_id : ℕ → Go W (Option ClaimMapper)
    unfolding find_claim_mappers
    find_claim_mapper_by_id id = do
      found ← find_claim_mappers (record { base = by_id id; realm_id = none; scope_ids = none })
      lift (single_or_none found.values)

    -- `CreateClaimMapper`
    unfoldable pub create_claim_mapper : ClaimMapper → Go W ℕ
    unfolding create
    create_claim_mapper mapper = create db (
        build_of_insert db (
          inserted "claim_mappers"
            ("realm_id" ∷ "display_name" ∷ "description" ∷ "type" ∷ "details" ∷ [])
            (do
              add_values (
                  value (uuid mapper.realm_id)
                  ∷ string mapper.display_name
                  ∷ string mapper.description
                  ∷ string mapper.mapper_type
                  ∷ value (bytes (json.marshal mapper.details))
                  ∷ [])
              add_returning id_column)))

module _ {W : Type 0} (db : Database W) where
  -- `AssociateClaimMapper`
  unfoldable pub associate_claim_mapper : AssociateScopeClaimRequest → Go W ℕ
  unfolding create
  associate_claim_mapper request = create db (
      build_of_insert db (
        inserted "scope_claims" ("scope_id" ∷ "claim_mapper_id" ∷ []) (do
          add_values (value (uuid request.scope_id) ∷ value (uuid request.claim_mapper_id) ∷ [])
          add_returning id_column)))
