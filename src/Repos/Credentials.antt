-- ===== src/Repos/Credentials.antt =====
-- repos/CredentialsRepository.go.
use holvit_backend.Prelude.{ℕ, String, str_eq, [], ◌∷◌, Option, none, some, if◌then◌else◌}
use holvit_backend.Go.{plain_error, Outcome, done, Go, Result, ◌>>=◌, ◌>>◌, pure, panic, lift}
use holvit_backend.Filter.{ℤ, PagedResult, single_or_none}
use holvit_backend.Sqlb.Syntax.{string, value, SelectQuery}
use holvit_backend.Sqlb.Select.{add_from, add_where}
use holvit_backend.Sqlb.Insert.{add_values, add_returning}
use holvit_backend.Repos.Database.{
  Value, uuid, bytes, Database, Row, selected, inserted, build_of_insert, execute, create_unique,
}
use holvit_backend.Repos.Filters.{BaseFilter, by_id, count_col, if_some, page_and_sort}
use holvit_backend.Repos.Rows.{
  uuid_column, text_column, bytes_column, int_column, end_of_row, find_paged, columns, id_column,
}
use holvit_backend.Auth.Env.{CredentialDetails}

pub record Credential : Type 0 where
  pub id : ℕ
  pub user_id : ℕ
  pub credential_type : String
  pub details : CredentialDetails

pub record CredentialFilter : Type 0 where
  pub base : BaseFilter
  pub user_id : Option ℕ
  pub credential_type : Option String

-- `json.Marshal` of either type of details, and `json.Unmarshal` for the two types
pub record DetailsJson : Type 0 where
  pub marshal : CredentialDetails → String
  pub unmarshal_password : String → Option CredentialDetails
  pub unmarshal_totp : String → Option CredentialDetails

-- the query of `FindCredentials`
unfoldable pub credentials_query : CredentialFilter → Outcome (SelectQuery Value)
unfolding selected add_from add_where page_and_sort
credentials_query filter =
    selected (string (count_col filter.base)) (columns ("id" ∷ "user_id" ∷ "type" ∷ "details" ∷ []))
      (do
        add_from (string "credentials")
        if_some filter.base.id λ x. add_where (string "id = ?") (value (uuid x) ∷ [])
        if_some filter.user_id λ x. add_where (string "user_id = ?") (value (uuid x) ∷ [])
        if_some filter.credential_type λ x. add_where (string "type = ?") (string x ∷ [])
        page_and_sort filter.base)

abbrev pub details_or_panic : Option CredentialDetails → Row CredentialDetails
details_or_panic none = panic (plain_error "invalid JSON")
details_or_panic (some details) = pure details

module _ (json : DetailsJson) where
  -- `switch row.Type`; another type ends the program, as a panic here.
  abbrev credential_details : (credential_type details_raw : String) → Row CredentialDetails
  credential_details credential_type details_raw =
      if str_eq credential_type "password"
      then details_or_panic (json.unmarshal_password details_raw)
      else if str_eq credential_type "totp"
      then details_or_panic (json.unmarshal_totp details_raw)
      else panic (plain_error "Unsupported hash algorithm")

  unfoldable pub scan_credential : Row (ℤ × Credential)
  scan_credential = do
    total ← int_column
    id ← uuid_column
    user_id ← uuid_column
    credential_type ← text_column
    details_raw ← bytes_column
    end_of_row
    details ← credential_details credential_type details_raw
    pure (
      total,
      record { id = id; user_id = user_id; credential_type = credential_type; details = details },
    )

  module _ {W : Type 0} (db : Database W) where
    -- `CreateCredential`
    unfoldable pub create_credential : Credential → Go W (Result ℕ)
    unfolding create_unique
    create_credential credential =
        create_unique db
          (build_of_insert db (
            inserted "credentials" ("user_id" ∷ "type" ∷ "details" ∷ []) (do
              add_values (
                  value (uuid credential.user_id)
                  ∷ string credential.credential_type
                  ∷ value (bytes (json.marshal credential.details))
                  ∷ [])
              add_returning id_column)))
          "idx_only_one_password_per_user" (plain_error "Duplicate password")

    -- `FindCredentials`
    unfoldable pub find_credentials : CredentialFilter → Go W (PagedResult Credential)
    unfolding find_paged credentials_query scan_credential
    find_credentials filter = find_paged db (credentials_query filter) scan_credential

    -- `FindCredentialById`
    unfoldable pub find_credential_by_id : ℕ → Go W (Option Credential)
    unfolding find_credentials
    find_credential_by_id id = do
      found ← find_credentials (record { base = by_id id; user_id = none; credential_type = none })
      lift (single_or_none found.values)

module _ {W : Type 0} (db : Database W) where
  -- `DeleteCredential`
  unfoldable pub delete_credential : ℕ → Go W (Unit {0})
  unfolding execute
  delete_credential id = execute db (done (db.sqlbuilder_delete "credentials" "id" (uuid id)))
