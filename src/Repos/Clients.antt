-- ===== src/Repos/Clients.antt =====
-- repos/ClientRepository.go.
use holvit_backend.Prelude.{ℕ, String, List, [], ◌∷◌, Option, none}
use holvit_backend.Go.{plain_error, Outcome, done, Go, Result, ◌>>=◌, ◌>>◌, pure, lift}
use holvit_backend.Filter.{ℤ, PagedResult, single_or_none}
use holvit_backend.Sqlb.Syntax.{string, value, SelectQuery}
use holvit_backend.Sqlb.Select.{add_from, add_where}
use holvit_backend.Repos.Database.{
  Value, uuid, text, texts, string_slice, Database, Row, selected, unless_unique, begin, run_exec,
  create_unique,
}
use holvit_backend.Repos.Filters.{BaseFilter, by_id, count_col, if_some, page_and_sort}
use holvit_backend.Repos.Rows.{
  uuid_column, text_column, int_column, texts_column, text_or_null, end_of_row, find_paged, columns,
  nullable_text,
}
use holvit_backend.Sqlb.Query.{SqlQuery}
use holvit_backend.Prelude.{◌++◌}
use holvit_backend.Repos.Realms.{assigned}

pub record Client : Type 0 where
  pub id : ℕ
  pub realm_id : ℕ
  pub display_name : String
  pub client_id : String
  pub client_secret : Option String
  pub redirect_uris : List String

pub record ClientFilter : Type 0 where
  pub base : BaseFilter
  pub realm_id : Option ℕ
  pub client_id : Option String

pub record ClientUpdate : Type 0 where
  pub display_name : Option String
  pub redirect_uris : Option (List String)
  pub client_secret : Option String

-- the query of `FindClients`
unfoldable pub clients_query : ClientFilter → Outcome (SelectQuery Value)
unfolding selected add_from add_where page_and_sort
clients_query filter =
    selected (string (count_col filter.base))
      (columns (
        "id" ∷ "realm_id" ∷ "display_name" ∷ "client_id" ∷ "hashed_client_secret" ∷ "redirect_uris"
        ∷ []))
      (do
        add_from (string "clients")
        if_some filter.base.id λ x. add_where (string "id = ?") (value (uuid x) ∷ [])
        if_some filter.realm_id λ x. add_where (string "realm_id = ?") (value (uuid x) ∷ [])
        if_some filter.client_id λ x. add_where (string "client_id = ?") (string x ∷ [])
        page_and_sort filter.base)

unfoldable pub scan_client : Row (ℤ × Client)
scan_client = do
  total ← int_column
  id ← uuid_column
  realm_id ← uuid_column
  display_name ← text_column
  client_id ← text_column
  client_secret ← text_or_null
  redirect_uris ← texts_column
  end_of_row
  pure (
    total,
    record {
      id = id;
      realm_id = realm_id;
      display_name = display_name;
      client_id = client_id;
      client_secret = client_secret;
      redirect_uris = redirect_uris;
    },
  )

-- The statement of `CreateClient`, on one line where the source breaks it.
abbrev insert_client : Client → SqlQuery Value
insert_client client = record {
  sql =
      "insert into \"clients\" (\"realm_id\", \"display_name\", \"client_id\", \"hashed_client_secret\", \"redirect_uris\") values ($1, $2, $3, $4, $5) returning \"id\"";
  parameters =
      value (uuid client.realm_id)
      ∷ string client.display_name
      ∷ string client.client_id
      ∷ nullable_text client.client_secret
      ∷ value (texts client.redirect_uris)
      ∷ [];
}

unfoldable pub client_assignments : ClientUpdate → List (String × Value)
client_assignments upd =
    assigned "display_name" text upd.display_name
    ++ (assigned "redirect_uris" string_slice upd.redirect_uris
        ++ assigned "hashed_client_secret" text upd.client_secret)

module _ {W : Type 0} (db : Database W) where
  -- `FindClients`
  unfoldable pub find_clients : ClientFilter → Go W (PagedResult Client)
  unfolding find_paged clients_query scan_client
  find_clients filter = find_paged db (clients_query filter) scan_client

  -- `FindClientById`
  unfoldable pub find_client_by_id : ℕ → Go W (Option Client)
  unfolding find_clients
  find_client_by_id id = do
    found ← find_clients (record { base = by_id id; realm_id = none; client_id = none })
    lift (single_or_none found.values)

  -- `CreateClient`
  unfoldable pub create_client : Client → Go W (Result ℕ)
  unfolding create_unique
  create_client client =
      create_unique db (done (insert_client client)) "idx_unique_client_id_per_realm"
        (plain_error "Duplicate client id")

  -- `UpdateClient`
  unfoldable pub update_client : ℕ → ClientUpdate → Go W (Result (Unit {0}))
  unfolding client_assignments
  update_client id upd = do
    begin db
    r ← run_exec db (db.sqlbuilder_update "clients" (client_assignments upd) "id" (uuid id))
    lift (unless_unique "idx_unique_client_id_per_realm" (plain_error "Duplicate client id") r)
