-- ===== src/Repos/Realms.antt =====
-- repos/RealmRepository.go.
use holvit_backend.Prelude.{
  ℕ, String, str_eq, List, [], ◌∷◌, Bool, Option, none, some, if◌then◌else◌,
}
use holvit_backend.Go.{
  plain_error, Outcome, done, panicked, Go, Result, ok, err, ◌>>=◌, ◌>>◌, pure, lift,
}
use holvit_backend.Filter.{ℤ, PagedResult, single_or_none}
use holvit_backend.Sqlb.Syntax.{Any, string, value, SelectQuery}
use holvit_backend.Sqlb.Select.{add_from, add_where}
use holvit_backend.Sqlb.Insert.{add_values, add_returning}
use holvit_backend.Repos.Database.{
  Value, uuid, text, int, bool, bytes, DbResult, answer, refused, pq_error, other_error, Database,
  Row, selected, inserted, build_of_insert, unless_unique, begin, run_exec, run_query_row,
}
use holvit_backend.Repos.Filters.{BaseFilter, by_id, count_col, if_some, page_and_sort}
use holvit_backend.Repos.Rows.{
  uuid_column, text_column, bytes_column, int_column, bool_column, end_of_row, find_paged, columns,
  id_column,
}
use holvit_backend.Prelude.{◌++◌, ◌&&◌}

pub record Realm : Type 0 where
  pub id : ℕ
  pub name : String
  pub display_name : String
  pub encrypted_private_key : String
  pub require_username : Bool
  pub require_email : Bool
  pub require_device_verification : Bool
  pub require_totp : Bool
  pub enable_remember_me : Bool
  pub password_history_length : ℤ

pub record RealmFilter : Type 0 where
  pub base : BaseFilter
  pub name : Option String

pub record RealmUpdate : Type 0 where
  pub display_name : Option String
  pub name : Option String
  pub require_username : Option Bool
  pub require_email : Option Bool
  pub require_device_verification : Option Bool
  pub require_totp : Option Bool
  pub enable_remember_me : Option Bool

-- the query of `FindRealms`
unfoldable pub realms_query : RealmFilter → Outcome (SelectQuery Value)
unfolding selected add_from add_where page_and_sort
realms_query filter =
    selected (string (count_col filter.base))
      (columns (
        "id" ∷ "name" ∷ "display_name" ∷ "encrypted_private_key" ∷ "require_username"
        ∷ "require_email" ∷ "require_device_verification" ∷ "require_totp" ∷ "enable_remember_me"
        ∷ "password_history_length" ∷ []))
      (do
        add_from (string "realms")
        if_some filter.base.id λ x. add_where (string "id = ?") (value (uuid x) ∷ [])
        if_some filter.name λ x. add_where (string "name = ?") (string x ∷ [])
        page_and_sort filter.base)

unfoldable pub scan_realm : Row (ℤ × Realm)
scan_realm = do
  total ← int_column
  id ← uuid_column
  name ← text_column
  display_name ← text_column
  encrypted_private_key ← bytes_column
  require_username ← bool_column
  require_email ← bool_column
  require_device_verification ← bool_column
  require_totp ← bool_column
  enable_remember_me ← bool_column
  password_history_length ← int_column
  end_of_row
  pure (
    total,
    record {
      id = id;
      name = name;
      display_name = display_name;
      encrypted_private_key = encrypted_private_key;
      require_username = require_username;
      require_email = require_email;
      require_device_verification = require_device_verification;
      require_totp = require_totp;
      enable_remember_me = enable_remember_me;
      password_history_length = password_history_length;
    },
  )

-- the values of `CreateRealm`
abbrev realm_values : Realm → List (Any Value)
realm_values realm =
    string realm.name
    ∷ string realm.display_name
    ∷ value (bytes realm.encrypted_private_key)
    ∷ value (bool realm.require_username)
    ∷ value (bool realm.require_email)
    ∷ value (bool realm.require_device_verification)
    ∷ value (bool realm.require_totp)
    ∷ value (bool realm.enable_remember_me)
    ∷ value (int realm.password_history_length)
    ∷ []

-- `sb.Set(sb.Assign(column, x))` where there is an `x`; a call of `Set` adds to those before it.
abbrev pub assigned : {A : Type 0} → String → (A → Value) → Option A → List (String × Value)
assigned column make none = []
assigned column make (some x) = (column, make x) ∷ []

unfoldable pub realm_assignments : RealmUpdate → List (String × Value)
realm_assignments upd =
    assigned "name" text upd.name
    ++ (assigned "display_name" text upd.display_name
        ++ (assigned "require_username" bool upd.require_username
            ++ (assigned "require_email" bool upd.require_email
                ++ (assigned "require_totp" bool upd.require_totp
                    ++ (assigned "enable_remember_me" bool upd.enable_remember_me
                        ++ assigned "require_device_verification" bool
                            upd.require_device_verification)))))

-- What `UpdateRealm` makes of the database's answer: an error of PostgreSQL that is not a duplicate
-- name is dropped.
abbrev pub realm_updated : DbResult (Unit {0}) → Outcome (Result (Unit {0}))
realm_updated (answer _) = done (ok tt)
realm_updated (refused (other_error e)) = panicked e
realm_updated (refused (pq_error code class constraint message)) =
    if str_eq class "unique_violation" && str_eq constraint "idx_unique_realm_name"
    then done (err (plain_error "Duplicate username"))
    else done (ok tt)

module _ {W : Type 0} (db : Database W) where
  -- `FindRealms`
  unfoldable pub find_realms : RealmFilter → Go W (PagedResult Realm)
  unfolding find_paged realms_query scan_realm
  find_realms filter = find_paged db (realms_query filter) scan_realm

  -- `FindRealmById`
  unfoldable pub find_realm_by_id : ℕ → Go W (Option Realm)
  unfolding find_realms
  find_realm_by_id id = do
    found ← find_realms (record { base = by_id id; name = none })
    lift (single_or_none found.values)

  -- `CreateRealm`
  unfoldable pub create_realm : Realm → Go W (Result ℕ)
  create_realm realm = do
    begin db
    sql ← lift (
        build_of_insert db (
          inserted "realms"
            ("name" ∷ "display_name" ∷ "encrypted_private_key" ∷ "require_username"
              ∷ "require_email" ∷ "require_device_verification" ∷ "require_totp"
              ∷ "enable_remember_me" ∷ "password_history_length" ∷ [])
            (do add_values (realm_values realm); add_returning id_column)))
    r ← run_query_row db sql
    lift (unless_unique "idx_unique_realm_name" (plain_error "Duplicate username") r)

  -- `UpdateRealm`
  unfoldable pub update_realm : ℕ → RealmUpdate → Go W (Result (Unit {0}))
  unfolding realm_assignments
  update_realm id upd = do
    begin db
    r ← run_exec db (db.sqlbuilder_update "realms" (realm_assignments upd) "id" (uuid id))
    lift (realm_updated r)
