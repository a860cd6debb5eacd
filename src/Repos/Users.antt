-- ===== src/Repos/Users.antt =====
-- repos/UserRepository.go.
pub mod Search
pub mod Text
use holvit_backend.Prelude.{
  ℕ, String, str_append, str_eq, List, [], ◌∷◌, Bool, true, false, Option, none, some,
  if◌then◌else◌,
}
use holvit_backend.Go.{
  Error, plain_error, Outcome, done, panicked, Go, Result, ok, err, ◌>>=◌, ◌>>◌, pure, panic, lift,
}
use holvit_backend.Filter.{ℤ, pos, PagedResult, single_or_none}
use holvit_backend.Sqlb.Syntax.{Any, string, value, raw, SelectQuery}
use holvit_backend.Sqlb.Fragment.{exists_query}
use holvit_backend.Sqlb.Select
use holvit_backend.Sqlb.Select.{add_columns, add_from, add_where, add_order_by, add_join, set_lock}
use holvit_backend.Sqlb.Insert.{
  InsertQuery, add_values, add_returning, on_conflict, do_nothing_on_conflict,
}
use holvit_backend.Sqlb.Insert
use holvit_backend.Sqlb.Update.{UpdateQuery, add_set}
use holvit_backend.Sqlb.Update
use holvit_backend.Sqlb.Delete.{DeleteQuery}
use holvit_backend.Sqlb.Delete
use holvit_backend.Repos.Database.{
  Value, null, uuid, text, int, bool, time, uuids, texts, bytes, DbError, DbResult, answer, refused,
  pq_error, other_error, Database, Row, selected, inserted, updated, deleted, build_of_insert,
  build_of_update, build_of_delete, answer_or_panic, unless_unique, begin, run_exec, run_query,
  run_query_row, execute, create, create_unique,
}
use holvit_backend.Repos.Filters.{BaseFilter, by_id, no_filter, count_col, if_some, page_and_sort}
use holvit_backend.Repos.Rows.{
  uuid_column, text_column, bytes_column, int_column, bool_column, time_column, uuids_column,
  texts_column, uuid_or_null, text_or_null, end_of_row, find_rows, find_paged, columns,
  nullable_text, nullable_uuid, id_column,
}
use holvit_backend.Sqlb.Query.{SqlQuery}
use Prim.Native.Char.{code}
use holvit_backend.Prelude.{◌==◌, leb, ◌&&◌, ◌||◌}
use holvit_backend.Auth.Env.{User}

pub record UserFilter : Type 0 where
  pub base : BaseFilter
  pub realm_id : Option ℕ
  pub username : Option String

-- `unicode.IsSpace`
abbrev is_space : ℕ → Bool
is_space c =
    (leb 9 c && leb c 13)
    || c == 32
    || c == 0x85
    || c == 0xA0
    || c == 0x1680
    || (leb 0x2000 c && leb c 0x200A)
    || c == 0x2028
    || c == 0x2029
    || c == 0x202F
    || c == 0x205F
    || c == 0x3000

-- The field read so far, if it is not empty, before the other fields.
abbrev with_field : String → List String → List String
with_field word rest = if str_eq word "" then rest else word ∷ rest

-- `strings.Fields`: `word` is the beginning of the field that is being read.
unfoldable pub fields_from : String → String → List String
fields_from word String.[] = with_field word []
fields_from word (String.◌∷◌ c s) =
    let after_space = with_field word (fields_from "" s) in
    let longer = fields_from (str_append word (String.◌∷◌ c String.[])) s in
    if is_space (code c) then after_space else longer

-- `strings.Replace(str, c, new, -1)` of a rune
unfoldable pub replace_rune : ℕ → String → String → String
replace_rune c new String.[] = String.[]
replace_rune c new (String.◌∷◌ d s) =
    if code d == c
    then str_append new (replace_rune c new s)
    else String.◌∷◌ d (replace_rune c new s)

-- The pattern of a word of the search, in which no character is a wildcard.
unfoldable pub search_pattern : String → String
unfolding replace_rune
search_pattern word =
    let escaped =
      replace_rune b'_' "\\_" (replace_rune b'%' "\\%" (replace_rune b'\\' "\\\\" word)) in
    str_append "%" (str_append escaped "%")

-- the loop over the words
unfoldable pub search_words : List String → Select.Method Value
unfolding add_where search_pattern
search_words [] = pure tt
search_words (word ∷ words) =
    let condition =
      add_where (string "username ILIKE ? OR email ILIKE ?")
        (string (search_pattern word) ∷ string (search_pattern word) ∷ []) in
    do if str_eq word "" then pure tt else condition; search_words words

-- the calls of `FindUsers` on its query
unfoldable pub users_setup : UserFilter → Select.Method Value
unfolding add_from add_where search_words fields_from page_and_sort
users_setup filter = do
  add_from (string "users")
  if_some filter.base.id λ x. add_where (string "id = ?") (value (uuid x) ∷ [])
  if_some filter.realm_id λ x. add_where (string "realm_id = ?") (value (uuid x) ∷ [])
  if_some filter.username λ x. add_where (string "username = lower(?)") (string x ∷ [])
  page_and_sort filter.base
  if_some filter.base.search_text λ x. search_words (fields_from "" x)

-- the query of `FindUsers`
unfoldable pub users_query : UserFilter → Outcome (SelectQuery Value)
unfolding selected users_setup
users_query filter =
    selected (string (count_col filter.base))
      (columns ("id" ∷ "realm_id" ∷ "username" ∷ "email" ∷ "email_verified" ∷ []))
      (users_setup filter)

unfoldable pub scan_user : Row (ℤ × User)
scan_user = do
  total ← int_column
  id ← uuid_column
  realm_id ← uuid_column
  username ← text_column
  email ← text_or_null
  email_verified ← bool_column
  end_of_row
  pure (
    total,
    record {
      id = id;
      realm_id = realm_id;
      username = username;
      email = email;
      email_verified = email_verified;
    },
  )

module _ {W : Type 0} (db : Database W) where
  -- `FindUsers`
  unfoldable pub find_users : UserFilter → Go W (PagedResult User)
  unfolding find_paged users_query scan_user
  find_users filter = find_paged db (users_query filter) scan_user

  -- `FindUserById`
  unfoldable pub find_user_by_id : ℕ → Go W (Option User)
  unfolding find_users
  find_user_by_id id = do
    found ← find_users (record { base = by_id id; realm_id = none; username = none })
    lift (single_or_none found.values)

  -- `CreateUser`
  unfoldable pub create_user : User → Go W (Result ℕ)
  unfolding create_unique
  create_user user =
      create_unique db
        (build_of_insert db (
          inserted "users" ("realm_id" ∷ "username" ∷ "email" ∷ "email_verified" ∷ []) (do
            add_values (
                value (uuid user.realm_id)
                ∷ string user.username
                ∷ nullable_text user.email
                ∷ value (bool user.email_verified)
                ∷ [])
            add_returning id_column)))
        "idx_unique_username_per_realm" (plain_error "Duplicate username")
