-- ===== src/Repos/UserDevices.antt =====
-- repos/UserDeviceRepository.go.
use holvit_backend.Prelude.{ℕ, String, [], ◌∷◌, Option, none}
use holvit_backend.Go.{Outcome, Go, ◌>>=◌, ◌>>◌, pure, lift}
use holvit_backend.Filter.{ℤ, PagedResult, single_or_none}
use holvit_backend.Sqlb.Syntax.{string, value, SelectQuery}
use holvit_backend.Sqlb.Select.{add_from, add_where}
use holvit_backend.Sqlb.Insert.{add_values, add_returning}
use holvit_backend.Repos.Database.{
  Value, uuid, time, bytes, Database, Row, selected, inserted, build_of_insert, create,
}
use holvit_backend.Repos.Filters.{BaseFilter, by_id, count_col, if_some, page_and_sort}
use holvit_backend.Repos.Rows.{
  uuid_column, text_column, bytes_column, int_column, time_column, end_of_row, find_paged, columns,
  id_column,
}

pub record UserDevice : Type 0 where
  pub id : ℕ
  pub user_id : ℕ
  pub display_name : String
  pub device_id : String
  pub user_agent : String
  pub last_ip : String
  pub last_login_at : ℕ

pub record UserDeviceFilter : Type 0 where
  pub base : BaseFilter
  pub device_id : Option String
  pub user_id : Option ℕ

-- the query of `FindUserDevices`
unfoldable pub user_devices_query : UserDeviceFilter → Outcome (SelectQuery Value)
unfolding selected add_from add_where page_and_sort
user_devices_query filter =
    selected (string (count_col filter.base))
      (columns (
        "id" ∷ "user_id" ∷ "device_id" ∷ "display_name" ∷ "user_agent" ∷ "last_ip" ∷ "last_login_at"
        ∷ []))
      (do
        add_from (string "user_devices")
        if_some filter.base.id λ x. add_where (string "id = ?") (value (uuid x) ∷ [])
        if_some filter.device_id λ x. add_where (string "device_id = ?") (string x ∷ [])
        if_some filter.user_id λ x. add_where (string "user_id = ?") (value (uuid x) ∷ [])
        page_and_sort filter.base)

unfoldable pub scan_user_device : Row (ℤ × UserDevice)
scan_user_device = do
  total ← int_column
  id ← uuid_column
  user_id ← uuid_column
  device_id ← text_column
  display_name ← text_column
  user_agent ← text_column
  last_ip ← bytes_column
  last_login_at ← time_column
  end_of_row
  pure (
    total,
    record {
      id = id;
      user_id = user_id;
      display_name = display_name;
      device_id = device_id;
      user_agent = user_agent;
      last_ip = last_ip;
      last_login_at = last_login_at;
    },
  )

module _ {W : Type 0} (db : Database W) where
  -- `FindUserDevices`
  unfoldable pub find_user_devices : UserDeviceFilter → Go W (PagedResult UserDevice)
  unfolding find_paged user_devices_query scan_user_device
  find_user_devices filter = find_paged db (user_devices_query filter) scan_user_device

  -- `FindUserDeviceById`
  unfoldable pub find_user_device_by_id : ℕ → Go W (Option UserDevice)
  unfolding find_user_devices
  find_user_device_by_id id = do
    found ← find_user_devices (record { base = by_id id; device_id = none; user_id = none })
    lift (single_or_none found.values)

  -- `CreateUserDevice`
  unfoldable pub create_user_device : UserDevice → Go W ℕ
  unfolding create
  create_user_device device = create db (
      build_of_insert db (
        inserted "user_devices"
          ("user_id" ∷ "device_id" ∷ "display_name" ∷ "user_agent" ∷ "last_ip" ∷ "last_login_at"
            ∷ [])
          (do
            add_values (
                value (uuid device.user_id)
                ∷ string device.device_id
                ∷ string device.display_name
                ∷ string device.user_agent
                ∷ value (bytes device.last_ip)
                ∷ value (time device.last_login_at)
                ∷ [])
            add_returning id_column)))
