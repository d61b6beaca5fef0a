-- ===== src/Device/Statements.antt =====
-- crates/seaorm/src/store/device_codes.rs
use better_auth_rs.Prelude.{
  ℕ, String, Bool, Option, none, some, List, ◌∷◌, eqb, ◌==◌, ◌&&◌, if◌then◌else◌, is_none,
  unwrap_or,
}
use better_auth_rs.Error.{AuthResult, ok, err, not_found, database}
use better_auth_rs.Store.{Exec, query, read, pure, throw, ◌>>=◌}
use better_auth_rs.Store.Table.{find, update_where, delete_where, count}
use better_auth_rs.Store.Db.{DeviceCode, Db}

abbrev pub set_codes : Db → List DeviceCode → Db
set_codes d l = record d { device_codes = l }

abbrev pub has_id : String → DeviceCode → Bool
has_id id c = c.id == id

abbrev pub has_device_code : String → DeviceCode → Bool
has_device_code code c = c.device_code == code

abbrev pub has_user_code : String → DeviceCode → Bool
has_user_code code c = c.user_code == code

abbrev pub has_status : String → String → DeviceCode → Bool
has_status id status c = c.id == id && c.status == status

abbrev pub is_unclaimed : String → DeviceCode → Bool
is_unclaimed id c = c.id == id && (c.status == "pending" && is_none c.user_id)

-- `UpdateDeviceCode`: a field that is `none` is left alone.
pub record UpdateDeviceCode : Type 0 where
  pub status : Option String
  pub user_id : Option (Option String)
  pub last_polled_at : Option (Option ℕ)

abbrev pub apply_update : UpdateDeviceCode → DeviceCode → DeviceCode
apply_update u c = record c {
  status = unwrap_or u.status c.status;
  user_id = unwrap_or u.user_id c.user_id;
  last_polled_at = unwrap_or u.last_polled_at c.last_polled_at;
}

unfoldable pub create_device_code : DeviceCode → Exec Db DeviceCode
create_device_code row = query (λ d. (ok row, set_codes d (row ∷ d.device_codes)))

unfoldable pub get_device_code_by_device_code : String → Exec Db (Option DeviceCode)
get_device_code_by_device_code code = read (λ d. find (has_device_code code) d.device_codes)

unfoldable pub get_device_code_by_user_code : String → Exec Db (Option DeviceCode)
get_device_code_by_user_code code = read (λ d. find (has_user_code code) d.device_codes)

abbrev pub update_row : String → UpdateDeviceCode → Db → AuthResult (Unit {0}) × Db
update_row id u d =
    if eqb (count (has_id id) d.device_codes) 0
    then (err (database "record not updated"), d)
    else (ok tt, set_codes d (update_where (has_id id) (apply_update u) d.device_codes))

unfoldable pub or_not_found : Option DeviceCode → Exec Db DeviceCode
or_not_found none = throw (not_found "Device code not found")
or_not_found (some c) = pure c

unfoldable pub update_device_code : String → UpdateDeviceCode → Exec Db (Unit {0})
unfolding or_not_found
update_device_code id u = do
  found ← read (λ d. find (has_id id) d.device_codes)
  model ← or_not_found found
  query (update_row model.id u)

-- An update or a deletion under a condition, with whether it affected exactly one row.
abbrev pub update_if : (DeviceCode → Bool) → (DeviceCode → DeviceCode) → Db → AuthResult Bool × Db
update_if p f d =
    (ok (eqb (count p d.device_codes) 1), set_codes d (update_where p f d.device_codes))

abbrev pub delete_if : (DeviceCode → Bool) → Db → AuthResult Bool × Db
delete_if p d = (ok (eqb (count p d.device_codes) 1), set_codes d (delete_where p d.device_codes))

unfoldable pub update_device_code_if_status : String → String → UpdateDeviceCode → Exec Db Bool
update_device_code_if_status id status u = query (update_if (has_status id status) (apply_update u))

abbrev pub claimed_by : String → DeviceCode → DeviceCode
claimed_by user_id c = record c { user_id = some user_id }

unfoldable pub claim_device_code : String → String → Exec Db Bool
claim_device_code id user_id = query (update_if (is_unclaimed id) (claimed_by user_id))

unfoldable pub delete_device_code : String → Exec Db (Unit {0})
delete_device_code id = query (λ d. (ok tt, set_codes d (delete_where (has_id id) d.device_codes)))

unfoldable pub delete_device_code_if_status : String → String → Exec Db Bool
delete_device_code_if_status id status = query (delete_if (has_status id status))
