-- ===== src/Store/Db.antt =====
-- The tables that the modelled code reads and writes (crates/core/src/types.rs, types_org.rs,
-- types_plugin.rs, and crates/core/src/entity.rs for users and sessions). Columns that no modelled
-- code reads are left out. Instants are nanoseconds since an epoch before them all.
use better_auth_rs.Prelude.{ℕ, ℤ, String, Bool, Option, List}

pub record User : Type 0 where
  pub id : String
  pub email : String
  pub role : Option String
  pub banned : Bool
  pub ban_reason : Option String
  pub ban_expires : Option ℕ
  pub updated_at : ℕ

pub record Session : Type 0 where
  pub id : String
  pub token : String
  pub user_id : String
  pub created_at : ℕ
  pub updated_at : ℕ
  pub expires_at : ℕ
  pub active : Bool
  pub active_organization_id : Option String
  pub ip_address : Option String
  pub user_agent : Option String
  pub impersonated_by : Option String

pub record DeviceCode : Type 0 where
  pub id : String
  pub device_code : String
  pub user_code : String
  pub user_id : Option String
  pub expires_at : ℕ
  pub status : String
  pub last_polled_at : Option ℕ
  pub polling_interval : Option ℤ
  pub client_id : Option String
  pub scope : Option String

pub record Member : Type 0 where
  pub id : String
  pub organization_id : String
  pub user_id : String
  pub role : String
  pub created_at : ℕ

-- `i32` and `i64` columns are integers; the store's range checks are written out where it makes
-- them.
pub record ApiKey : Type 0 where
  pub id : String
  pub name : Option String
  pub start : Option String
  pub prefix : Option String
  pub key_hash : String
  pub reference_id : String
  pub config_id : String
  pub refill_interval : Option ℤ
  pub refill_amount : Option ℤ
  pub last_refill_at : Option ℕ
  pub enabled : Bool
  pub rate_limit_enabled : Bool
  pub rate_limit_time_window : Option ℤ
  pub rate_limit_max : Option ℤ
  pub request_count : Option ℤ
  pub remaining : Option ℤ
  pub last_request : Option ℕ
  pub expires_at : Option ℕ
  pub created_at : ℕ
  pub updated_at : ℕ
  pub permissions : Option String
  pub metadata : Option String

pub record Db : Type 0 where
  pub users : List User
  pub sessions : List Session
  pub device_codes : List DeviceCode
  pub members : List Member
  pub api_keys : List ApiKey
