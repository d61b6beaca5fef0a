-- ===== src/ApiKey/Requests.antt =====
-- What the handlers of API keys take and answer: crates/api/src/plugins/api_key/types.rs, and `ApiKeyView`
-- of crates/core/src/wire.rs.
use better_auth_rs.Prelude.{ℕ, ℤ, String, Bool, Option, none, some}
use better_auth_rs.Store.Db.{ApiKey}
use better_auth_rs.ApiKey.Permissions.{JsonCrate}

module _ (json : JsonCrate) where
  pub record CreateKeyRequest : Type 0 where
    pub config_id : Option String
    pub organization_id : Option String
    pub name : Option String
    pub prefix : Option String
    pub expires_in : Option ℤ
    pub remaining : Option ℤ
    pub rate_limit_enabled : Option Bool
    pub rate_limit_time_window : Option ℤ
    pub rate_limit_max : Option ℤ
    pub refill_interval : Option ℤ
    pub refill_amount : Option ℤ
    pub permissions : Option json.Value
    pub metadata : Option json.Value

  -- `expires_in` is absent, null or a number of seconds.
  pub record UpdateKeyRequest : Type 0 where
    pub config_id : Option String
    pub key_id : String
    pub name : Option String
    pub enabled : Option Bool
    pub remaining : Option ℤ
    pub rate_limit_enabled : Option Bool
    pub rate_limit_time_window : Option ℤ
    pub rate_limit_max : Option ℤ
    pub refill_interval : Option ℤ
    pub refill_amount : Option ℤ
    pub permissions : Option json.Value
    pub metadata : Option json.Value
    pub expires_in : Option (Option ℤ)

  pub record ApiKeyView : Type 0 where
    pub id : String
    pub name : Option String
    pub start : Option String
    pub prefix : Option String
    pub reference_id : String
    pub config_id : String
    pub refill_interval : Option ℤ
    pub refill_amount : Option ℤ
    pub last_refill_at : Option ℕ
    pub enabled : Bool
    pub rate_limit_enabled : Bool
    pub rate_limit_time_window : Option ℤ
    pub rate_limit_max : Option ℤ
    pub request_count : Option ℤ
    pub remaining : Option ℤ
    pub last_request : Option ℕ
    pub expires_at : Option ℕ
    pub created_at : ℕ
    pub updated_at : ℕ
    pub permissions : Option json.Value
    pub metadata : Option json.Value

  abbrev parsed_text : Option String → Option json.Value
  parsed_text none = none
  parsed_text (some text) = json.parse text

  abbrev pub view_of : ApiKey → ApiKeyView
  view_of key = record {
    id = key.id;
    name = key.name;
    start = key.start;
    prefix = key.prefix;
    reference_id = key.reference_id;
    config_id = key.config_id;
    refill_interval = key.refill_interval;
    refill_amount = key.refill_amount;
    last_refill_at = key.last_refill_at;
    enabled = key.enabled;
    rate_limit_enabled = key.rate_limit_enabled;
    rate_limit_time_window = key.rate_limit_time_window;
    rate_limit_max = key.rate_limit_max;
    request_count = key.request_count;
    remaining = key.remaining;
    last_request = key.last_request;
    expires_at = key.expires_at;
    created_at = key.created_at;
    updated_at = key.updated_at;
    permissions = parsed_text key.permissions;
    metadata = parsed_text key.metadata;
  }

pub record DeleteKeyRequest : Type 0 where
  pub config_id : Option String
  pub key_id : String

pub record ListKeysQuery : Type 0 where
  pub config_id : Option String
  pub organization_id : Option String
  pub limit : Option ℕ
  pub offset : Option ℕ
  pub sort_by : Option String
  pub sort_direction : Option String
