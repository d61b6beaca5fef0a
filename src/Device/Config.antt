-- ===== src/Device/Config.antt =====
-- The configuration of device_authorization/mod.rs and its helpers. The `url` crate's operations, on
-- the texts that they print, the callbacks and generators of the configuration, and random values
-- are parameters.
use better_auth_rs.Prelude.{
  ℕ, String, Bool, true, Option, none, some, List, ◌==◌, if◌then◌else◌, unwrap_or,
}
use better_auth_rs.Error.{AuthResult, ok}
use better_auth_rs.Request.{AuthRequest, lookup}
use better_auth_rs.Store.{Exec, pure}
use better_auth_rs.Store.Db.{Db}
use better_auth_rs.Session.Manager.{SessionConfig}
use better_auth_rs.Session.Issue.{AdminMetadata}
use better_auth_rs.Device.Statements
use better_auth_rs.Device.Codes.{
  DeviceDecision, decision_status, Reply, error_reply, DeviceCodeRequest,
  default_generate_user_code,
}

-- `Url::parse`, `Url::join` and `query_pairs_mut().append_pair("user_code", …)`.
pub record UrlCrate : Type 0 where
  pub parse : String → Option String
  pub join : String → String → Option String
  pub append_user_code : String → String → String

-- `DeviceAuthorizationConfig`, its durations in nanoseconds; a generator is the value that it gives.
pub record DeviceConfig : Type 0 where
  pub expires_in : ℕ
  pub interval : ℕ
  pub generate_device_code : Option String
  pub generate_user_code : Option String
  pub validate_client : Option (String → AuthResult Bool)
  pub on_device_auth_request : Option (String → Option String → AuthResult (Unit {0}))
  pub verification_uri : Option String

-- What the server around the plugin is configured with.
pub record ServerConfig : Type 0 where
  pub base_url : String
  pub session : SessionConfig
  pub admin : AdminMetadata
  pub split_parse : String → List (Option (String × String))

-- The random values of one call.
pub record Random : Type 0 where
  pub row_id : String
  pub device_code : String
  pub user_code_bytes : List ℕ
  pub session_id : String
  pub session_token : String

abbrev pub device_error : ℕ → String → String → Exec Db Reply
device_error status error error_description = pure (error_reply status error error_description)

-- `RequestMeta::from_request`
abbrev pub non_empty : Option String → Option String
non_empty none = none
non_empty (some v) = if v == "" then none else some v

abbrev pub first_header : Option String → Option String → Option String
first_header none fallback = fallback
first_header (some v) fallback = some v

abbrev pub ip_address : AuthRequest → Option String
ip_address req =
    non_empty (first_header (lookup "x-forwarded-for" req.headers) (lookup "x-real-ip" req.headers))

abbrev pub validate_client_id : DeviceConfig → String → AuthResult Bool
validate_client_id plugin client_id = elim plugin.validate_client [
  | none ↦ ok true
  | some callback ↦ callback client_id
]

abbrev pub run_callback : DeviceConfig → DeviceCodeRequest → AuthResult (Unit {0})
run_callback plugin body = elim plugin.on_device_auth_request [
  | none ↦ ok tt
  | some callback ↦ callback body.client_id body.scope
]

abbrev pub device_code_of : DeviceConfig → Random → String
device_code_of plugin random = unwrap_or plugin.generate_device_code random.device_code

abbrev pub user_code_of : DeviceConfig → Random → String
user_code_of plugin random =
    unwrap_or plugin.generate_user_code (default_generate_user_code random.user_code_bytes)

-- The update that a poll makes, and the one that a decision makes.
abbrev pub polled_at : ℕ → Statements.UpdateDeviceCode
polled_at now = record { status = none; user_id = none; last_polled_at = some (some now) }

abbrev pub decided : DeviceDecision → String → Statements.UpdateDeviceCode
decided decision user_id = record {
  status = some (decision_status decision);
  user_id = some (some user_id);
  last_polled_at = none;
}
