-- ===== src/Device/Grant.antt =====
-- `handle_device_code` and `build_verification_uris` of device_authorization/mod.rs. `clock n` is
-- the n-th reading of the clock in a call.
pub mod Guarantee
use better_auth_rs.Prelude.{ℕ, ◌+◌, ◌/◌, String, Option, none, some, pos, if◌then◌else◌, unwrap_or}
use better_auth_rs.Error.{AuthResult, ok, err, bad_request, config}
use better_auth_rs.Request.{Parsed, parsed, rejected}
use better_auth_rs.Store.{Exec, pure, lift, ◌>>=◌}
use better_auth_rs.Store.Db.{DeviceCode, Db}
use better_auth_rs.Device.Codes.{Reply, code_reply, DeviceCodeRequest, pending}
use better_auth_rs.Device.Statements
use better_auth_rs.Device.Config.{
  UrlCrate, DeviceConfig, ServerConfig, Random, device_error, validate_client_id, run_callback,
  device_code_of, user_code_of,
}

module _ (url : UrlCrate) where
  joined_url : Option String → AuthResult String
  joined_url none = err (bad_request "Invalid verification URI")
  joined_url (some u) = ok u

  relative_url : String → Option String → AuthResult String
  unfolding joined_url
  relative_url uri none = err (config "Invalid base URL")
  relative_url uri (some base) = joined_url (url.join base uri)

  absolute_url : String → String → Option String → AuthResult String
  unfolding relative_url
  absolute_url uri base_url none = relative_url uri (url.parse base_url)
  absolute_url uri base_url (some u) = ok u

  -- The plain URI; `build_verification_uris` appends the user code to it for the second one.
  pub verification_url : Option String → String → AuthResult String
  unfolding absolute_url
  verification_url verification_uri base_url =
      let uri = unwrap_or verification_uri "/device" in absolute_url uri base_url (url.parse uri)

module _ (url : UrlCrate) (server : ServerConfig) (plugin : DeviceConfig) where
  abbrev pub new_row : (ℕ → ℕ) → Random → DeviceCodeRequest → DeviceCode
  new_row clock random body = record {
    id = random.row_id;
    device_code = device_code_of plugin random;
    user_code = user_code_of plugin random;
    user_id = none;
    expires_at = clock 0 + plugin.expires_in;
    status = pending;
    last_polled_at = none;
    polling_interval = some (pos (plugin.interval / 1_000_000));
    client_id = some body.client_id;
    scope = body.scope;
  }

  issue_code : (ℕ → ℕ) → Random → DeviceCodeRequest → Exec Db Reply
  issue_code clock random body = do
    called ← lift (run_callback plugin body)
    row ← Statements.create_device_code (new_row clock random body)
    uri ← lift (verification_url url plugin.verification_uri server.base_url)
    pure (
        code_reply (device_code_of plugin random) (user_code_of plugin random) uri
          (url.append_user_code uri (user_code_of plugin random))
          (plugin.expires_in / 1_000_000_000) (plugin.interval / 1_000_000_000))

  unfoldable pub handle_device_code :
      (ℕ → ℕ) → Random → Parsed DeviceCodeRequest Reply → Exec Db Reply
  unfolding issue_code
  handle_device_code clock random (rejected response) = pure response
  handle_device_code clock random (parsed body) = do
    valid ← lift (validate_client_id plugin body.client_id)
    if valid
        then issue_code clock random body
        else device_error 400 "invalid_client" "Invalid client ID"
