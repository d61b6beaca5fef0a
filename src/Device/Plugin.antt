-- ===== src/Device/Plugin.antt =====
-- The plugin's routes (`impl_auth_plugin!` in device_authorization/mod.rs).
pub mod Contract
use better_auth_rs.Prelude.{ℕ, String}
use better_auth_rs.Request.{AuthRequest, Parsed}
use better_auth_rs.Store.{Exec}
use better_auth_rs.Store.Db.{Db}
use better_auth_rs.Device.Codes.{Reply, DeviceCodeRequest, DeviceTokenRequest, approve, deny}
use better_auth_rs.Device.Config.{UrlCrate, DeviceConfig, ServerConfig, Random}
use better_auth_rs.Device.Grant.{handle_device_code}
use better_auth_rs.Device.Token.{handle_device_token}
use better_auth_rs.Device.Verify.{handle_device_verify}
use better_auth_rs.Device.Decision.{handle_device_decision}

-- A request to one of the five routes, its body as the validator leaves it.
pub data Call : Type 0 where
  device_code : Parsed DeviceCodeRequest Reply → Call
  device_token : AuthRequest → Parsed DeviceTokenRequest Reply → Call
  device_verify : AuthRequest → Call
  device_approve device_deny : AuthRequest → Parsed String Reply → Call

module _ (url : UrlCrate) (server : ServerConfig) (plugin : DeviceConfig) where
  unfoldable pub handle : (ℕ → ℕ) → Random → Call → Exec Db Reply
  handle clock random (device_code body) = handle_device_code url server plugin clock random body
  handle clock random (device_token req body) =
      handle_device_token server plugin clock random req body
  handle clock random (device_verify req) = handle_device_verify server clock req
  handle clock random (device_approve req body) =
      handle_device_decision server clock req body approve
  handle clock random (device_deny req body) = handle_device_decision server clock req body deny
