-- ===== src/Device/Token.antt =====
-- `handle_device_token` of device_authorization/mod.rs: the device polls for its session. `clock n`
-- is the n-th reading of the clock in a call.
pub mod Guarantee
pub mod Deletion
pub mod Stages
pub mod Redemption
use better_auth_rs.Prelude.{
  ℕ, ℤ, ◌+◌, ◌-◌, ◌/◌, String, Bool, false, not, Option, none, some, ◌==◌, ltb, ltz, sub_ℕ,
  div_trunc, if◌then◌else◌, unwrap_or,
}
use better_auth_rs.Error.{AuthResult, ok, err}
use better_auth_rs.Request.{AuthRequest, lookup, Parsed, parsed, rejected}
use better_auth_rs.Store.{Exec, pure, lift, attempt, ◌>>=◌}
use better_auth_rs.Store.Db.{User, Session, DeviceCode, Db}
use better_auth_rs.Session.Issue.{get_user_by_id, issue_user_session}
use better_auth_rs.Device.Codes.{
  Reply, token_reply, DeviceTokenRequest, device_grant_type, pending, approved, denied,
}
use better_auth_rs.Device.Statements
use better_auth_rs.Device.Config.{
  polled_at, DeviceConfig, ServerConfig, Random, device_error, ip_address, validate_client_id,
}

module _ (server : ServerConfig) (plugin : DeviceConfig) where
  abbrev pub is_mismatch : Option String → String → Bool
  is_mismatch none client_id = false
  is_mismatch (some stored) client_id = not (stored == client_id)

  -- Whether fewer milliseconds than the interval have passed since the last poll.
  abbrev pub polled_too_soon : ℕ → Option ℕ → Option ℤ → Bool
  polled_too_soon now none interval = false
  polled_too_soon now (some last) none = false
  polled_too_soon now (some last) (some interval) =
      ltz (div_trunc (sub_ℕ now last) 1_000_000) interval

  -- Whole seconds until the session ends, at least 0.
  abbrev pub seconds_left : ℕ → Session → ℕ
  seconds_left now s = (s.expires_at / 1_000_000 - now / 1_000_000) / 1000

  pub session_reply : (ℕ → ℕ) → DeviceCode → AuthResult Session → Exec Db Reply
  session_reply clock c (ok s) =
      pure (token_reply s.token (seconds_left (clock 1) s) (unwrap_or c.scope ""))
  session_reply clock c (err e) = device_error 500 "server_error" "Failed to create session"

  pub redeem_for :
      (ℕ → ℕ) → Random → AuthRequest → DeviceCode → String → Option User → Exec Db Reply
  unfolding session_reply
  redeem_for clock random req c user_id none = device_error 500 "server_error" "User not found"
  redeem_for clock random req c user_id (some user) = do
    won ← Statements.delete_device_code_if_status c.id approved
    if not won then device_error 400 "invalid_grant" "Invalid device code" else do
      issued ← attempt (
          issue_user_session server.session server.admin (λ n. clock (n + 2)) random.session_id
            random.session_token user.id (ip_address req) (lookup "user-agent" req.headers))
      session_reply clock c issued

  pub redeem : (ℕ → ℕ) → Random → AuthRequest → DeviceCode → Option String → Exec Db Reply
  unfolding redeem_for
  redeem clock random req c none = device_error 500 "server_error" "Invalid device code status"
  redeem clock random req c (some user_id) = do
    user ← get_user_by_id user_id
    redeem_for clock random req c user_id user

  delete_and_refuse : DeviceCode → String → String → Exec Db Reply
  delete_and_refuse c error error_description = do
    done ← Statements.delete_device_code c.id
    device_error 400 error error_description

  token_by_status : (ℕ → ℕ) → Random → AuthRequest → DeviceCode → Exec Db Reply
  unfolding redeem delete_and_refuse
  token_by_status clock random req c =
      if ltb c.expires_at (clock 0)
      then delete_and_refuse c "expired_token" "Device code has expired"
      else if c.status == pending
      then device_error 400 "authorization_pending" "Authorization pending"
      else if c.status == denied
      then delete_and_refuse c "access_denied" "Access denied"
      else if c.status == approved
      then redeem clock random req c c.user_id
      else device_error 500 "server_error" "Invalid device code status"

  pub poll : (ℕ → ℕ) → Random → AuthRequest → DeviceCode → Exec Db Reply
  unfolding token_by_status
  poll clock random req c = do
    done ← Statements.update_device_code c.id (polled_at (clock 0))
    token_by_status clock random req c

  pub token_for :
      (ℕ → ℕ) → Random → AuthRequest → DeviceTokenRequest → Option DeviceCode → Exec Db Reply
  unfolding poll
  token_for clock random req body none = device_error 400 "invalid_grant" "Invalid device code"
  token_for clock random req body (some c) =
      if is_mismatch c.client_id body.client_id
      then device_error 400 "invalid_grant" "Client ID mismatch"
      else if polled_too_soon (clock 0) c.last_polled_at c.polling_interval
      then device_error 400 "slow_down" "Polling too frequently"
      else poll clock random req c

  pub lookup_token : (ℕ → ℕ) → Random → AuthRequest → DeviceTokenRequest → Exec Db Reply
  unfolding token_for
  lookup_token clock random req body = do
    found ← Statements.get_device_code_by_device_code body.device_code
    token_for clock random req body found

  unfoldable pub handle_device_token :
      (ℕ → ℕ) → Random → AuthRequest → Parsed DeviceTokenRequest Reply → Exec Db Reply
  unfolding lookup_token
  handle_device_token clock random req (rejected response) = pure response
  handle_device_token clock random req (parsed body) =
      if not (body.grant_type == device_grant_type)
      then device_error 400 "invalid_request" "Invalid request"
      else do
        valid ← lift (validate_client_id plugin body.client_id)
        if valid
            then lookup_token clock random req body
            else device_error 400 "invalid_grant" "Invalid client ID"
