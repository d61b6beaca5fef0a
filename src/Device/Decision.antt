-- ===== src/Device/Decision.antt =====
-- `handle_device_decision` of device_authorization/mod.rs: the user approves or denies the code.
-- `clock n` is the n-th reading of the clock in a call.
pub mod Guarantee
pub mod Soundness
use better_auth_rs.Prelude.{
  ℕ, ◌+◌, String, not, Option, none, some, ◌==◌, ltb, if◌then◌else◌, without_char,
}
use better_auth_rs.Error.{AuthResult, ok, err, unauthenticated, session_not_found}
use better_auth_rs.Request.{AuthRequest, Parsed, parsed, rejected}
use better_auth_rs.Store.{Exec, pure, throw, attempt, ◌>>=◌}
use better_auth_rs.Store.Db.{User, Session, DeviceCode, Db}
use better_auth_rs.Session.Token.{require_session}
use better_auth_rs.Device.Codes.{
  Reply, action_reply, DeviceDecision, decision_status, forbidden_message, pending,
}
use better_auth_rs.Device.Statements
use better_auth_rs.Device.Config.{decided, ServerConfig, device_error}

module _ (server : ServerConfig) where
  pub decide_claimed : DeviceDecision → User → DeviceCode → Option String → Exec Db Reply
  decide_claimed decision user c none =
      device_error 400 "invalid_request"
        "Device code has not been claimed by a verifying session; call `GET /device` with the `user_code` while signed in before approving or denying"
  decide_claimed decision user c (some claimant) =
      if not (claimant == user.id)
      then device_error 403 "access_denied" (forbidden_message decision)
      else do
        updated ← Statements.update_device_code_if_status c.id pending (decided decision claimant)
        if updated
            then pure action_reply
            else device_error 400 "invalid_request" "Device code already processed"

  pub decide_found : (ℕ → ℕ) → DeviceDecision → User → Option DeviceCode → Exec Db Reply
  unfolding decide_claimed
  decide_found clock decision user none = device_error 400 "invalid_request" "Invalid user code"
  decide_found clock decision user (some c) =
      if ltb c.expires_at (clock 0)
      then device_error 400 "expired_token" "User code has expired"
      else if not (c.status == pending)
      then device_error 400 "invalid_request" "Device code already processed"
      else decide_claimed decision user c c.user_id

  pub decide_body : (ℕ → ℕ) → DeviceDecision → User → Parsed String Reply → Exec Db Reply
  unfolding decide_found
  decide_body clock decision user (rejected response) = pure response
  decide_body clock decision user (parsed user_code) = do
    found ← Statements.get_device_code_by_user_code (without_char b'-' user_code)
    decide_found clock decision user found

  pub decide_caller :
      (ℕ → ℕ) → DeviceDecision → Parsed String Reply → AuthResult (User × Session) → Exec Db Reply
  unfolding decide_body
  decide_caller clock decision body (ok (user, s)) = decide_body clock decision user body
  decide_caller clock decision body (err unauthenticated) =
      device_error 401 "unauthorized" "Authentication required"
  decide_caller clock decision body (err session_not_found) =
      device_error 401 "unauthorized" "Authentication required"
  decide_caller clock decision body (err e) = throw e

  unfoldable pub handle_device_decision :
      (ℕ → ℕ) → AuthRequest → Parsed String Reply → DeviceDecision → Exec Db Reply
  unfolding decide_caller
  handle_device_decision clock req body decision = do
    caller ← attempt (require_session server.split_parse server.session (λ n. clock (n + 1)) req)
    decide_caller clock decision body caller
