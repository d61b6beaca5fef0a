-- ===== src/Device/Verify.antt =====
-- `handle_device_verify` of device_authorization/mod.rs: a user looks a code up, and claims it.
-- `clock n` is the n-th reading of the clock in a call.
pub mod Guarantee
use better_auth_rs.Prelude.{
  ℕ, ◌+◌, String, Option, none, some, ◌==◌, ltb, if◌then◌else◌, without_char, is_none, ◌&&◌,
}
use better_auth_rs.Error.{AuthResult, ok, err, unauthenticated}
use better_auth_rs.Request.{AuthRequest, lookup}
use better_auth_rs.Store.{Exec, pure, throw, attempt, ◌>>=◌}
use better_auth_rs.Store.Db.{User, Session, DeviceCode, Db}
use better_auth_rs.Session.Token.{require_session}
use better_auth_rs.Device.Codes.{Reply, verify_reply, pending}
use better_auth_rs.Device.Statements
use better_auth_rs.Device.Config.{ServerConfig, device_error}

module _ (server : ServerConfig) where
  -- A signed-in caller claims the code; a caller with no session only reads its status.
  claim_as : DeviceCode → AuthResult (User × Session) → Exec Db (Unit {0})
  claim_as c (ok (user, s)) = do claimed ← Statements.claim_device_code c.id user.id; pure tt
  claim_as c (err unauthenticated) = pure tt
  claim_as c (err e) = throw e

  claim : (ℕ → ℕ) → AuthRequest → DeviceCode → Exec Db (Unit {0})
  unfolding claim_as
  claim clock req c =
      let caller =
        attempt (require_session server.split_parse server.session (λ n. clock (n + 1)) req)
        >>= claim_as c in
      if is_none c.user_id && c.status == pending then caller else pure tt

  verify_found : (ℕ → ℕ) → AuthRequest → String → Option DeviceCode → Exec Db Reply
  unfolding claim
  verify_found clock req user_code none = device_error 400 "invalid_request" "Invalid user code"
  verify_found clock req user_code (some c) =
      if ltb c.expires_at (clock 0)
      then device_error 400 "expired_token" "User code has expired"
      else do done ← claim clock req c; pure (verify_reply user_code c.status)

  verify_code : (ℕ → ℕ) → AuthRequest → Option String → Exec Db Reply
  unfolding verify_found
  verify_code clock req none = device_error 400 "invalid_request" "Invalid request"
  verify_code clock req (some user_code) = do
    found ← Statements.get_device_code_by_user_code (without_char b'-' user_code)
    verify_found clock req user_code found

  unfoldable pub handle_device_verify : (ℕ → ℕ) → AuthRequest → Exec Db Reply
  unfolding verify_code
  handle_device_verify clock req = verify_code clock req (lookup "user_code" req.query)
