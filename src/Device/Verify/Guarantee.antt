-- ===== src/Device/Verify/Guarantee.antt =====
-- Looking a code up and claiming it changes a device code only along its life.
use better_auth_rs.Prelude.{ℕ, String, Option, none, some}
use better_auth_rs.Error.{AuthResult, ok, err, unauthenticated}
use better_auth_rs.Request.{AuthRequest}
use better_auth_rs.Store.Rely.{Keeps}
use better_auth_rs.Store.Frames.{frame_rules}
use better_auth_rs.Store.Db.{User, Session, DeviceCode}
use better_auth_rs.Session.Token.Frame.{require_session-Keeps}
use better_auth_rs.Device.Config.{ServerConfig}
use better_auth_rs.Device.Lifecycle.{Evolves}
use better_auth_rs.Device.Progress.{Evolves-Frames, claim-Keeps, read_by_user_code-Keeps}
use better_auth_rs.Device.Verify.{claim_as, claim, verify_found, verify_code, handle_device_verify}

module _ (server : ServerConfig) (id : String) (clock : ℕ → ℕ) (req : AuthRequest) where
  claim_as-Keeps :
      (c : DeviceCode) (r : AuthResult (User × Session)) → Keeps (Evolves id) (claim_as server c r)
  unfolding claim_as
  claim_as-Keeps c (ok (u, s)) = search (frame_rules, Evolves-Frames, claim-Keeps)
  claim_as-Keeps c (err unauthenticated) = search (frame_rules, Evolves-Frames)
  claim_as-Keeps c (err e) = search (frame_rules, Evolves-Frames)

  caller-Keeps : (c : DeviceCode) → Keeps (Evolves id) (claim server clock req c)
  unfolding claim
  caller-Keeps c = search (frame_rules, Evolves-Frames, require_session-Keeps, claim_as-Keeps)

  verify_found-Keeps :
      (code : String) (o : Option DeviceCode)
      → Keeps (Evolves id) (verify_found server clock req code o)
  unfolding verify_found
  verify_found-Keeps code none = search (frame_rules, Evolves-Frames)
  verify_found-Keeps code (some c) = search (frame_rules, Evolves-Frames, caller-Keeps)

  verify_code-Keeps : (o : Option String) → Keeps (Evolves id) (verify_code server clock req o)
  unfolding verify_code
  verify_code-Keeps none = search (frame_rules, Evolves-Frames)
  verify_code-Keeps (some code) =
      search (frame_rules, Evolves-Frames, read_by_user_code-Keeps, verify_found-Keeps)

  pub handle_device_verify-Keeps : Keeps (Evolves id) (handle_device_verify server clock req)
  unfolding handle_device_verify
  handle_device_verify-Keeps = search verify_code-Keeps
