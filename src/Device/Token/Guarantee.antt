-- ===== src/Device/Token/Guarantee.antt =====
-- Polling for a session changes a device code only along its life.
use better_auth_rs.Prelude.{ℕ, String, Option, none, some}
use better_auth_rs.Error.{AuthResult, ok, err}
use better_auth_rs.Request.{AuthRequest, Parsed, parsed, rejected}
use better_auth_rs.Store.Rely.{Keeps}
use better_auth_rs.Store.Frames.{frame_rules}
use better_auth_rs.Store.Db.{User, Session, DeviceCode}
use better_auth_rs.Session.Issue.Frame.{get_user_by_id-Keeps, issue_user_session-Keeps}
use better_auth_rs.Device.Codes.{Reply, DeviceTokenRequest}
use better_auth_rs.Device.Config.{DeviceConfig, ServerConfig, Random}
use better_auth_rs.Device.Lifecycle.{Evolves}
use better_auth_rs.Device.Progress.{
  Evolves-Frames, poll-Keeps, delete-Keeps, delete_if-Keeps, read_by_device_code-Keeps,
}
use better_auth_rs.Device.Token.{
  session_reply, redeem_for, redeem, delete_and_refuse, token_by_status, poll, token_for,
  lookup_token, handle_device_token,
}

module _ (server : ServerConfig) (plugin : DeviceConfig) (id : String) (clock : ℕ → ℕ)
    (random : Random) (req : AuthRequest) where
  session_reply-Keeps :
      (c : DeviceCode) (r : AuthResult Session)
      → Keeps (Evolves id) (session_reply server plugin clock c r)
  unfolding session_reply
  session_reply-Keeps c (ok s) = search (frame_rules, Evolves-Frames)
  session_reply-Keeps c (err e) = search (frame_rules, Evolves-Frames)

  pub redeem_for-Keeps :
      (c : DeviceCode) (user_id : String) (o : Option User)
      → Keeps (Evolves id) (redeem_for server plugin clock random req c user_id o)
  unfolding redeem_for
  redeem_for-Keeps c user_id none = search (frame_rules, Evolves-Frames)
  redeem_for-Keeps c user_id (some u) =
      search
        (
          frame_rules, Evolves-Frames, delete_if-Keeps, issue_user_session-Keeps,
          session_reply-Keeps,
        )
        depth 8

  redeem-Keeps :
      (c : DeviceCode) (o : Option String)
      → Keeps (Evolves id) (redeem server plugin clock random req c o)
  unfolding redeem
  redeem-Keeps c none = search (frame_rules, Evolves-Frames)
  redeem-Keeps c (some u) =
      search (frame_rules, Evolves-Frames, get_user_by_id-Keeps, redeem_for-Keeps)

  delete_and_refuse-Keeps :
      (c : DeviceCode) (e m : String) → Keeps (Evolves id) (delete_and_refuse server plugin c e m)
  unfolding delete_and_refuse
  delete_and_refuse-Keeps c e m = search (frame_rules, Evolves-Frames, delete-Keeps)

  token_by_status-Keeps :
      (c : DeviceCode) → Keeps (Evolves id) (token_by_status server plugin clock random req c)
  unfolding token_by_status
  token_by_status-Keeps c =
      search (frame_rules, Evolves-Frames, delete_and_refuse-Keeps, redeem-Keeps) depth 8

  poll-handler-Keeps : (c : DeviceCode) → Keeps (Evolves id) (poll server plugin clock random req c)
  unfolding poll
  poll-handler-Keeps c = search (frame_rules, Evolves-Frames, poll-Keeps, token_by_status-Keeps)

  token_for-Keeps :
      (body : DeviceTokenRequest) (o : Option DeviceCode)
      → Keeps (Evolves id) (token_for server plugin clock random req body o)
  unfolding token_for
  token_for-Keeps body none = search (frame_rules, Evolves-Frames)
  token_for-Keeps body (some c) = search (frame_rules, Evolves-Frames, poll-handler-Keeps)

  lookup_token-Keeps :
      (body : DeviceTokenRequest)
      → Keeps (Evolves id) (lookup_token server plugin clock random req body)
  unfolding lookup_token
  lookup_token-Keeps body =
      search (frame_rules, Evolves-Frames, read_by_device_code-Keeps, token_for-Keeps)

  -- Whatever a poll does, it keeps the life of every issued code, if other requests do.
  pub handle_device_token-Keeps :
      (body : Parsed DeviceTokenRequest Reply)
      → Keeps (Evolves id) (handle_device_token server plugin clock random req body)
  unfolding handle_device_token
  handle_device_token-Keeps (rejected r) = search (frame_rules, Evolves-Frames)
  handle_device_token-Keeps (parsed body) = search (frame_rules, Evolves-Frames, lookup_token-Keeps)
