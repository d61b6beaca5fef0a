-- ===== src/Device/Plugin/Contract.antt =====
-- The contract of the five handlers with the requests that run beside them.
use better_auth_rs.Prelude.{
  ℕ, String, none, some, ◌≡◌, ◌≢◌, ◌⊎◌, inl, inr, subst, arith, Option-cases, eq_iff,
}
use better_auth_rs.Store.{World}
use better_auth_rs.Store.Rely.{Relies}
use better_auth_rs.Store.Db.{DeviceCode, Db}
use better_auth_rs.Device.Codes.{approve, deny, approved}
use better_auth_rs.Device.Config.{UrlCrate, DeviceConfig, ServerConfig, Random}
use better_auth_rs.Device.Lifecycle.{Evolves, IsKey, row, Advances}
use better_auth_rs.Device.Grant.Guarantee.{handle_device_code-Keeps}
use better_auth_rs.Device.Token.Guarantee.{handle_device_token-Keeps}
use better_auth_rs.Device.Verify.Guarantee.{handle_device_verify-Keeps}
use better_auth_rs.Device.Decision.Guarantee.{handle_device_decision-Ensures}
use better_auth_rs.Device.Plugin.{
  Call, device_code, device_token, device_verify, device_approve, device_deny, handle,
}

module _ (url : UrlCrate) (server : ServerConfig) (plugin : DeviceConfig) (id : String)
    (clock : ℕ → ℕ) (random : Random) where
  -- While every other request keeps the life of an issued device code between the statements of a
  -- call, and whichever statement fails, the call keeps it too: the row of the identifier is never
  -- brought back once it is gone, is claimed at most once and only while pending, is decided at most
  -- once and only when claimed, and keeps its codes, its expiry and its client. The identifier is
  -- unique and the call's own new row has another one.
  pub handle-Evolves :
      (call : Call) (w : World Db)
      → random.row_id ≢ id
      → IsKey id w.db
      → Relies (Evolves id) w.schedule
      → Evolves id w.db (handle url server plugin clock random call w).1.db
  unfolding handle
  handle-Evolves (device_code body) w fresh u rely =
      ((handle_device_code-Keeps url server plugin id clock random fresh body).at w rely).0
  handle-Evolves (device_token req body) w fresh u rely =
      ((handle_device_token-Keeps server plugin id clock random req body).at w rely).0
  handle-Evolves (device_verify req) w fresh u rely =
      ((handle_device_verify-Keeps server id clock req).at w rely).0
  handle-Evolves (device_approve req body) w fresh u rely =
      ((handle_device_decision-Ensures server id clock approve body req).at w rely u).0
  handle-Evolves (device_deny req body) w fresh u rely =
      ((handle_device_decision-Ensures server id clock deny body req).at w rely u).0

  -- A code that is approved for a user stays that user's: after any call its row is gone or still
  -- approved for the same user, if its identifier is unique and not that of the call's own new row, and
  -- the other requests keep the life of the code.
  pub handle-keeps_approval :
      (call : Call) (w : World Db) (r : DeviceCode) (user_id : String)
      → random.row_id ≢ id
      → IsKey id w.db
      → Relies (Evolves id) w.schedule
      → row id w.db ≡ some r
      → r.status ≡ approved
      → r.user_id ≡ some user_id
      → (row id (handle url server plugin clock random call w).1.db ≡ none)
        ⊎ ((r' : DeviceCode) × (row id (handle url server plugin clock random call w).1.db
              ≡ some r')
            × (r'.status ≡ approved)
            × (r'.user_id ≡ some user_id))
  handle-keeps_approval call w r user_id fresh u rely here status claimed =
      elim (Option-cases (row id (handle url server plugin clock random call w).1.db)) [
        | inl gone ↦ inl gone
        | inr (r', there) ↦
            let (r₀, e, step) = (handle-Evolves call w fresh u rely).advances u r' there in
            let same : r₀ ≡ r = cc in
            let kept = subst (λ x. Advances x r') same step in
            inr (
              r',
              there,
              ground (arith, kept.decided_once, eq_iff "approved" "pending"),
              ground (arith, kept.claimed_once),
            )
      ]
