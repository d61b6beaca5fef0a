-- ===== src/Device/Token/Stages.antt =====
-- The parts of a poll before the redemption.
use better_auth_rs.Prelude.{
  ℕ, String, false, Option, none, some, ◌≡◌, refl, inl, inr, Bool-cases, eq_iff, ltb, ◌==◌,
}
use better_auth_rs.Request.{AuthRequest}
use better_auth_rs.Store.Triple.{Ensures, Ensures_of_Keeps, Ensures-bind}
use better_auth_rs.Store.Db.{DeviceCode}
use better_auth_rs.Session.Issue.Frame.{get_user_by_id-Keeps}
use better_auth_rs.Device.Codes.{pending, approved, denied}
use better_auth_rs.Device.Config.{DeviceConfig, ServerConfig, Random}
use better_auth_rs.Device.Lifecycle.{Evolves, Evolves-trans, IsKey}
use better_auth_rs.Device.Progress.{Evolves-Frames, poll-Keeps, delete-Keeps}
use better_auth_rs.Device.Token.{redeem, delete_and_refuse, token_by_status, poll}
use better_auth_rs.Device.Token.Deletion.{IsRedeemed, IsKey-stable, refused, redeem_for-Ensures}

module _ (server : ServerConfig) (plugin : DeviceConfig) (clock : ℕ → ℕ) (random : Random)
    (req : AuthRequest) (F : Type 0) where
  redeem-Ensures :
      (c : DeviceCode) (o : Option String)
      → ((user_id : String) → o ≡ some user_id → F)
      → Ensures
          (Evolves c.id)
          (IsKey c.id)
          (redeem server plugin clock random req c o)
          (IsRedeemed F c.id)
  unfolding redeem
  redeem-Ensures c none f = refused F c.id (IsKey c.id) _ _ _
  redeem-Ensures c (some user_id) f =
      Ensures-bind (Evolves-trans c.id) (IsKey c.id) (λ _. IsKey c.id) (IsRedeemed F c.id) _ _
        (Ensures_of_Keeps (Evolves-trans c.id) (IsKey c.id) _ (IsKey-stable c.id)
          (get_user_by_id-Keeps (Evolves-Frames c.id) user_id))
        (λ o. redeem_for-Ensures server plugin clock random req F c user_id o (f user_id refl))

  delete_and_refuse-Ensures :
      (c : DeviceCode) (e m : String)
      → Ensures
          (Evolves c.id)
          (IsKey c.id)
          (delete_and_refuse server plugin c e m)
          (IsRedeemed F c.id)
  unfolding delete_and_refuse
  delete_and_refuse-Ensures c e m =
      Ensures-bind (Evolves-trans c.id) (IsKey c.id) (λ _. IsKey c.id) (IsRedeemed F c.id) _ _
        (Ensures_of_Keeps (Evolves-trans c.id) (IsKey c.id) _ (IsKey-stable c.id)
          (delete-Keeps c.id c.id))
        (λ _. refused F c.id (IsKey c.id) _ _ _)

  token_by_status-Ensures :
      (c : DeviceCode)
      → (c.status ≡ approved
          → ltb c.expires_at (clock 0) ≡ false
          → (user_id : String) → c.user_id ≡ some user_id
          → F)
      → Ensures
          (Evolves c.id)
          (IsKey c.id)
          (token_by_status server plugin clock random req c)
          (IsRedeemed F c.id)
  unfolding token_by_status
  token_by_status-Ensures c f = elim (Bool-cases (ltb c.expires_at (clock 0))) [
    | inl expired ↦ rw expired (delete_and_refuse-Ensures c _ _)
    | inr fresh ↦ elim (Bool-cases (c.status == pending)) [
      | inl p ↦ rw (fresh, p) (refused F c.id (IsKey c.id) _ _ _)
      | inr p ↦ elim (Bool-cases (c.status == denied)) [
        | inl n ↦ rw (fresh, p, n) (delete_and_refuse-Ensures c _ _)
        | inr n ↦ elim (Bool-cases (c.status == approved)) [
          | inl a ↦
              rw (fresh, p, n, a)
                (redeem-Ensures c c.user_id (f ((eq_iff c.status approved).0 a) fresh))
          | inr a ↦ rw (fresh, p, n, a) (refused F c.id (IsKey c.id) _ _ _)
        ]
      ]
    ]
  ]

  pub poll-Ensures :
      (c : DeviceCode)
      → (c.status ≡ approved
          → ltb c.expires_at (clock 0) ≡ false
          → (user_id : String) → c.user_id ≡ some user_id
          → F)
      → Ensures
          (Evolves c.id)
          (IsKey c.id)
          (poll server plugin clock random req c)
          (IsRedeemed F c.id)
  unfolding poll
  poll-Ensures c f =
      Ensures-bind (Evolves-trans c.id) (IsKey c.id) (λ _. IsKey c.id) (IsRedeemed F c.id) _ _
        (Ensures_of_Keeps (Evolves-trans c.id) (IsKey c.id) _ (IsKey-stable c.id)
          (poll-Keeps c.id c.id (clock 0)))
        (λ _. token_by_status-Ensures c f)
