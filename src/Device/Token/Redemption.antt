-- ===== src/Device/Token/Redemption.antt =====
-- A token is given for an approved code alone, and once.
use better_auth_rs.Prelude.{
  ℕ, ◌≤◌, String, Bool, true, false, not, Option, none, some, ◌≡◌, ◌≢◌, refl, sym, ap, ◌∙◌, subst,
  arith, inl, inr, Bool-cases, ◌==◌, if◌then◌else◌,
}
use better_auth_rs.Error.{AuthResult, ok, err}
use better_auth_rs.Request.{AuthRequest, parsed}
use better_auth_rs.Store.{World, Exec, lift, ◌>>=◌}
use better_auth_rs.Store.Rely.{Relies}
use better_auth_rs.Store.Triple.{After, Ensures}
use better_auth_rs.Store.Answers.{bind_ok, bind_first}
use better_auth_rs.Store.Db.{User, DeviceCode, Db}
use better_auth_rs.Device.Codes.{
  Reply, error_reply, token_reply, DeviceTokenRequest, approved, device_grant_type,
}
use better_auth_rs.Device.Config.{
  DeviceConfig, ServerConfig, Random, device_error, validate_client_id,
}
use better_auth_rs.Device.Statements
use better_auth_rs.Device.Statements.{has_id, has_status}
use better_auth_rs.Device.Lifecycle.{Evolves, IsKey, row}
use better_auth_rs.Device.Token.{
  is_mismatch, polled_too_soon, redeem_for, token_for, lookup_token, handle_device_token,
}
use better_auth_rs.Device.Token.Deletion.{IsGone, IsRedeemed, refused, redeem_for-IsGone}
use better_auth_rs.Device.Token.Stages.{poll-Ensures}

-- What a device code must have been when it was read for a poll to yield a token: of the client that
-- polls, not polled within the interval, not expired, approved, and of some user.
pub record IsRedeemable (server : ServerConfig) (plugin : DeviceConfig) (now : ℕ)
    (client_id : String) (c : DeviceCode) : Type 0 where
  pub same_client : is_mismatch server plugin c.client_id client_id ≡ false
  pub patient : polled_too_soon server plugin now c.last_polled_at c.polling_interval ≡ false
  pub fresh : now ≤ c.expires_at
  pub is_approved : c.status ≡ approved
  pub user : String
  pub of_user : c.user_id ≡ some user

module _ (server : ServerConfig) (plugin : DeviceConfig) (clock : ℕ → ℕ) (random : Random)
    (req : AuthRequest) where
  token_for-Ensures :
      (body : DeviceTokenRequest) (c : DeviceCode)
      → Ensures
          (Evolves c.id)
          (IsKey c.id)
          (token_for server plugin clock random req body (some c))
          (IsRedeemed (IsRedeemable server plugin (clock 0) body.client_id c) c.id)
  unfolding token_for
  token_for-Ensures body c =
      elim (Bool-cases (is_mismatch server plugin c.client_id body.client_id)) [
        | inl m ↦ rw m (refused _ c.id (IsKey c.id) _ _ _)
        | inr m ↦
            elim (Bool-cases
              (polled_too_soon server plugin (clock 0) c.last_polled_at c.polling_interval)) [
                | inl p ↦ rw (m, p) (refused _ c.id (IsKey c.id) _ _ _)
                | inr p ↦
                    rw (m, p)
                      (poll-Ensures server plugin clock random req
                        (IsRedeemable server plugin (clock 0) body.client_id c) c
                        (λ a f u e. record {
                          same_client = m;
                          patient = p;
                          fresh = ground arith;
                          is_approved = a;
                          user = u;
                          of_user = e;
                        }))
              ]
      ]

  token_for-some :
      (body : DeviceTokenRequest) (o : Option DeviceCode) (w : World Db) (t : String) (e : ℕ)
      (s : String)
      → (token_for server plugin clock random req body o w).0 ≡ ok (token_reply t e s)
      → (c : DeviceCode) × (o ≡ some c)
  unfolding token_for ◌>>=◌
  token_for-some body none w t e s h = absurd (err_is_no_token h)
    where
      err_is_no_token :
          ok (error_reply 400 "invalid_grant" "Invalid device code") ≢ ok (token_reply t e s)
      err_is_no_token h = cc
  token_for-some body (some c) w t e s h = (c, refl)

  -- The tests before the lookup let the call through, or the reply is no token.
  admitted :
      (m : Exec Db Reply) (v : AuthResult Bool) (w : World Db) (t : String) (e : ℕ) (s : String)
      → ((lift v >>= λ valid.
            if valid then m else device_error 400 "invalid_grant" "Invalid client ID")
          w).0
        ≡ ok (token_reply t e s)
      → (lift v >>= λ valid.
            if valid then m else device_error 400 "invalid_grant" "Invalid client ID")
          w
        ≡ m w
  unfolding ◌>>=◌
  admitted m (ok true) w t e s h = refl
  admitted m (ok false) w t e s h = absurd (no_token h)
    where
      no_token : ok (error_reply 400 "invalid_grant" "Invalid client ID") ≢ ok (token_reply t e s)
      no_token h = cc
  admitted m (err f) w t e s h = absurd (no_token h)
    where
      no_token : err f ≢ ok (token_reply t e s)
      no_token h = cc

  through :
      (body : DeviceTokenRequest) (w : World Db) (t : String) (e : ℕ) (s : String)
      → (handle_device_token server plugin clock random req (parsed body) w).0
        ≡ ok (token_reply t e s)
      → handle_device_token server plugin clock random req (parsed body) w
        ≡ lookup_token server plugin clock random req body w
  unfolding handle_device_token ◌>>=◌
  through body w t e s = go (body.grant_type == device_grant_type)
    where
      go :
          (b : Bool)
          → let reply =
              if not b
              then device_error 400 "invalid_request" "Invalid request"
              else (lift (validate_client_id plugin body.client_id) >>= λ valid.
                  if valid
                  then lookup_token server plugin clock random req body
                  else device_error 400 "invalid_grant" "Invalid client ID") in
            (reply w).0 ≡ ok (token_reply t e s)
            → reply w ≡ lookup_token server plugin clock random req body w
      go true h = admitted _ (validate_client_id plugin body.client_id) w t e s h
      go false h = absurd (no_token h)
        where
          no_token :
              ok (error_reply 400 "invalid_request" "Invalid request") ≢ ok (token_reply t e s)
          no_token h = cc

  lookup_token_sound :
      (body : DeviceTokenRequest) (w : World Db) (t : String) (e : ℕ) (s : String)
      → ((c : DeviceCode)
          → (Statements.get_device_code_by_device_code body.device_code w).0 ≡ ok (some c)
          → Relies
              (Evolves c.id)
              (Statements.get_device_code_by_device_code body.device_code w).1.schedule)
      → ((c : DeviceCode)
          → (Statements.get_device_code_by_device_code body.device_code w).0 ≡ ok (some c)
          → IsKey c.id (Statements.get_device_code_by_device_code body.device_code w).1.db)
      → (lookup_token server plugin clock random req body w).0 ≡ ok (token_reply t e s)
      → (c : DeviceCode) × ((Statements.get_device_code_by_device_code body.device_code w).0
          ≡ ok (some c))
        × IsRedeemable server plugin (clock 0) body.client_id c
        × (row c.id (lookup_token server plugin clock random req body w).1.db ≡ none)
  unfolding lookup_token
  lookup_token_sound body w t e s rely keys h =
      let (o, found, rest) =
        bind_ok (Statements.get_device_code_by_device_code body.device_code)
          (token_for server plugin clock random req body) w (token_reply t e s) h in
      let (c, same) = token_for-some body o _ t e s rest in
      let found' = found ∙ ap ok same in
      let whole =
        bind_first (Statements.get_device_code_by_device_code body.device_code)
          (token_for server plugin clock random req body) w (some c) found' in
      let (_, _, after) = (token_for-Ensures body c).at _ (rely c found') (keys c found') in
      let (gone, facts) = redeemed_of _ c.id _ _ after (sym (ap (λ r. r.0) whole) ∙ h) in
      (c, found', facts, ap (λ x. row c.id x.1.db) whole ∙ gone)
    where
      redeemed_of :
          (F : Type 0) (id : String) (r : AuthResult Reply) (d : Db)
          → After (Evolves id) (IsRedeemed F id) r d
          → r ≡ ok (token_reply t e s)
          → (row id d ≡ none) × F
      redeemed_of F id r d after same =
          subst (λ r. After (Evolves id) (IsRedeemed F id) r d) same after t e s refl

  -- A poll that is answered with a token: its first read found a code that was issued to the polling
  -- client or to none, not polled within the interval, unexpired at that time, and approved for some
  -- user; and the row of the code is gone from the database the poll leaves. The code that was read
  -- has a unique identifier then, and the requests that run between the later statements keep its
  -- life; they may issue, claim and decide other codes.
  pub handle_device_token_sound :
      (body : DeviceTokenRequest) (w : World Db) (t : String) (e : ℕ) (s : String)
      → ((c : DeviceCode)
          → (Statements.get_device_code_by_device_code body.device_code w).0 ≡ ok (some c)
          → Relies
              (Evolves c.id)
              (Statements.get_device_code_by_device_code body.device_code w).1.schedule)
      → ((c : DeviceCode)
          → (Statements.get_device_code_by_device_code body.device_code w).0 ≡ ok (some c)
          → IsKey c.id (Statements.get_device_code_by_device_code body.device_code w).1.db)
      → (handle_device_token server plugin clock random req (parsed body) w).0
        ≡ ok (token_reply t e s)
      → (c : DeviceCode) × ((Statements.get_device_code_by_device_code body.device_code w).0
          ≡ ok (some c))
        × IsRedeemable server plugin (clock 0) body.client_id c
        × (row c.id (handle_device_token server plugin clock random req (parsed body) w).1.db
            ≡ none)
  handle_device_token_sound body w t e s rely keys h =
      let same = through body w t e s h in
      let (c, found, facts, gone) =
        lookup_token_sound body w t e s rely keys (sym (ap (λ r. r.0) same) ∙ h) in
      (c, found, facts, ap (λ x. row c.id x.1.db) same ∙ gone)

  -- A redemption that starts when the row of its code is gone, which had a unique identifier, gives no
  -- token, whatever other requests that keep the life of the code do meanwhile: of two polls that both
  -- read the approved row, the one that comes second to the deletion gets nothing.
  pub redeem_for_once :
      (c : DeviceCode) (user_id : String) (o : Option User) (w : World Db) (t : String) (e : ℕ)
      (s : String)
      → Relies (Evolves c.id) w.schedule
      → IsGone c.id w.db
      → (redeem_for server plugin clock random req c user_id o w).0 ≢ ok (token_reply t e s)
  redeem_for_once c user_id o w t e s rely gone h =
      let (_, _, after) =
        (redeem_for-IsGone server plugin clock random req (Unit {0}) c user_id o).at w rely gone in
      no_token_of _ _ after h
    where
      no_token_of :
          (r : AuthResult Reply) (d : Db)
          → After
              (Evolves c.id)
              (λ reply d. (t : String) (e : ℕ) (s : String) → reply ≢ token_reply t e s)
              r
              d
          → r ≢ ok (token_reply t e s)
      no_token_of r d after same =
          subst
            (λ r.
              After (Evolves c.id)
                (λ reply d. (t : String) (e : ℕ) (s : String) → reply ≢ token_reply t e s) r d)
            same after t e s refl
