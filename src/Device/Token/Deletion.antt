-- ===== src/Device/Token/Deletion.antt =====
-- The last part of a poll: the row of an approved code is deleted, and who deleted it gets a session.
use better_auth_rs.Prelude.{ℕ, ◌+◌, String, true, false, Option, none, some, ◌≡◌, ◌≢◌, refl, arith}
use better_auth_rs.Error.{AuthResult, ok, err}
use better_auth_rs.Request.{AuthRequest, lookup}
use better_auth_rs.Store.{pure, attempt, ◌>>=◌}
use better_auth_rs.Store.Rely.{Keeps}
use better_auth_rs.Store.Triple.{
  Ensures, Ensures_absurd, Ensures-weaken, Ensures-pure, Ensures-query, Ensures_of_Keeps,
  Ensures-bind,
}
use better_auth_rs.Store.Frames.{frame_rules}
use better_auth_rs.Store.Table.{find_after_delete, count_of_absent}
use better_auth_rs.Store.Db.{User, Session, DeviceCode, Db}
use better_auth_rs.Session.Issue.{issue_user_session}
use better_auth_rs.Session.Issue.Frame.{issue_user_session-Keeps}
use better_auth_rs.Device.Codes.{Reply, error_reply, token_reply, approved}
use better_auth_rs.Device.Config.{DeviceConfig, ServerConfig, Random, ip_address}
use better_auth_rs.Device.Statements
use better_auth_rs.Device.Statements.{has_id, has_status}
use better_auth_rs.Device.Lifecycle.{
  Evolves, Evolves-refl, Evolves-trans, Evolves-absent, IsKey, row,
}
use better_auth_rs.Device.Progress.{Evolves-Frames, Evolves-delete}
use better_auth_rs.Device.Token.{session_reply, redeem_for}

-- The row of the identifier is gone.
abbrev pub IsGone : String → Db → Type 0
IsGone id d = IsKey id d × (row id d ≡ none)

pub IsGone-stable : (id : String) (d d' : Db) → Evolves id d d' → IsGone id d → IsGone id d'
IsGone-stable id d d' h (u, gone) = (h.keeps_key u, Evolves-absent id d d' h u gone)

pub IsKey-stable : (id : String) (d d' : Db) → Evolves id d d' → IsKey id d → IsKey id d'
IsKey-stable id d d' h u = h.keeps_key u

-- A reply that is a token comes with the row gone and the facts that were tested.
abbrev pub IsRedeemed : Type 0 → String → Reply → Db → Type 0
IsRedeemed F id reply d =
    (t : String) (e : ℕ) (s : String) → reply ≡ token_reply t e s → (row id d ≡ none) × F

is_row : (id status : String) (r : DeviceCode) → has_status id status r ≡ true → has_id id r ≡ true
is_row id status r h = ground arith

-- The deletion answers true only if it has taken the row away.
delete_if-Ensures :
    (id : String)
    → Ensures
        (Evolves id)
        (IsKey id)
        (Statements.delete_device_code_if_status id approved)
        (λ won d. won ≡ true → IsGone id d)
unfolding Statements.delete_device_code_if_status
delete_if-Ensures id =
    Ensures-query (Evolves-trans id) (IsKey id) (λ won d. won ≡ true → IsGone id d) _
      (IsKey-stable id)
      (λ d u. (
        Evolves-delete id (has_status id approved) d,
        λ won. (
          (Evolves-delete id (has_status id approved) d).keeps_key u,
          find_after_delete (has_status id approved) (has_id id) d.device_codes (is_row id approved)
              won u,
        ),
      ))

-- Where the row is gone the deletion answers false.
delete_if_IsGone-Ensures :
    (id : String)
    → Ensures
        (Evolves id)
        (IsGone id)
        (Statements.delete_device_code_if_status id approved)
        (λ won d. won ≡ false)
unfolding Statements.delete_device_code_if_status
delete_if_IsGone-Ensures id =
    Ensures-query (Evolves-trans id) (IsGone id) (λ won d. won ≡ false) _ (IsGone-stable id)
      (λ d (u, gone). (
        Evolves-delete id (has_status id approved) d,
        rw
            (count_of_absent (has_status id approved) (has_id id) d.device_codes
              (is_row id approved) gone)
            refl,
      ))

-- A reply that is no token satisfies it.
no_token :
    (F : Type 0) (id : String) (d : Db) (status : ℕ) (e m : String)
    → IsRedeemed F id (error_reply status e m) d
no_token F id d status e m t s sc h = cc

pub refused :
    (F : Type 0) (id : String) (Pre : Db → Type 0) (status : ℕ) (e m : String)
    → Ensures (Evolves id) Pre (pure (error_reply status e m)) (IsRedeemed F id)
refused F id Pre status e m =
    Ensures-pure (Evolves-trans id) Pre (IsRedeemed F id) (error_reply status e m) (Evolves-refl id)
      (λ d _. no_token F id d status e m)

module _ (server : ServerConfig) (plugin : DeviceConfig) (clock : ℕ → ℕ) (random : Random)
    (req : AuthRequest) (F : Type 0) where
  session_reply-Ensures :
      (c : DeviceCode) (r : AuthResult Session)
      → F
      → Ensures
          (Evolves c.id)
          (IsGone c.id)
          (session_reply server plugin clock c r)
          (IsRedeemed F c.id)
  unfolding session_reply
  session_reply-Ensures c (ok s) f =
      Ensures-pure (Evolves-trans c.id) (IsGone c.id) (IsRedeemed F c.id) _ (Evolves-refl c.id)
        (λ d gone t e sc _. (gone.1, f))
  session_reply-Ensures c (err e) f = refused F c.id (IsGone c.id) _ _ _

  issued-Ensures :
      (c : DeviceCode) (u : User)
      → F
      → Ensures
          (Evolves c.id)
          (IsGone c.id)
          (attempt (
              issue_user_session server.session server.admin
                (λ n. clock (n + 2))
                random.session_id
                random.session_token
                u.id
                (ip_address req)
                (lookup "user-agent" req.headers))
            >>= session_reply server plugin clock c)
          (IsRedeemed F c.id)
  issued-Ensures c u f =
      Ensures-bind (Evolves-trans c.id) (IsGone c.id) (λ _. IsGone c.id) (IsRedeemed F c.id) _ _
        (Ensures_of_Keeps (Evolves-trans c.id) (IsGone c.id) _ (IsGone-stable c.id)
          (issued-Keeps c.id))
        (λ r. session_reply-Ensures c r f)
    where
      issued-Keeps :
          (id : String)
          → Keeps (Evolves id) (
              attempt (
                issue_user_session server.session server.admin
                  (λ n. clock (n + 2))
                  random.session_id
                  random.session_token
                  u.id
                  (ip_address req)
                  (lookup "user-agent" req.headers)))
      issued-Keeps id = search (frame_rules, Evolves-Frames, issue_user_session-Keeps)

  pub redeem_for-Ensures :
      (c : DeviceCode) (user_id : String) (o : Option User)
      → F
      → Ensures
          (Evolves c.id)
          (IsKey c.id)
          (redeem_for server plugin clock random req c user_id o)
          (IsRedeemed F c.id)
  unfolding redeem_for
  redeem_for-Ensures c user_id none f = refused F c.id (IsKey c.id) _ _ _
  redeem_for-Ensures c user_id (some u) f =
      Ensures-bind (Evolves-trans c.id) (IsKey c.id) (λ won d. won ≡ true → IsGone c.id d)
        (IsRedeemed F c.id) _ _ (delete_if-Ensures c.id)
        (elim [
          | true ↦ Ensures-weaken (λ d h. h refl) (issued-Ensures c u f)
          | false ↦ refused F c.id _ _ _ _
        ])

  -- A poll whose code is gone when it comes to redeem it gets no token.
  pub redeem_for-IsGone :
      (c : DeviceCode) (user_id : String) (o : Option User)
      → Ensures
          (Evolves c.id)
          (IsGone c.id)
          (redeem_for server plugin clock random req c user_id o)
          (λ reply d. (t : String) (e : ℕ) (s : String) → reply ≢ token_reply t e s)
  unfolding redeem_for
  redeem_for-IsGone c user_id none =
      Ensures-pure (Evolves-trans c.id) _ _ _ (Evolves-refl c.id) (λ d _ t e s h. cc)
  redeem_for-IsGone c user_id (some u) =
      Ensures-bind (Evolves-trans c.id) (IsGone c.id) (λ won d. won ≡ false) _ _ _
        (delete_if_IsGone-Ensures c.id)
        (elim [
          | true ↦ Ensures_absurd _ _ _ (λ d h. cc)
          | false ↦ Ensures-pure (Evolves-trans c.id) _ _ _ (Evolves-refl c.id) (λ d _ t e s h. cc)
        ])
