-- ===== src/Device/Decision/Soundness.antt =====
-- What a decision that succeeds has tested.
use better_auth_rs.Prelude.{
  ℕ, ◌≤◌, ◌+◌, String, Option, none, some, ◌≡◌, ◌≢◌, refl, sym, ap, ◌∙◌, arith, inl, inr,
  Bool-cases, eq_iff, ltb, ◌==◌, without_char,
}
use better_auth_rs.Error.{AuthResult, ok, err, unauthenticated, session_not_found}
use better_auth_rs.Request.{AuthRequest, Parsed, parsed}
use better_auth_rs.Store.{World, Exec, attempt, ◌>>=◌}
use better_auth_rs.Store.Answers.{bind_ok}
use better_auth_rs.Store.Db.{User, Session, DeviceCode, Db}
use better_auth_rs.Session.Token.{require_session}
use better_auth_rs.Device.Codes.{Reply, error_reply, action_reply, DeviceDecision, pending}
use better_auth_rs.Device.Config.{ServerConfig}
use better_auth_rs.Device.Statements
use better_auth_rs.Device.Decision.{
  decide_claimed, decide_found, decide_body, decide_caller, handle_device_decision,
}

-- What a device code must be for a user to decide on it at the time.
pub record IsDecidable (now : ℕ) (user : User) (c : DeviceCode) : Type 0 where
  pub fresh : now ≤ c.expires_at
  pub is_pending : c.status ≡ pending
  pub claimed_by : c.user_id ≡ some user.id

error_no_action : (status : ℕ) (e m : String) → ok (error_reply status e m) ≢ ok action_reply
error_no_action status e m h = cc

module _ (server : ServerConfig) (clock : ℕ → ℕ) (decision : DeviceDecision) (user : User) where
  decide_claimed_sound :
      (c : DeviceCode) (o : Option String) (w : World Db)
      → (decide_claimed server decision user c o w).0 ≡ ok action_reply
      → o ≡ some user.id
  unfolding decide_claimed ◌>>=◌
  decide_claimed_sound c none w h = absurd (error_no_action _ _ _ h)
  decide_claimed_sound c (some claimant) w h = elim (Bool-cases (claimant == user.id)) [
    | inl same ↦ ap some ((eq_iff claimant user.id).0 same)
    | inr other ↦ let h' = rw other at h in absurd (error_no_action _ _ _ h')
  ]

  decide_found_sound :
      (o : Option DeviceCode) (w : World Db)
      → (decide_found server clock decision user o w).0 ≡ ok action_reply
      → (c : DeviceCode) × (o ≡ some c) × IsDecidable (clock 0) user c
  unfolding decide_found ◌>>=◌
  decide_found_sound none w h = absurd (error_no_action _ _ _ h)
  decide_found_sound (some c) w h = elim (Bool-cases (ltb c.expires_at (clock 0))) [
    | inl e ↦ let h' = rw e at h in absurd (error_no_action _ _ _ h')
    | inr e ↦ elim (Bool-cases (c.status == pending)) [
      | inl k ↦
          let h' = rw (e, k) at h in
          (
            c,
            refl,
            record {
              fresh = ground arith;
              is_pending = (eq_iff c.status pending).0 k;
              claimed_by = decide_claimed_sound c c.user_id w h';
            },
          )
      | inr k ↦ let h' = rw (e, k) at h in absurd (error_no_action _ _ _ h')
    ]
  ]

module _ (server : ServerConfig) (clock : ℕ → ℕ) (decision : DeviceDecision) where
  decide_body_sound :
      (user : User) (user_code : String) (w : World Db)
      → (decide_body server clock decision user (parsed user_code) w).0 ≡ ok action_reply
      → (c : DeviceCode) × ((Statements.get_device_code_by_user_code
            (without_char b'-' user_code)
            w).0
          ≡ ok (some c))
        × IsDecidable (clock 0) user c
  unfolding decide_body
  decide_body_sound user user_code w h =
      let (o, found, rest) =
        bind_ok (Statements.get_device_code_by_user_code (without_char b'-' user_code))
          (decide_found server clock decision user) w action_reply h in
      let (c, same, decidable) = decide_found_sound server clock decision user o _ rest in
      (c, found ∙ ap ok same, decidable)

  -- Who is signed in, and in what world the body of the handler runs.
  decide_caller_sound :
      (body : Parsed String Reply) (r : AuthResult (User × Session)) (w : World Db)
      → (decide_caller server clock decision body r w).0 ≡ ok action_reply
      → (u : User) × (s : Session) × (r ≡ ok (u, s))
        × ((decide_body server clock decision u body w).0 ≡ ok action_reply)
  unfolding decide_caller ◌>>=◌
  decide_caller_sound body (ok (u, s)) w h = (u, s, refl, h)
  decide_caller_sound body (err unauthenticated) w h = absurd (error_no_action _ _ _ h)
  decide_caller_sound body (err session_not_found) w h = absurd (error_no_action _ _ _ h)
  decide_caller_sound body (err e) w h = absurd (err_no_action h)
    where
      err_no_action : err e ≢ ok (action_reply)
      err_no_action h = cc

  attempt_ok :
      {A : Type 0} (m : Exec Db A) (w : World Db) (r : AuthResult A)
      → (attempt m w).0 ≡ ok r
      → ((m w).0 ≡ r) × ((attempt m w).1 ≡ (m w).1)
  unfolding ◌>>=◌
  attempt_ok m w r h = (cc, refl)

  -- A decision that succeeds, whatever other requests do meanwhile: the caller was signed in as some
  -- user, and the code found by the given user code, dashes left out, was pending, unexpired at the
  -- time of the request and claimed by that same user.
  pub handle_device_decision_sound :
      (req : AuthRequest) (user_code : String) (w : World Db)
      → (handle_device_decision server clock req (parsed user_code) decision w).0 ≡ ok action_reply
      → (u : User) × (s : Session) × (c : DeviceCode) × ((require_session server.split_parse
            server.session
            (λ n. clock (n + 1))
            req
            w).0
          ≡ ok (u, s))
        × ((Statements.get_device_code_by_user_code
              (without_char b'-' user_code)
              (require_session server.split_parse server.session (λ n. clock (n + 1)) req w).1).0
            ≡ ok (some c))
        × IsDecidable (clock 0) u c
  unfolding handle_device_decision
  handle_device_decision_sound req user_code w h =
      let caller = require_session server.split_parse server.session (λ n. clock (n + 1)) req in
      let (r, answered, rest) =
        bind_ok (attempt caller) (decide_caller server clock decision (parsed user_code)) w
          action_reply h in
      let (same, world) = attempt_ok caller w r answered in
      let (u, s, is_u, body) = decide_caller_sound (parsed user_code) r _ rest in
      let (c, found, decidable) = decide_body_sound u user_code _ body in
      (
        u,
        s,
        c,
        same ∙ is_u,
        ap (λ x. (Statements.get_device_code_by_user_code (without_char b'-' user_code) x).0)
              (sym world)
            ∙ found,
        decidable,
      )
