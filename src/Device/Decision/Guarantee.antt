-- ===== src/Device/Decision/Guarantee.antt =====
-- A decision changes a device code only along its life, though it reads the claimant in one statement
-- and writes in another.
use better_auth_rs.Prelude.{
  true, ℕ, ◌+◌, String, Bool-cases, Option, none, some, ◌≡◌, refl, inl, inr, sym, ◌∙◌, subst, arith,
  eq_iff, ltb, ◌==◌, ◌⊎◌,
}
use better_auth_rs.Error.{AuthError, AuthResult, ok, err, unauthenticated, session_not_found}
use better_auth_rs.Request.{AuthRequest, Parsed, parsed, rejected}
use better_auth_rs.Store.{Exec, attempt}
use better_auth_rs.Session.Token.{require_session}
use better_auth_rs.Store.Rely.{Keeps}
use better_auth_rs.Store.Triple.{
  Ensures, Ensures-query, Ensures_of_Keeps, Ensures_plain, Ensures-bind,
}
use better_auth_rs.Store.Frames.{frame_rules}
use better_auth_rs.Store.Table.{find_key, find_holds}
use better_auth_rs.Store.Db.{User, Session, DeviceCode, Db}
use better_auth_rs.Session.Token.Frame.{require_session-Keeps}
use better_auth_rs.Device.Codes.{
  Reply, DeviceDecision, approve, deny, decision_status, pending, approved, denied,
}
use better_auth_rs.Device.Config.{ServerConfig, decided}
use better_auth_rs.Device.Lifecycle.{
  Advances, Advances-refl, Advances-trans, Evolves, Evolves-refl, Evolves-trans, row, IsKey,
}
use better_auth_rs.Device.Statements
use better_auth_rs.Device.Statements.{has_id, has_user_code, has_status}
use better_auth_rs.Device.Progress.{Evolves-Frames, Evolves-update}
use better_auth_rs.Device.Decision.{
  decide_claimed, decide_found, decide_body, decide_caller, handle_device_decision,
}

Advances-decided :
    (decision : DeviceDecision) (claimant id : String) (c r : DeviceCode)
    → Advances c r
    → c.user_id ≡ some claimant
    → has_status id pending r ≡ true
    → Advances r (Statements.apply_update (decided decision claimant) r)
Advances-decided decision claimant id c r h e k = record {
  same_id = refl;
  same_device_code = refl;
  same_user_code = refl;
  same_expiry = refl;
  same_client = refl;
  claimed_once = inl (ground (arith, h.claimed_once));
  decided_once = inr (ground (arith, eq_iff r.status "pending"), cc, go decision);
}
  where
    go : (x : DeviceDecision) → (decision_status x ≡ approved) ⊎ (decision_status x ≡ denied)
    go approve = inl refl
    go deny = inr refl

some_of : {r r' : DeviceCode} → some r ≡ some r' → r ≡ r'
some_of e = cc

-- What the code that a statement has read still says of the row: it may only have advanced.
abbrev Seen : String → Option DeviceCode → Db → Type 0
Seen id o d =
    IsKey id d × ((c r : DeviceCode) → o ≡ some c → c.id ≡ id → row id d ≡ some r → Advances c r)

Seen-stable :
    (id : String) (o : Option DeviceCode) (d d' : Db) → Evolves id d d' → Seen id o d → Seen id o d'
Seen-stable id o d d' h (u, seen) = (
  h.keeps_key u,
  λ c r e same found.
      let (r₀, e₀, step) = h.advances u r found in Advances-trans (seen c r₀ e same e₀) step,
)

plain :
    (id : String) (Pre : Db → Type 0) (m : Exec Db Reply)
    → Keeps (Evolves id) m
    → Ensures (Evolves id) Pre m (λ _ _. Unit {0})
plain id Pre m k = Ensures_plain (Evolves-trans id) Pre m k

module _ (server : ServerConfig) (id : String) (clock : ℕ → ℕ) (decision : DeviceDecision)
    (user : User) where
  claimed_reply-Ensures :
      (c : DeviceCode) (claimant : String)
      → c.user_id ≡ some claimant
      → Ensures
          (Evolves id)
          (Seen id (some c))
          (Statements.update_device_code_if_status c.id pending (decided decision claimant))
          (λ _ _. Unit {0})
  unfolding Statements.update_device_code_if_status
  claimed_reply-Ensures c claimant e =
      Ensures-query (Evolves-trans id) (Seen id (some c)) (λ _ _. Unit {0}) _
        (Seen-stable id (some c))
        (λ d (u, seen). (
          Evolves-update id (has_status c.id pending)
              (Statements.apply_update (decided decision claimant)) d (λ r. refl)
              (λ r found k.
                let same : r.id ≡ id =
                  (eq_iff r.id id).0 (find_holds (has_id id) d.device_codes r found) in
                let key : r.id ≡ c.id = ground (arith, eq_iff r.id c.id) in
                Advances-decided decision claimant c.id c r (seen c r refl (sym key ∙ same) found) e
                  k),
          tt,
        ))

  decide_claimed-Ensures :
      (c : DeviceCode) (o : Option String)
      → c.user_id ≡ o
      → Ensures
          (Evolves id)
          (Seen id (some c))
          (decide_claimed server decision user c o)
          (λ _ _. Unit {0})
  unfolding decide_claimed
  decide_claimed-Ensures c none e = plain id _ _ (search (frame_rules, Evolves-Frames))
  decide_claimed-Ensures c (some claimant) e = elim (Bool-cases (claimant == user.id)) [
    | inl same ↦ rw same (
        Ensures-bind (Evolves-trans id) (Seen id (some c)) (λ _ _. Unit {0}) (λ _ _. Unit {0}) _ _
          (claimed_reply-Ensures c claimant e)
          (λ b. plain id _ _ (search (frame_rules, Evolves-Frames))))
    | inr other ↦ rw other (plain id _ _ (search (frame_rules, Evolves-Frames)))
  ]

  decide_found-Ensures :
      (o : Option DeviceCode)
      → Ensures
          (Evolves id)
          (Seen id o)
          (decide_found server clock decision user o)
          (λ _ _. Unit {0})
  unfolding decide_found
  decide_found-Ensures none = plain id _ _ (search (frame_rules, Evolves-Frames))
  decide_found-Ensures (some c) = elim (Bool-cases (ltb c.expires_at (clock 0))) [
    | inl e ↦ rw e (plain id _ _ (search (frame_rules, Evolves-Frames)))
    | inr e ↦ elim (Bool-cases (c.status == pending)) [
      | inl k ↦ rw (e, k) (decide_claimed-Ensures c c.user_id refl)
      | inr k ↦ rw (e, k) (plain id _ _ (search (frame_rules, Evolves-Frames)))
    ]
  ]

  read-Seen :
      (code : String)
      → Ensures (Evolves id) (IsKey id) (Statements.get_device_code_by_user_code code) (Seen id)
  unfolding Statements.get_device_code_by_user_code
  read-Seen code =
      Ensures-query (Evolves-trans id) (IsKey id) (Seen id) _ (λ d d' h u. h.keeps_key u)
        (λ d u. (
          Evolves-refl id d,
          (
            u,
            λ c r e same found.
                let here =
                  find_key (has_user_code code) (has_id id) d.device_codes c u e
                    ((eq_iff c.id id).1 same) in
                subst (Advances c) (some_of (sym here ∙ found)) (Advances-refl c),
          ),
        ))

  decide_body-Ensures :
      (body : Parsed String Reply)
      → Ensures
          (Evolves id)
          (IsKey id)
          (decide_body server clock decision user body)
          (λ _ _. Unit {0})
  unfolding decide_body
  decide_body-Ensures (rejected r) = plain id _ _ (search (frame_rules, Evolves-Frames))
  decide_body-Ensures (parsed code) =
      Ensures-bind (Evolves-trans id) (IsKey id) (Seen id) _ _ _ (read-Seen _) decide_found-Ensures

module _ (server : ServerConfig) (id : String) (clock : ℕ → ℕ) (decision : DeviceDecision)
    (body : Parsed String Reply) where
  decide_caller-Ensures :
      (r : AuthResult (User × Session))
      → Ensures
          (Evolves id)
          (IsKey id)
          (decide_caller server clock decision body r)
          (λ _ _. Unit {0})
  unfolding decide_caller
  decide_caller-Ensures (ok (u, s)) = decide_body-Ensures server id clock decision u body
  decide_caller-Ensures (err e) = plain id _ _ (refused e)
    where
      refused :
          (e : AuthError) → Keeps (Evolves id) (decide_caller server clock decision body (err e))
      refused unauthenticated = search (frame_rules, Evolves-Frames)
      refused session_not_found = search (frame_rules, Evolves-Frames)
      refused e = search (frame_rules, Evolves-Frames)

  caller-Keeps :
      (req : AuthRequest)
      → Keeps
          (Evolves id)
          (attempt (require_session server.split_parse server.session (λ n. clock (n + 1)) req))
  caller-Keeps req = search (frame_rules, Evolves-Frames, require_session-Keeps)

  -- Whatever a decision does, it keeps the life of every issued code, if other requests do.
  pub handle_device_decision-Ensures :
      (req : AuthRequest)
      → Ensures
          (Evolves id)
          (IsKey id)
          (handle_device_decision server clock req body decision)
          (λ _ _. Unit {0})
  unfolding handle_device_decision
  handle_device_decision-Ensures req =
      Ensures-bind (Evolves-trans id) (IsKey id) (λ _. IsKey id) (λ _ _. Unit {0}) _ _
        (Ensures_of_Keeps (Evolves-trans id) (IsKey id) _ (λ d d' h u. h.keeps_key u)
          (caller-Keeps req))
        decide_caller-Ensures
