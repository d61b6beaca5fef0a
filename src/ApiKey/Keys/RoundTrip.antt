-- ===== src/ApiKey/Keys/RoundTrip.antt =====
-- A key that was created, alone, is found by its text.
use better_auth_rs.Prelude.{
  ℕ, ℤ, String, Bool, true, false, Option, none, some, ◌∷◌, ◌≡◌, refl, sym, ap, ◌∙◌, subst, ◌==◌,
  eq_refl, Bool-cases, inl, inr, ltb, ◌≤◌, arith,
}
use better_auth_rs.Error.{AuthResult, ok, err, ok_of, err_ne_ok}
use better_auth_rs.Store.{World, Exec, alone, pure, lift, query, ◌>>=◌}
use better_auth_rs.Store.Table.{find}
use better_auth_rs.Store.Table.Counting.{find_kept_by_delete}
use better_auth_rs.Store.Answers.{bind_run, pure_run, guard_run, lift_ok}
use better_auth_rs.Store.Alone.{IsReading, reading_run, reading_rules, IsReading-lift}
use better_auth_rs.Store.Db.{ApiKey, Db}
use better_auth_rs.ApiKey.Access.Alone.{require_org-IsReading}
use better_auth_rs.ApiKey.Config.{
  ApiKeyReferences, user, organization, ApiKeyConfig, api_key_error, server_only_property,
  resolve_configuration,
}
use better_auth_rs.ApiKey.Usage.{has_id, set_keys}
use better_auth_rs.ApiKey.Statements.{
  CreateApiKey, new_key, create_api_key, has_hash, is_expired, delete_expired_api_keys,
}
use better_auth_rs.ApiKey.Validate.{maybe_delete_expired, should_run, hashed}
use better_auth_rs.ApiKey.Requests.{CreateKeyRequest, ApiKeyView, view_of}
use better_auth_rs.ApiKey.Generate.{generate_key}
use better_auth_rs.ApiKey.Checks.{create_input, check_create, creates_server_only}
use better_auth_rs.ApiKey.Keys.{
  KeyPlugin, Moment, in_organization, reference_of, create_for, create_key_core,
}

-- What the new row takes from the input.
pub record IsNew (id : String) (input : CreateApiKey) (key : ApiKey) : Type 0 where
  pub same_id : key.id ≡ id
  pub same_hash : key.key_hash ≡ input.key_hash
  pub same_owner : key.reference_id ≡ input.reference_id
  pub same_config : key.config_id ≡ input.config_id
  pub same_expiry : key.expires_at ≡ input.expires_at

-- Five results that must all be there, and the row that is made of them.
module _ (ra rb rc re rf : AuthResult (Option ℤ))
    (row : Option ℤ → Option ℤ → Option ℤ → Option ℤ → Option ℤ → ApiKey) where
  insert_checked : Exec Db ApiKey
  insert_checked = do
    a ← lift ra
    b ← lift rb
    c ← lift rc
    e ← lift re
    f ← lift rf
    let key = row a b c e f
    query (λ d. (ok key, set_keys d (key ∷ d.api_keys)))

pub record Inserted (P : ApiKey → Type 0) (d : Db) (key : ApiKey) (w : World Db) : Type 0 where
  pub holds : P key
  pub inserted : w ≡ alone (set_keys d (key ∷ d.api_keys))

insert_checked_run :
    (P : ApiKey → Type 0) (ra rb rc re rf : AuthResult (Option ℤ))
    (row : Option ℤ → Option ℤ → Option ℤ → Option ℤ → Option ℤ → ApiKey) (d : Db) (w' : World Db)
    (key : ApiKey)
    → ((a b c e f : Option ℤ) → P (row a b c e f))
    → insert_checked ra rb rc re rf row (alone d) ≡ (ok key, w')
    → Inserted P d key w'
unfolding insert_checked query ◌>>=◌
insert_checked_run P (ok a) (ok b) (ok c) (ok e) (ok f) row d w' key all h =
    let same = ok_of (ap (λ p. p.0) h) in
    record {
      holds = subst P same (all a b c e f);
      inserted = sym (ap (λ p. p.1) h) ∙ ap (λ k. alone (set_keys d (k ∷ d.api_keys))) same;
    }
insert_checked_run P (err x) rb rc re rf row d w' key all h = absurd (err_ne_ok (ap (λ p. p.0) h))
insert_checked_run P (ok a) (err x) rc re rf row d w' key all h =
    absurd (err_ne_ok (ap (λ p. p.0) h))
insert_checked_run P (ok a) (ok b) (err x) re rf row d w' key all h =
    absurd (err_ne_ok (ap (λ p. p.0) h))
insert_checked_run P (ok a) (ok b) (ok c) (err x) rf row d w' key all h =
    absurd (err_ne_ok (ap (λ p. p.0) h))
insert_checked_run P (ok a) (ok b) (ok c) (ok e) (err x) row d w' key all h =
    absurd (err_ne_ok (ap (λ p. p.0) h))

create_api_key_run :
    (id : String) (now : ℕ) (input : CreateApiKey) (d : Db) (w' : World Db) (key : ApiKey)
    → create_api_key id now input (alone d) ≡ (ok key, w')
    → Inserted (IsNew id input) d key w'
unfolding create_api_key insert_checked
create_api_key_run id now input d w' key h =
    insert_checked_run (IsNew id input) _ _ _ _ _ (new_key id now input) d w' key
      (λ a b c e f. record {
        same_id = refl;
        same_hash = refl;
        same_owner = refl;
        same_config = refl;
        same_expiry = refl;
      })
      h

-- The cleanup after an insertion leaves a new row that has not expired the first one of its kind.
cleanup_keeps :
    (p : ApiKey → Bool) (instant now : ℕ) (last l : Option ℕ) (d : Db) (w' : World Db)
    (key : ApiKey)
    → find p d.api_keys ≡ some key
    → is_expired now key ≡ false
    → maybe_delete_expired instant now last (alone d) ≡ (ok l, w')
    → find p w'.db.api_keys ≡ some key
unfolding maybe_delete_expired delete_expired_api_keys query ◌>>=◌
cleanup_keeps p instant now last l d w' key found fresh h =
    elim (Bool-cases (should_run instant last)) [
      | inl e ↦
          subst (λ w. find p w.db.api_keys ≡ some key) (ap (λ r. r.1) (rw e at h))
            (find_kept_by_delete (is_expired now) p d.api_keys key found fresh)
      | inr e ↦ subst (λ w. find p w.db.api_keys ≡ some key) (ap (λ r. r.1) (rw e at h)) found
    ]

module _ (plugin : KeyPlugin) where
  open plugin use {json, float, configurations, metadata, hash_key, after_seconds}

  reference_of-IsReading :
      (references : ApiKeyReferences) (user_id action : String) (o : Option String)
      → IsReading (reference_of plugin references user_id action o)
  unfolding reference_of in_organization
  reference_of-IsReading user user_id action o = search reading_rules
  reference_of-IsReading organization user_id action none = search reading_rules
  reference_of-IsReading organization user_id action (some id) =
      search (reading_rules, require_org-IsReading)

  -- The row that a request leaves, which is found by its identifier and by the hash
  -- that its configuration makes of the key's text.
  pub record Created (config : ApiKeyConfig) (full : String) (view : ApiKeyView json) (w : World Db)
      : Type 0 where
    pub key : ApiKey
    pub shown : view ≡ view_of json key
    pub in_config : key.config_id ≡ config.config_id
    pub by_id : find (has_id view.id) w.db.api_keys ≡ some key
    pub by_hash :
        find (has_hash (hashed json hash_key configurations config full)) w.db.api_keys ≡ some key

  module _ (moment : Moment) (view : ApiKeyView json)
      (lives : (t : ℕ) → view.expires_at ≡ some t → moment.clock 2 ≤ t) where
    not_expired : (key : ApiKey) → view ≡ view_of json key → is_expired (moment.clock 2) key ≡ false
    not_expired key shown = go key.expires_at (ap (λ v. v.expires_at) shown)
      where
        go :
            (o : Option ℕ)
            → view.expires_at ≡ o
            → elim o [ none ↦ false | some expires_at ↦ ltb expires_at (moment.clock 2) ] ≡ false
        go none h = refl
        go (some t) h = ground (arith, lives t h)

    abbrev answered : String → ApiKey → Option ℕ → (String × ApiKeyView json) × Option ℕ
    answered generated key l = ((generated, view_of json key), l)

    cleanup : Exec Db (Option ℕ)
    cleanup = maybe_delete_expired moment.instant (moment.clock 2) moment.last

    kept_row :
        (p : ApiKey → Bool) (key : ApiKey) (d : Db) (l : Option ℕ)
        → p key ≡ true
        → is_expired (moment.clock 2) key ≡ false
        → (cleanup (alone (set_keys d (key ∷ d.api_keys)))).0 ≡ ok l
        → find p (cleanup (alone (set_keys d (key ∷ d.api_keys)))).1.db.api_keys ≡ some key
    unfolding cleanup find
    kept_row p key d l holds fresh done =
        cleanup_keeps p moment.instant (moment.clock 2) moment.last l
          (set_keys d (key ∷ d.api_keys)) (cleanup (alone (set_keys d (key ∷ d.api_keys)))).1 key
          (rw holds refl) fresh (λ i. (done i, (cleanup (alone (set_keys d (key ∷ d.api_keys)))).1))

    finish :
        (config : ApiKeyConfig) (generated full : String) (key : ApiKey) (d : Db) (last : Option ℕ)
        (w' : World Db)
        → key.key_hash ≡ hashed json hash_key configurations config generated
        → key.config_id ≡ config.config_id
        → (cleanup >>= λ l. pure (answered generated key l)) (alone (set_keys d (key ∷ d.api_keys)))
          ≡ (ok ((full, view), last), w')
        → Created config full view w'
    finish config generated full key d last w' hash in_config h =
        let (l, done, h1) = bind_run cleanup _ _ w' ((full, view), last) h in
        let (same, ends) = pure_run (answered generated key l) ((full, view), last) _ w' h1 in
        let shown = sym (ap (λ r. r.0.1) same) in
        let fresh = not_expired key shown in
        record {
          key = key;
          shown = shown;
          in_config = in_config;
          by_id =
              subst (λ w. find (has_id view.id) w.db.api_keys ≡ some key) ends
                (kept_row (has_id view.id) key d l
                  (subst (λ v. has_id v.id key ≡ true) (sym shown) (eq_refl key.id)) fresh done);
          by_hash =
              subst
                (λ w.
                  find (has_hash (hashed json hash_key configurations config full)) w.db.api_keys
                  ≡ some key)
                ends
                (kept_row (has_hash (hashed json hash_key configurations config full)) key d l
                  (subst
                    (λ t. (key.key_hash == hashed json hash_key configurations config t) ≡ true)
                    (ap (λ r. r.0.0) same)
                    (subst (λ t. (key.key_hash == t) ≡ true) hash (eq_refl key.key_hash)))
                  fresh done);
        }

    create_for_run :
        (config : ApiKeyConfig) (body : CreateKeyRequest json) (e : Option ℤ)
        (reference_id full : String) (last : Option ℕ) (d : Db) (w' : World Db)
        → create_for plugin moment config body e reference_id (alone d)
          ≡ (ok ((full, view), last), w')
        → Created config full view w'
    unfolding create_for cleanup generate_key
    create_for_run config body e reference_id full last d w' h =
        let (at, _, h1) = reading_run _ _ d w' ((full, view), last) (IsReading-lift _) h in
        let (key, new, h2) = bind_run _ _ (alone d) w' ((full, view), last) h1 in
        let input =
          create_input json config body reference_id
            (generate_key hash_key moment.draws config body.prefix) at in
        let made = create_api_key moment.id (moment.clock 1) input (alone d) in
        let row =
          create_api_key_run moment.id (moment.clock 1) input d made.1 key (λ i. (new i, made.1)) in
        finish config _ full key d last w' row.holds.same_hash row.holds.same_config (
          ap
            (cleanup >>= λ l.
              pure
                (answered (generate_key hash_key moment.draws config body.prefix).full_key key l))
            (sym row.inserted)
          ∙ h2)

  -- A key that was created, by a request that runs alone, is in the table under the identifier of the view
  -- that was answered, and under the hash that the key's own configuration makes of the text that was
  -- answered; unless it expires before the cleanup that ends the call. (Validation hashes as the default
  -- configuration does.)
  pub create_key_core-Created :
      (moment : Moment) (body : CreateKeyRequest json) (user_id full : String)
      (view : ApiKeyView json) (last : Option ℕ) (d : Db) (w' : World Db)
      → ((t : ℕ) → view.expires_at ≡ some t → moment.clock 2 ≤ t)
      → create_key_core plugin moment body user_id (alone d) ≡ (ok ((full, view), last), w')
      → (config : ApiKeyConfig) × (resolve_configuration configurations body.config_id ≡ ok config)
        × Created config full view w'
  unfolding create_key_core
  create_key_core-Created moment body user_id full view last d w' lives h =
      let h1 =
        guard_run (creates_server_only json body) (api_key_error server_only_property) body_of
          (alone d) w' ((full, view), last) h in
      let (config, resolved, h2) =
        reading_run _ _ d w' ((full, view), last)
          (IsReading-lift (resolve_configuration configurations body.config_id)) h1 in
      let (e, _, h3) =
        reading_run _ _ d w' ((full, view), last)
          (IsReading-lift (check_create json float config body)) h2 in
      let (reference_id, _, h4) =
        reading_run _ _ d w' ((full, view), last)
          (reference_of-IsReading config.references user_id "create" body.organization_id) h3 in
      (
        config,
        lift_ok (resolve_configuration configurations body.config_id) (alone d) config resolved,
        create_for_run moment view lives config body e reference_id full last d w' h4,
      )
    where
      body_of : Exec Db ((String × ApiKeyView json) × Option ℕ)
      body_of = lift (resolve_configuration configurations body.config_id) >>= λ config.
          lift (check_create json float config body) >>= λ e.
          reference_of plugin config.references user_id "create" body.organization_id
          >>= create_for plugin moment config body e
