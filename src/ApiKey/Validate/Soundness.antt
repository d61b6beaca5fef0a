-- ===== src/ApiKey/Validate/Soundness.antt =====
-- What a validated API key was found to be.
use better_auth_rs.Prelude.{
  ℕ, String, Bool, true, false, Option, none, some, List, ◌≡◌, ◌≢◌, refl, ap, ◌∙◌, inl, inr,
  Bool-cases,
}
use better_auth_rs.Error.{AuthResult, ok, err, ok_of}
use better_auth_rs.Store.{World, Exec, attempt, pure, ◌>>=◌}
use better_auth_rs.Store.Answers.{bind_ok, query_ran}
use better_auth_rs.Store.Db.{ApiKey, Db}
use better_auth_rs.Store.Table.{find}
use better_auth_rs.ApiKey.Usage.Stored.{consume-Stores}
use better_auth_rs.ApiKey.Usage.{
  ConsumeApiKeyResult, allowed, rate_limited, usage_exhausted, consume, has_id,
}
use better_auth_rs.ApiKey.Statements.{get_api_key_by_hash, consume_api_key_usage, delete_api_key}
use better_auth_rs.ApiKey.Config.{ApiKeyErrorCode, ApiKeyConfig, resolve_configuration, key_expired}
use better_auth_rs.ApiKey.Permissions.{JsonCrate}
use better_auth_rs.ApiKey.Validate.{
  Validation, valid, invalid, maybe_delete_expired, has_expired, hashed, lacks, settle_use,
  check_key, check_configured, check_found, look_up, validate_api_key,
}

-- A key that may be used at the time: enabled, not expired, and holding what is asked for; and the
-- consumption that starts on the world let its use through and left the updated key as its row.
pub record IsUsable (json : JsonCrate) (hash_key : String → String)
    (configurations : List ApiKeyConfig) (clock : ℕ → ℕ) (required : Option json.Value)
    (w : World Db) (key key' : ApiKey) : Type 0 where
  pub enabled : key.enabled ≡ true
  pub fresh : has_expired (clock 0) key ≡ false
  pub permitted : lacks json hash_key configurations key required ≡ false
  pub config : ApiKeyConfig
  pub configured : resolve_configuration configurations (some key.config_id) ≡ ok config
  pub counted :
      (consume_api_key_usage key.id config.rate_limit.enabled (clock 1) (clock 2) w).0
      ≡ ok (allowed key')
  pub stored :
      find
        (has_id key.id)
        (consume_api_key_usage key.id config.rate_limit.enabled (clock 1) (clock 2) w).1.db.api_keys
      ≡ some key'

consumed :
    (id : String) (rate_limit : Bool) (now updated : ℕ) (w : World Db) (key' : ApiKey)
    → (consume_api_key_usage id rate_limit now updated w).0 ≡ ok (allowed key')
    → find (has_id id) (consume_api_key_usage id rate_limit now updated w).1.db.api_keys ≡ some key'
unfolding consume_api_key_usage
consumed id rate_limit now updated w key' h =
    let (d, ran, left) = query_ran (consume id rate_limit now updated) w (allowed key') h in
    ap (λ d. find (has_id id) d.api_keys) left ∙ consume-Stores id d key' rate_limit now updated ran

invalid_no_valid :
    (code : ApiKeyErrorCode) (last last' : Option ℕ) (key : ApiKey)
    → ◌≢◌ {A = AuthResult (Validation × Option ℕ)} (ok (invalid code, last)) (ok (valid key, last'))
invalid_no_valid code last last' key h = valid_ne (ap (λ p. p.0) (ok_of h))
  where
    valid_ne : invalid code ≢ valid key
    valid_ne e = cc

attempt_answer :
    {A : Type 0} (m : Exec Db A) (w : World Db) (r : AuthResult A)
    → (attempt m w).0 ≡ ok r
    → (m w).0 ≡ r
unfolding ◌>>=◌
attempt_answer m w r h = ok_of h

module _ (json : JsonCrate) (hash_key : String → String) (configurations : List ApiKeyConfig)
    (clock : ℕ → ℕ) (instant : ℕ) (last last' : Option ℕ) (key' : ApiKey) where
  settle_use_sound :
      (r : AuthResult ConsumeApiKeyResult) (w : World Db)
      → (settle_use json hash_key configurations clock instant last r w).0 ≡ ok (valid key', last')
      → r ≡ ok (allowed key')
  unfolding settle_use ◌>>=◌
  settle_use_sound (err e) w h = absurd (invalid_no_valid _ last last' key' h)
  settle_use_sound (ok rate_limited) w h = absurd (invalid_no_valid _ last last' key' h)
  settle_use_sound (ok usage_exhausted) w h = absurd (invalid_no_valid _ last last' key' h)
  settle_use_sound (ok (allowed key)) w h =
      let (l, _, rest) =
        bind_ok (maybe_delete_expired instant (clock 3) last) (λ l. pure (valid key, l)) w
          (valid key', last') h in
      ap (λ k. ok (allowed k)) (valid_of (ap (λ p. p.0) (ok_of rest)))
    where
      valid_of : {a b : ApiKey} → valid a ≡ valid b → a ≡ b
      valid_of e = cc

  check_key_sound :
      (required : Option json.Value) (key : ApiKey) (config : ApiKeyConfig) (w : World Db)
      → resolve_configuration configurations (some key.config_id) ≡ ok config
      → (check_key json hash_key configurations clock instant last required key config w).0
        ≡ ok (valid key', last')
      → IsUsable json hash_key configurations clock required w key key'
  unfolding check_key ◌>>=◌
  check_key_sound required key config w configured h = elim (Bool-cases key.enabled) [
    | inr off ↦ let h' = rw off at h in absurd (invalid_no_valid _ last last' key' h')
    | inl on ↦ elim (Bool-cases (has_expired (clock 0) key)) [
      | inl old ↦
          let h' = rw (on, old) at h in
          let (_, _, rest) =
            bind_ok (attempt (delete_api_key key.id)) (λ _. pure (invalid key_expired, last)) w
              (valid key', last') h' in
          absurd (invalid_no_valid _ last last' key' rest)
      | inr young ↦ elim (Bool-cases (lacks json hash_key configurations key required)) [
        | inl lacking ↦
            let h' = rw (on, young, lacking) at h in absurd (invalid_no_valid _ last last' key' h')
        | inr holds ↦
            let h' = rw (on, young, holds) at h in
            let usage =
              consume_api_key_usage key.id config.rate_limit.enabled (clock 1) (clock 2) in
            let (r, tried, rest) =
              bind_ok (attempt usage) (settle_use json hash_key configurations clock instant last) w
                (valid key', last') h' in
            let used = attempt_answer usage w r tried ∙ settle_use_sound r _ rest in
            record {
              enabled = on;
              fresh = young;
              permitted = holds;
              config = config;
              configured = configured;
              counted = used;
              stored = consumed key.id config.rate_limit.enabled (clock 1) (clock 2) w key' used;
            }
      ]
    ]
  ]

  check_configured_sound :
      (required : Option json.Value) (key : ApiKey) (r : AuthResult ApiKeyConfig) (w : World Db)
      → resolve_configuration configurations (some key.config_id) ≡ r
      → (check_configured json hash_key configurations clock instant last required key r w).0
        ≡ ok (valid key', last')
      → IsUsable json hash_key configurations clock required w key key'
  unfolding check_configured ◌>>=◌
  check_configured_sound required key (err e) w same h =
      absurd (invalid_no_valid _ last last' key' h)
  check_configured_sound required key (ok config) w same h =
      check_key_sound required key config w same h

  check_found_sound :
      (required : Option json.Value) (r : AuthResult (Option ApiKey)) (w : World Db)
      → (check_found json hash_key configurations clock instant last required r w).0
        ≡ ok (valid key', last')
      → (key : ApiKey) × (r ≡ ok (some key))
        × IsUsable json hash_key configurations clock required w key key'
  unfolding check_found ◌>>=◌
  check_found_sound required (err e) w h = absurd (invalid_no_valid _ last last' key' h)
  check_found_sound required (ok none) w h = absurd (invalid_no_valid _ last last' key' h)
  check_found_sound required (ok (some key)) w h = (
    key,
    refl,
    check_configured_sound required key (resolve_configuration configurations (some key.config_id))
        w refl h,
  )

  look_up_sound :
      (required : Option json.Value) (raw_key : String) (r : AuthResult ApiKeyConfig) (w : World Db)
      → (look_up json hash_key configurations clock instant last required raw_key r w).0
        ≡ ok (valid key', last')
      → (config : ApiKeyConfig) × (key : ApiKey) × (r ≡ ok config)
        × ((get_api_key_by_hash (hashed json hash_key configurations config raw_key) w).0
            ≡ ok (some key))
        × IsUsable json hash_key configurations clock required
            (get_api_key_by_hash (hashed json hash_key configurations config raw_key) w).1
            key
            key'
  unfolding look_up ◌>>=◌
  look_up_sound required raw_key (err e) w h = absurd (invalid_no_valid _ last last' key' h)
  look_up_sound required raw_key (ok config) w h =
      let read = get_api_key_by_hash (hashed json hash_key configurations config raw_key) in
      let (r, tried, rest) =
        bind_ok (attempt read)
          (check_found json hash_key configurations clock instant last required) w
          (valid key', last') h in
      let (key, same, usable) = check_found_sound required r _ rest in
      (config, key, refl, attempt_answer read w r tried ∙ same, usable)

  -- An API key that is validated, whatever other requests do meanwhile and whichever statement fails:
  -- the first read found a key with the hash of the text, as the default configuration hashes it; that
  -- key was enabled, unexpired at the time and held the permissions asked for; its own configuration
  -- was resolved; and the consumption that followed that read let the use through and left the updated
  -- key, which is answered, as the row of its identifier.
  pub validate_api_key_sound :
      (required : Option json.Value) (raw_key : String) (w : World Db)
      → (validate_api_key json hash_key configurations clock instant last raw_key required w).0
        ≡ ok (valid key', last')
      → (config : ApiKeyConfig) × (key : ApiKey) × (resolve_configuration configurations none
          ≡ ok config)
        × ((get_api_key_by_hash (hashed json hash_key configurations config raw_key) w).0
            ≡ ok (some key))
        × IsUsable json hash_key configurations clock required
            (get_api_key_by_hash (hashed json hash_key configurations config raw_key) w).1
            key
            key'
  unfolding validate_api_key
  validate_api_key_sound required raw_key w h =
      look_up_sound required raw_key (resolve_configuration configurations none) w h
