-- ===== src/ApiKey/Validate.antt =====
-- `validate_api_key` of crates/api/src/plugins/api_key/mod.rs, with the throttled cleanup. The lock on
-- the instant of the last cleanup is taken and released in one step: the instant before the call is an
-- argument, and the one after it comes with the answer. Hashing is a parameter.
pub mod Soundness
use better_auth_rs.Prelude.{
  ℕ, ◌-◌, ◌/◌, ◌||◌, String, Bool, true, false, not, Option, none, some, List, ltb, unwrap_or,
  is_empty, if◌then◌else◌, ◌==◌,
}
use better_auth_rs.Error.{AuthError, AuthResult, ok, err}
use better_auth_rs.Store.{Exec, pure, attempt, ◌>>=◌, ◌>>◌}
use better_auth_rs.Store.Db.{ApiKey, Db}
use better_auth_rs.ApiKey.Usage.{ConsumeApiKeyResult, allowed, rate_limited, usage_exhausted}
use better_auth_rs.ApiKey.Statements.{
  get_api_key_by_hash, delete_api_key, consume_api_key_usage, delete_expired_api_keys,
}
use better_auth_rs.ApiKey.Config
use better_auth_rs.ApiKey.Config.{
  ApiKeyErrorCode, ApiKeyConfig, resolve_configuration, no_default_configuration, invalid_api_key,
  key_disabled, key_expired, key_not_found, failed_to_update_api_key, usage_exceeded,
}
use better_auth_rs.ApiKey.Permissions.{JsonCrate, check_permissions}

-- `Result<ApiKeyView, ApiKeyValidationError>`: the key as updated, or the code of the error.
pub data Validation : Type 0 where
  valid : ApiKey → Validation
  invalid : ApiKeyErrorCode → Validation

abbrev pub should_run : ℕ → Option ℕ → Bool
should_run now none = true
should_run now (some previous) = not (ltb ((now - previous) / 1_000_000_000) 10)

-- The cleanup's own failure is dropped. `instant` reads the monotonic clock.
unfoldable pub maybe_delete_expired : ℕ → ℕ → Option ℕ → Exec Db (Option ℕ)
maybe_delete_expired instant now last =
    if should_run instant last
    then (attempt (delete_expired_api_keys now) >>= λ done. pure (some instant))
    else pure last

abbrev pub has_expired : ℕ → ApiKey → Bool
has_expired now key = elim key.expires_at [ none ↦ false | some expires_at ↦ ltb expires_at now ]

module _ (json : JsonCrate) (hash_key : String → String) (configurations : List ApiKeyConfig) where
  abbrev pub hashed : ApiKeyConfig → String → String
  hashed config raw_key = if config.disable_key_hashing then raw_key else hash_key raw_key

  -- Whether the permissions that are asked for are refused.
  abbrev pub lacks : ApiKey → Option json.Value → Bool
  lacks key none = false
  lacks key (some required) =
      is_empty (unwrap_or key.permissions "")
      || not (check_permissions json (unwrap_or key.permissions "") required)

  pub settle_use :
      (ℕ → ℕ) → ℕ → Option ℕ → AuthResult ConsumeApiKeyResult → Exec Db (Validation × Option ℕ)
  settle_use clock instant last (err e) = pure (invalid failed_to_update_api_key, last)
  settle_use clock instant last (ok rate_limited) = pure (invalid Config.rate_limited, last)
  settle_use clock instant last (ok usage_exhausted) = pure (invalid usage_exceeded, last)
  settle_use clock instant last (ok (allowed key)) = do
    last' ← maybe_delete_expired instant (clock 3) last
    pure (valid key, last')

  pub check_key :
      (ℕ → ℕ)
      → ℕ
      → Option ℕ
      → Option json.Value
      → ApiKey
      → ApiKeyConfig
      → Exec Db (Validation × Option ℕ)
  unfolding settle_use
  check_key clock instant last required key config =
      if not key.enabled
      then pure (invalid key_disabled, last)
      else if has_expired (clock 0) key
      then (attempt (delete_api_key key.id) >>= λ done. pure (invalid key_expired, last))
      else if lacks key required
      then pure (invalid key_not_found, last)
      else attempt (consume_api_key_usage key.id config.rate_limit.enabled (clock 1) (clock 2))
        >>= settle_use clock instant last

  pub check_configured :
      (ℕ → ℕ)
      → ℕ
      → Option ℕ
      → Option json.Value
      → ApiKey
      → AuthResult ApiKeyConfig
      → Exec Db (Validation × Option ℕ)
  unfolding check_key
  check_configured clock instant last required key (err e) =
      pure (invalid no_default_configuration, last)
  check_configured clock instant last required key (ok config) =
      check_key clock instant last required key config

  pub check_found :
      (ℕ → ℕ)
      → ℕ
      → Option ℕ
      → Option json.Value
      → AuthResult (Option ApiKey)
      → Exec Db (Validation × Option ℕ)
  unfolding check_configured
  check_found clock instant last required (err e) = pure (invalid invalid_api_key, last)
  check_found clock instant last required (ok none) = pure (invalid invalid_api_key, last)
  check_found clock instant last required (ok (some key)) =
      check_configured clock instant last required key
        (resolve_configuration configurations (some key.config_id))

  pub look_up :
      (ℕ → ℕ)
      → ℕ
      → Option ℕ
      → Option json.Value
      → String
      → AuthResult ApiKeyConfig
      → Exec Db (Validation × Option ℕ)
  unfolding check_found
  look_up clock instant last required raw_key (err e) =
      pure (invalid no_default_configuration, last)
  look_up clock instant last required raw_key (ok config) =
      attempt (get_api_key_by_hash (hashed config raw_key))
      >>= check_found clock instant last required

  unfoldable pub validate_api_key :
      (ℕ → ℕ) → ℕ → Option ℕ → String → Option json.Value → Exec Db (Validation × Option ℕ)
  unfolding look_up
  validate_api_key clock instant last raw_key required =
      look_up clock instant last required raw_key (resolve_configuration configurations none)
