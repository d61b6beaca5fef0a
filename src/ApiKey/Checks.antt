-- ===== src/ApiKey/Checks.antt =====
-- What the handlers of crates/api/src/plugins/api_key/handlers.rs check before they reach the database, and the
-- rows and updates that they write.
use better_auth_rs.Prelude.{
  ℕ, ℤ, String, Bool, true, false, ◌||◌, ◌&&◌, Option, none, some, is_some, is_none, or_else,
  unwrap_or, if◌then◌else◌,
}
use better_auth_rs.Error.{AuthResult, ok}
use better_auth_rs.Error.Chain.{◌>>=◌, ◌>>◌}
use better_auth_rs.ApiKey.Usage.{UpdateApiKey}
use better_auth_rs.ApiKey.Statements.{CreateApiKey}
use better_auth_rs.ApiKey.Config.{
  ApiKeyConfig, server_only_property, no_values_to_update, key_disabled_expiration,
}
use better_auth_rs.ApiKey.Permissions.{JsonCrate}
use better_auth_rs.ApiKey.Generate.{GeneratedKey}
use better_auth_rs.ApiKey.Requests.{CreateKeyRequest, UpdateKeyRequest}
use better_auth_rs.ApiKey.Validators.{
  Float, refuse, validate_prefix, validate_name, validate_refill, validate_metadata,
  validate_expires_in, expires_in_to_at,
}

module _ (json : JsonCrate) where
  abbrev pub creates_server_only : CreateKeyRequest json → Bool
  creates_server_only body =
      is_some body.refill_amount
      || is_some body.refill_interval
      || is_some body.rate_limit_max
      || is_some body.rate_limit_time_window
      || is_some body.rate_limit_enabled
      || is_some body.permissions
      || is_some body.remaining

  abbrev pub updates_server_only : UpdateKeyRequest json → Bool
  updates_server_only body =
      is_some body.refill_amount
      || is_some body.refill_interval
      || is_some body.rate_limit_max
      || is_some body.rate_limit_time_window
      || is_some body.rate_limit_enabled
      || is_some body.remaining
      || is_some body.permissions

  abbrev pub has_no_values : UpdateKeyRequest json → Bool
  has_no_values body =
      is_none body.name && is_none body.enabled && is_none body.expires_in && is_none body.metadata

  abbrev text_of : Option json.Value → Option String
  text_of none = none
  text_of (some v) = some (json.to_string v)

  abbrev pub check_update_fields : UpdateKeyRequest json → AuthResult {0} Unit
  check_update_fields body =
      if updates_server_only body
      then refuse server_only_property
      else if has_no_values body
      then refuse no_values_to_update
      else ok tt

  abbrev pub create_input :
      ApiKeyConfig → CreateKeyRequest json → String → GeneratedKey → Option ℕ → CreateApiKey
  create_input config body reference_id generated expires_at = record {
    reference_id = reference_id;
    config_id = config.config_id;
    name = body.name;
    prefix = or_else body.prefix config.prefix;
    key_hash = generated.hash;
    start = if config.store_starting_characters then some generated.start else none;
    expires_at = expires_at;
    remaining = or_else body.remaining config.default_remaining;
    rate_limit_enabled = unwrap_or body.rate_limit_enabled config.rate_limit.enabled;
    rate_limit_time_window =
        or_else body.rate_limit_time_window (some config.rate_limit.time_window);
    rate_limit_max = or_else body.rate_limit_max (some config.rate_limit.max_requests);
    refill_interval = body.refill_interval;
    refill_amount = body.refill_amount;
    permissions = text_of body.permissions;
    metadata = text_of body.metadata;
    enabled = true;
  }

  abbrev pub update_input : UpdateKeyRequest json → Option (Option ℕ) → UpdateApiKey
  update_input body expires_at = record {
    name = body.name;
    enabled = body.enabled;
    remaining = body.remaining;
    rate_limit_enabled = body.rate_limit_enabled;
    rate_limit_time_window = body.rate_limit_time_window;
    rate_limit_max = body.rate_limit_max;
    refill_interval = body.refill_interval;
    refill_amount = body.refill_amount;
    permissions = text_of body.permissions;
    metadata = text_of body.metadata;
    expires_at = expires_at;
    last_request = none;
    request_count = none;
    last_refill_at = none;
  }

  abbrev pub check_name_and_metadata : ApiKeyConfig → UpdateKeyRequest json → AuthResult {0} Unit
  check_name_and_metadata config body =
      validate_name config body.name false >> validate_metadata json config body.metadata

  module _ (float : Float) where
    -- The lifetime that a new key gets.
    abbrev pub check_create : ApiKeyConfig → CreateKeyRequest json → AuthResult (Option ℤ)
    check_create config body = do
      validate_prefix config body.prefix
      validate_name config body.name true
      validate_metadata json config body.metadata
      validate_refill body.refill_interval body.refill_amount
      validate_expires_in float config body.expires_in

    abbrev as_update : Option ℕ → Option (Option ℕ)
    as_update none = none
    as_update (some at) = some (some at)

    -- What an update does to the expiry: nothing, clear it, or set it.
    unfoldable pub expiry_update :
        (ℕ → ℤ → Option ℕ) → ℕ → ApiKeyConfig → Option (Option ℤ) → AuthResult (Option (Option ℕ))
    expiry_update after_seconds now config none = ok none
    expiry_update after_seconds now config (some sent) =
        if config.key_expiration.disable_custom_expires_time
        then refuse key_disabled_expiration
        else set_to sent
      where
        set_to : Option ℤ → AuthResult (Option (Option ℕ))
        set_to none = ok (some none)
        set_to (some secs) = do
          validated ← validate_expires_in float config (some secs)
          at ← expires_in_to_at after_seconds now validated
          ok (as_update at)
