-- ===== src/ApiKey/Validators.antt =====
-- The validators of crates/api/src/plugins/api_key/mod.rs and `expires_in_to_at` of
-- plugins/helpers.rs. Floating-point arithmetic and chrono's are parameters.
use Prim.Native.String.{len}
use better_auth_rs.Prelude.{
  ℕ, ℤ, String, Bool, not, ◌&&◌, ◌||◌, Option, none, some, ltb, is_some, is_none, if◌then◌else◌,
}
use better_auth_rs.Error.{AuthResult, ok, err, bad_request}
use better_auth_rs.ApiKey.Config.{
  ApiKeyErrorCode, ApiKeyConfig, api_key_error, invalid_prefix_length, invalid_name_length,
  name_required, metadata_disabled, invalid_metadata_type, refill_amount_and_interval_required,
  key_disabled_expiration, expires_in_too_small, expires_in_too_large,
}
use better_auth_rs.ApiKey.Permissions.{JsonCrate}

abbrev pub refuse : {A : Type 0} → ApiKeyErrorCode → AuthResult A
refuse code = err (api_key_error code)

abbrev is_outside : ℕ → ℕ → String → Bool
is_outside least most text = ltb (len text) least || ltb most (len text)

unfoldable pub validate_prefix : ApiKeyConfig → Option String → AuthResult {0} Unit
validate_prefix config none = ok tt
validate_prefix config (some p) =
    if is_outside config.min_prefix_length config.max_prefix_length p
    then refuse invalid_prefix_length
    else ok tt

abbrev name_fits : ApiKeyConfig → Option String → AuthResult {0} Unit
name_fits config none = ok tt
name_fits config (some n) =
    if is_outside config.min_name_length config.max_name_length n
    then refuse invalid_name_length
    else ok tt

unfoldable pub validate_name : ApiKeyConfig → Option String → Bool → AuthResult {0} Unit
validate_name config name is_create =
    if is_create && config.require_name && is_none name
    then refuse name_required
    else name_fits config name

unfoldable pub validate_refill : Option ℤ → Option ℤ → AuthResult {0} Unit
validate_refill (some interval) none = refuse refill_amount_and_interval_required
validate_refill none (some amount) = refuse refill_amount_and_interval_required
validate_refill (some interval) (some amount) = ok tt
validate_refill none none = ok tt

module _ (json : JsonCrate) where
  abbrev metadata_fits : Option json.Value → AuthResult {0} Unit
  metadata_fits none = ok tt
  metadata_fits (some v) =
      if not (is_some (json.as_object v)) && not (json.is_null v)
      then refuse invalid_metadata_type
      else ok tt

  unfoldable pub validate_metadata : ApiKeyConfig → Option json.Value → AuthResult {0} Unit
  validate_metadata config metadata =
      if is_some metadata && not config.enable_metadata
      then refuse metadata_disabled
      else metadata_fits metadata

-- `f64`: conversion, division and comparison.
pub record Float : Type 1 where
  pub F64 : Type 0
  pub of_i64 : ℤ → F64
  pub divide : F64 → F64 → F64
  pub is_below : F64 → F64 → Bool
  pub seconds_of_day : F64

module _ (float : Float) where
  open float use {of_i64, divide, is_below, seconds_of_day}

  abbrev days_fit : ApiKeyConfig → ℤ → float.F64 → AuthResult (Option ℤ)
  days_fit config secs days =
      if is_below days (of_i64 config.key_expiration.min_expires_in)
      then refuse expires_in_too_small
      else if is_below (of_i64 config.key_expiration.max_expires_in) days
      then refuse expires_in_too_large
      else ok (some secs)

  unfoldable pub validate_expires_in : ApiKeyConfig → Option ℤ → AuthResult (Option ℤ)
  validate_expires_in config none = ok config.key_expiration.default_expires_in
  validate_expires_in config (some secs) =
      if config.key_expiration.disable_custom_expires_time
      then refuse key_disabled_expiration
      else days_fit config secs (divide (of_i64 secs) seconds_of_day)

-- `after_seconds` is chrono's `try_seconds` and `checked_add_signed`: no instant is out of range.
abbrev in_range : Option ℕ → AuthResult (Option ℕ)
in_range none = err (bad_request "expiresIn is out of range")
in_range (some at) = ok (some at)

unfoldable pub expires_in_to_at : (ℕ → ℤ → Option ℕ) → ℕ → Option ℤ → AuthResult (Option ℕ)
expires_in_to_at after_seconds now none = ok none
expires_in_to_at after_seconds now (some secs) = in_range (after_seconds now secs)
