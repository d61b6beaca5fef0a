-- ===== src/ApiKey/Config.antt =====
-- crates/api/src/plugins/api_key/mod.rs: the error codes, the configurations and how a request
-- addresses one of them.
use better_auth_rs.Prelude.{
  ℕ, ℤ, String, Bool, true, ◌&&◌, ◌||◌, Option, none, some, List, or_else, if◌then◌else◌, is_empty,
  ◌==◌,
}
use better_auth_rs.Error.{AuthError, AuthResult, ok, err, bad_request}
use better_auth_rs.Store.Table.{find}

pub data ApiKeyErrorCode : Type 0 where
  invalid_api_key key_disabled key_expired usage_exceeded : ApiKeyErrorCode
  key_not_found rate_limited unauthorized_session invalid_prefix_length : ApiKeyErrorCode
  invalid_name_length metadata_disabled no_values_to_update key_disabled_expiration :
      ApiKeyErrorCode
  expires_in_too_small expires_in_too_large invalid_remaining refill_amount_and_interval_required :
      ApiKeyErrorCode
  name_required invalid_user_id_from_api_key no_default_configuration organization_id_required :
      ApiKeyErrorCode
  organization_plugin_required user_not_member_of_organization insufficient_api_key_permissions
        server_only_property :
      ApiKeyErrorCode
  failed_to_update_api_key invalid_metadata_type : ApiKeyErrorCode

abbrev pub as_str : ApiKeyErrorCode → String
as_str invalid_api_key = "INVALID_API_KEY"
as_str key_disabled = "KEY_DISABLED"
as_str key_expired = "KEY_EXPIRED"
as_str usage_exceeded = "USAGE_EXCEEDED"
as_str key_not_found = "KEY_NOT_FOUND"
as_str rate_limited = "RATE_LIMITED"
as_str unauthorized_session = "UNAUTHORIZED_SESSION"
as_str invalid_prefix_length = "INVALID_PREFIX_LENGTH"
as_str invalid_name_length = "INVALID_NAME_LENGTH"
as_str metadata_disabled = "METADATA_DISABLED"
as_str no_values_to_update = "NO_VALUES_TO_UPDATE"
as_str key_disabled_expiration = "KEY_DISABLED_EXPIRATION"
as_str expires_in_too_small = "EXPIRES_IN_IS_TOO_SMALL"
as_str expires_in_too_large = "EXPIRES_IN_IS_TOO_LARGE"
as_str invalid_remaining = "INVALID_REMAINING"
as_str refill_amount_and_interval_required = "REFILL_AMOUNT_AND_INTERVAL_REQUIRED"
as_str name_required = "NAME_REQUIRED"
as_str invalid_user_id_from_api_key = "INVALID_USER_ID_FROM_API_KEY"
as_str no_default_configuration = "NO_DEFAULT_API_KEY_CONFIGURATION_FOUND"
as_str organization_id_required = "ORGANIZATION_ID_REQUIRED"
as_str organization_plugin_required = "ORGANIZATION_PLUGIN_REQUIRED"
as_str user_not_member_of_organization = "USER_NOT_MEMBER_OF_ORGANIZATION"
as_str insufficient_api_key_permissions = "INSUFFICIENT_API_KEY_PERMISSIONS"
as_str server_only_property = "SERVER_ONLY_PROPERTY"
as_str failed_to_update_api_key = "FAILED_TO_UPDATE_API_KEY"
as_str invalid_metadata_type = "INVALID_METADATA_TYPE"

abbrev pub message : ApiKeyErrorCode → String
message invalid_api_key = "Invalid API key."
message key_disabled = "API Key is disabled"
message key_expired = "API Key has expired"
message usage_exceeded = "API Key has reached its usage limit"
message key_not_found = "API Key not found"
message rate_limited = "Rate limit exceeded."
message unauthorized_session = "Unauthorized or invalid session"
message invalid_prefix_length = "The prefix length is either too large or too small."
message invalid_name_length = "The name length is either too large or too small."
message metadata_disabled = "Metadata is disabled."
message no_values_to_update = "No values to update."
message key_disabled_expiration = "Custom key expiration values are disabled."
message expires_in_too_small = "The expiresIn is smaller than the predefined minimum value."
message expires_in_too_large = "The expiresIn is larger than the predefined maximum value."
message invalid_remaining = "The remaining count is either too large or too small."
message refill_amount_and_interval_required =
    "refillAmount and refillInterval must both be provided together"
message name_required = "API Key name is required."
message invalid_user_id_from_api_key = "The user id from the API key is invalid."
message no_default_configuration = "No default api-key configuration found."
message organization_id_required = "Organization ID is required for organization-owned API keys."
message organization_plugin_required =
    "Organization plugin is required for organization-owned API keys. Please install and configure the organization plugin."
message user_not_member_of_organization =
    "You are not a member of the organization that owns this API key."
message insufficient_api_key_permissions =
    "You do not have permission to perform this action on organization API keys."
message server_only_property =
    "The property you're trying to set can only be set from the server auth instance only."
message failed_to_update_api_key = "Failed to update API key"
message invalid_metadata_type = "metadata must be an object or undefined"

abbrev pub api_key_error : ApiKeyErrorCode → AuthError
api_key_error code = bad_request (message code)

pub data ApiKeyReferences : Type 0 where
  user organization : ApiKeyReferences

pub record KeyExpirationConfig : Type 0 where
  pub default_expires_in : Option ℤ
  pub disable_custom_expires_time : Bool
  pub max_expires_in : ℤ
  pub min_expires_in : ℤ

pub record RateLimitDefaults : Type 0 where
  pub enabled : Bool
  pub time_window : ℤ
  pub max_requests : ℤ

pub record ApiKeyConfig : Type 0 where
  pub config_id : String
  pub references : ApiKeyReferences
  pub key_length : ℕ
  pub prefix : Option String
  pub default_remaining : Option ℤ
  pub api_key_header : String
  pub disable_key_hashing : Bool
  pub starting_characters_length : ℕ
  pub store_starting_characters : Bool
  pub max_prefix_length : ℕ
  pub min_prefix_length : ℕ
  pub max_name_length : ℕ
  pub min_name_length : ℕ
  pub require_name : Bool
  pub enable_metadata : Bool
  pub key_expiration : KeyExpirationConfig
  pub rate_limit : RateLimitDefaults
  pub enable_session_for_api_keys : Bool

abbrev pub is_default_config_id : String → Bool
is_default_config_id config_id = is_empty config_id || config_id == "default"

abbrev pub config_id_matches : String → String → Bool
config_id_matches key_config_id expected =
    if is_default_config_id key_config_id && is_default_config_id expected
    then true
    else key_config_id == expected

abbrev pub or_no_default : Option ApiKeyConfig → AuthResult ApiKeyConfig
or_no_default none = err (api_key_error no_default_configuration)
or_no_default (some config) = ok config

abbrev pub named : Option String → List ApiKeyConfig → Option ApiKeyConfig
named none configurations = none
named (some config_id) configurations =
    find (λ config. config.config_id == config_id) configurations

unfoldable pub resolve_configuration : List ApiKeyConfig → Option String → AuthResult ApiKeyConfig
resolve_configuration configurations config_id = or_no_default (
    or_else (named config_id configurations)
      (find (λ config. is_default_config_id config.config_id) configurations))
