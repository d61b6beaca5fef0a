-- ===== src/Tests/Keys.antt =====
-- The theorem on validated API keys at work.
use better_auth_rs.Prelude.{pos, String, true, false, none, some, [], ◌∷◌, ◌≡◌, refl}
use better_auth_rs.Error.{ok}
use better_auth_rs.Store.{query, ◌>>=◌}
use better_auth_rs.Store.Table.{find, count, update_where, delete_where}
use better_auth_rs.Store.Db.{ApiKey}
use better_auth_rs.ApiKey.Usage.{apply_update_fields, consume}
use better_auth_rs.ApiKey.Statements.{
  get_api_key_by_hash, consume_api_key_usage, delete_expired_api_keys,
}
use better_auth_rs.ApiKey.Config
use better_auth_rs.ApiKey.Config.{ApiKeyConfig, resolve_configuration}
use better_auth_rs.ApiKey.Permissions.{JsonCrate}
use better_auth_rs.ApiKey.Validate.{valid, hashed, maybe_delete_expired, validate_api_key}
use better_auth_rs.ApiKey.Validate.Soundness.{IsUsable, validate_api_key_sound}
use better_auth_rs.Tests.{key, clock, visited}

abbrev pub default_key_config : ApiKeyConfig
default_key_config = record {
  config_id = "default";
  references = Config.user;
  key_length = 64;
  prefix = none;
  default_remaining = none;
  api_key_header = "x-api-key";
  disable_key_hashing = true;
  starting_characters_length = 6;
  store_starting_characters = true;
  max_prefix_length = 32;
  min_prefix_length = 1;
  max_name_length = 32;
  min_name_length = 1;
  require_name = false;
  enable_metadata = false;
  key_expiration = record {
    default_expires_in = none;
    disable_custom_expires_time = false;
    max_expires_in = pos 365;
    min_expires_in = pos 1;
  };
  rate_limit = record { enabled = true; time_window = pos 86_400_000; max_requests = pos 10 };
  enable_session_for_api_keys = false;
}

-- Texts as JSON: no text is an object or an array.
abbrev pub texts : JsonCrate
texts = record {
  Value = String;
  as_object = λ v. none;
  as_array = λ v. none;
  as_str = λ v. some v;
  is_null = λ v. false;
  to_string = λ v. v;
  parse = λ s. some s;
  parse_permissions = λ s. none;
}

abbrev used_key : ApiKey
used_key = record key { remaining = some (pos 1); last_request = some 10; updated_at = 10 }

key_validated :
    (validate_api_key texts (λ s. s) (default_key_config ∷ []) clock 7 none "hash" none visited).0
    ≡ ok (valid used_key, some 7)
unfolding validate_api_key resolve_configuration get_api_key_by_hash consume_api_key_usage consume
    apply_update_fields maybe_delete_expired delete_expired_api_keys ◌>>=◌ query find count
    update_where delete_where
key_validated = refl

validate_api_key_sound_example :
    (config : ApiKeyConfig) × (k : ApiKey) × (resolve_configuration (default_key_config ∷ []) none
      ≡ ok config)
    × ((get_api_key_by_hash
          (hashed texts (λ s. s) (default_key_config ∷ []) config "hash")
          visited).0
        ≡ ok (some k))
    × IsUsable texts
        (λ s. s)
        (default_key_config ∷ [])
        clock
        none
        (get_api_key_by_hash
          (hashed texts (λ s. s) (default_key_config ∷ []) config "hash")
          visited).1
        k
        used_key
validate_api_key_sound_example =
    validate_api_key_sound texts (λ s. s) (default_key_config ∷ []) clock 7 none (some 7) used_key
      none "hash" visited key_validated
