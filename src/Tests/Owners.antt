-- ===== src/Tests/Owners.antt =====
-- The theorems on who may use an API key at work.
use better_auth_rs.Prelude.{
  ℕ, pos, String, true, false, none, some, [], ◌∷◌, ◌≡◌, refl, All, none_ne_some,
}
use better_auth_rs.Error.{ok}
use better_auth_rs.Request.{parsed}
use better_auth_rs.Store.{World, alone, query, ◌>>=◌}
use better_auth_rs.Store.Table.{find}
use better_auth_rs.Store.Db.{ApiKey, Db}
use better_auth_rs.ApiKey.Config.{ApiKeyConfig, resolve_configuration}
use better_auth_rs.ApiKey.Usage.{set_keys}
use better_auth_rs.ApiKey.Statements.{get_api_key_by_id, list_api_keys_by_reference, create_api_key}
use better_auth_rs.ApiKey.Access.{owned, check_owner, get_owned_api_key}
use better_auth_rs.ApiKey.Validate.{maybe_delete_expired}
use better_auth_rs.ApiKey.Validators.{
  Float, validate_prefix, validate_name, validate_refill, validate_metadata, validate_expires_in,
  expires_in_to_at,
}
use better_auth_rs.ApiKey.Generate.{generate_key}
use better_auth_rs.ApiKey.Requests.{CreateKeyRequest, ListKeysQuery, view_of}
use better_auth_rs.ApiKey.Keys.{
  KeyPlugin, Moment, reference_of, create_for, create_key_core, get_key_core,
}
use better_auth_rs.ApiKey.Keys.Authorized.{Owned, get_key_core_sound}
use better_auth_rs.ApiKey.Keys.Listing.{ListKeysResponse, list_response, list_keys_core}
use better_auth_rs.ApiKey.Keys.Listed.{MayList, IsOf, list_keys_core_sound}
use better_auth_rs.ApiKey.Keys.RoundTrip.{Created, create_key_core-Created}
use better_auth_rs.ApiKey.Plugin.{delete, handle_for}
use better_auth_rs.ApiKey.Plugin.Stays.{CannotChange, Stands}
use better_auth_rs.ApiKey.Plugin.Isolation.{handle_for-Stands}
use better_auth_rs.Tests.{key, clock, db, visited, request}
use better_auth_rs.Tests.Keys.{default_key_config, texts}

abbrev short_config : ApiKeyConfig
short_config = record default_key_config { key_length = 2 }

-- Numbers are themselves, and none is below another.
abbrev no_float : Float
no_float = record {
  F64 = ℕ;
  of_i64 = λ n. 0;
  divide = λ a b. a;
  is_below = λ a b. false;
  seconds_of_day = 86_400;
}

abbrev key_plugin : KeyPlugin
key_plugin = record {
  json = texts;
  float = no_float;
  configurations = short_config ∷ [];
  metadata = record { enabled = none; creator_role = none; roles = none; to_lowercase = λ s. s };
  hash_key = λ s. s;
  after_seconds = λ now secs. none;
}

abbrev moment : Moment
moment = record { clock = clock; instant = 7; last = some 7; draws = λ i. i; id = "new" }

key-Stands : Stands key_plugin.metadata key_plugin.configurations "key" key "bob" db
unfolding find CannotChange
key-Stands = record { found = refl; closed = ((refl, refl), tt) }

handle_for-Stands_example :
    Stands key_plugin.metadata key_plugin.configurations "key" key "bob"
      (handle_for key_plugin moment request
        (delete (parsed (record { config_id = none; key_id = "key" })))
        "bob"
        visited).1.db
handle_for-Stands_example =
    handle_for-Stands key_plugin moment request
      (delete (parsed (record { config_id = none; key_id = "key" }))) "key" key "bob" visited
      (λ n. refl) refl ((λ d. record { at = λ s. s }), tt) key-Stands

key_shown :
    (get_key_core key_plugin moment "key" none "alice" visited).0 ≡ ok (view_of texts key, some 7)
unfolding get_key_core resolve_configuration get_owned_api_key get_api_key_by_id owned check_owner
    maybe_delete_expired find query ◌>>=◌
key_shown = refl

get_key_core_sound_example :
    (k : ApiKey) × Owned key_plugin none "key" "alice" "read" visited k
    × (view_of texts key ≡ view_of texts k)
get_key_core_sound_example =
    get_key_core_sound key_plugin moment "key" none "alice" (view_of texts key) (some 7) visited
      key_shown

abbrev all_keys : ListKeysQuery
all_keys = record {
  config_id = none;
  organization_id = none;
  limit = some 5;
  offset = none;
  sort_by = none;
  sort_direction = none;
}

abbrev keys_of_alice : ListKeysResponse texts
keys_of_alice = list_response texts all_keys (view_of texts key ∷ [])

keys_listed :
    (list_keys_core key_plugin moment all_keys "alice" visited).0 ≡ ok (keys_of_alice, some 7)
unfolding list_keys_core resolve_configuration reference_of list_api_keys_by_reference
    maybe_delete_expired find query ◌>>=◌
keys_listed = refl

list_keys_core_sound_example :
    (c : ApiKeyConfig) × (reference_id : String) × (resolve_configuration key_plugin.configurations
        none
      ≡ ok c)
    × MayList key_plugin "alice" none visited c.references reference_id
    × All (IsOf texts c reference_id) keys_of_alice.api_keys
list_keys_core_sound_example =
    list_keys_core_sound key_plugin moment all_keys "alice" keys_of_alice (some 7) visited
      keys_listed

abbrev plain : CreateKeyRequest texts
plain = record {
  config_id = none;
  organization_id = none;
  name = some "my key";
  prefix = none;
  expires_in = none;
  remaining = none;
  rate_limit_enabled = none;
  rate_limit_time_window = none;
  rate_limit_max = none;
  refill_interval = none;
  refill_amount = none;
  permissions = none;
  metadata = none;
}

abbrev new_key : ApiKey
new_key = record key {
  id = "new";
  name = some "my key";
  start = some "ab";
  key_hash = "ab";
  rate_limit_enabled = true;
  rate_limit_time_window = some (pos 86_400_000);
  rate_limit_max = some (pos 10);
  remaining = none;
  created_at = 10;
  updated_at = 10;
}

abbrev after_creation : World Db
after_creation = alone (set_keys db (new_key ∷ key ∷ []))

key_created :
    create_key_core key_plugin moment plain "alice" (alone db)
    ≡ (ok (("ab", view_of texts new_key), some 7), after_creation)
unfolding create_key_core resolve_configuration reference_of create_for create_api_key generate_key
    validate_prefix validate_name validate_refill validate_metadata validate_expires_in
    expires_in_to_at maybe_delete_expired find query ◌>>=◌
key_created = refl

create_key_core-Created_example :
    (c : ApiKeyConfig) × (resolve_configuration key_plugin.configurations none ≡ ok c)
    × Created key_plugin c "ab" (view_of texts new_key) after_creation
create_key_core-Created_example =
    create_key_core-Created key_plugin moment plain "alice" "ab" (view_of texts new_key) (some 7) db
      after_creation (λ t h. absurd (none_ne_some h)) key_created
