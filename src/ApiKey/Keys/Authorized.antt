-- ===== src/ApiKey/Keys/Authorized.antt =====
-- What the handlers answer, they answer to a caller who may have it.
use better_auth_rs.Prelude.{ℕ, String, Option, ◌≡◌, sym, ap}
use better_auth_rs.Error.{ok, ok_of}
use better_auth_rs.Store.{World, lift, ◌>>=◌}
use better_auth_rs.Store.Answers.{bind_ok}
use better_auth_rs.Store.Db.{ApiKey, Db}
use better_auth_rs.ApiKey.Config.{ApiKeyConfig, resolve_configuration}
use better_auth_rs.ApiKey.Access.{get_owned_api_key}
use better_auth_rs.ApiKey.Access.Ownership.{WasOwned, get_owned_api_key_sound}
use better_auth_rs.ApiKey.Requests.{ApiKeyView, view_of}
use better_auth_rs.ApiKey.Validate.{maybe_delete_expired}
use better_auth_rs.ApiKey.Keys.{KeyPlugin, Moment, get_key_core}

module _ (plugin : KeyPlugin) where
  open plugin use {json, configurations, metadata}

  -- The caller was found to own the key by the reads that start on the world, under the configuration that the request addresses.
  pub record Owned (config_id : Option String) (key_id user_id action : String) (w : World Db)
      (key : ApiKey) : Type 1 where
    pub config : ApiKeyConfig
    pub resolved : resolve_configuration configurations config_id ≡ ok config
    pub owned : WasOwned metadata config key_id user_id action w key

  module _ (moment : Moment) where
    -- A key that is shown is the one that the first read found, and its caller is its owner or, by the
    -- membership that the second read found, may read the organization's keys, among any other
    -- requests and failures.
    pub get_key_core_sound :
        (key_id : String) (config_id : Option String) (user_id : String) (view : ApiKeyView json)
        (last : Option ℕ) (w : World Db)
        → (get_key_core plugin moment key_id config_id user_id w).0 ≡ ok (view, last)
        → (key : ApiKey) × Owned config_id key_id user_id "read" w key × (view ≡ view_of json key)
    unfolding get_key_core ◌>>=◌
    get_key_core_sound key_id config_id user_id view last w h =
        let (config, resolved, h1) =
          bind_ok (lift (resolve_configuration configurations config_id)) _ w (view, last) h in
        let (key, found, h2) =
          bind_ok (get_owned_api_key metadata config key_id user_id "read") _ _ (view, last) h1 in
        let (l, _, h3) =
          bind_ok (maybe_delete_expired moment.instant (moment.clock 0) moment.last) _ _
            (view, last) h2 in
        (
          key,
          record {
            config = config;
            resolved = resolved;
            owned = get_owned_api_key_sound metadata config key_id user_id "read" key _ found;
          },
          sym (ap (λ p. p.0) (ok_of h3)),
        )
