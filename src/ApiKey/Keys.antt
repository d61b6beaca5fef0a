-- ===== src/ApiKey/Keys.antt =====
-- The handlers of crates/api/src/plugins/api_key/handlers.rs: creating, reading, updating and deleting a key.
-- As the cleanup does, each answers with the instant of the last cleanup too. `clock` reads the time of day,
-- `instant` is the monotonic clock's.
pub mod Listing
pub mod Authorized
pub mod Listed
pub mod RoundTrip
use better_auth_rs.Prelude.{ℕ, ℤ, String, Option, none, some, List, if◌then◌else◌}
use better_auth_rs.Error.{AuthResult}
use better_auth_rs.Store.{Exec, pure, throw, lift, ◌>>=◌, ◌>>◌}
use better_auth_rs.Store.Db.{ApiKey, Db}
use better_auth_rs.ApiKey.Statements.{create_api_key, update_api_key, delete_api_key}
use better_auth_rs.ApiKey.Config.{
  ApiKeyReferences, ApiKeyConfig, user, organization, api_key_error, resolve_configuration,
  server_only_property, organization_id_required,
}
use better_auth_rs.ApiKey.Permissions.{JsonCrate}
use better_auth_rs.ApiKey.Validate.{maybe_delete_expired}
use better_auth_rs.ApiKey.Validators.{Float, expires_in_to_at}
use better_auth_rs.ApiKey.Generate.{GeneratedKey, generate_key}
use better_auth_rs.ApiKey.Access.{
  OrganizationMetadata, require_org_api_key_permission, get_owned_api_key,
}
use better_auth_rs.ApiKey.Requests.{
  CreateKeyRequest, UpdateKeyRequest, DeleteKeyRequest, ApiKeyView, view_of,
}
use better_auth_rs.ApiKey.Checks.{
  creates_server_only, check_create, create_input, check_update_fields, check_name_and_metadata,
  expiry_update, update_input,
}

-- The plugin, the context's metadata, and the crates that it calls.
pub record KeyPlugin : Type 1 where
  pub json : JsonCrate
  pub float : Float
  pub configurations : List ApiKeyConfig
  pub metadata : OrganizationMetadata
  pub hash_key : String → String
  pub after_seconds : ℕ → ℤ → Option ℕ

-- What a call finds besides the database: the clocks, the last cleanup and what the generator draws.
pub record Moment : Type 0 where
  pub clock : ℕ → ℕ
  pub instant : ℕ
  pub last : Option ℕ
  pub draws : ℕ → ℕ
  pub id : String

module _ (plugin : KeyPlugin) where
  open plugin use {json, float, configurations, metadata, hash_key, after_seconds}

  unfoldable pub in_organization : String → String → Option String → Exec Db String
  in_organization user_id action none = throw (api_key_error organization_id_required)
  in_organization user_id action (some organization_id) =
      require_org_api_key_permission metadata user_id organization_id action >> pure organization_id

  -- The owner that a configuration's keys refer to: the caller, or the organization that is named.
  unfoldable pub reference_of : ApiKeyReferences → String → String → Option String → Exec Db String
  unfolding in_organization
  reference_of user user_id action organization_id = pure user_id
  reference_of organization user_id action organization_id =
      in_organization user_id action organization_id

  module _ (moment : Moment) where
    open moment use {clock, instant, last, draws, id}

    unfoldable pub create_for :
        ApiKeyConfig
        → CreateKeyRequest json
        → Option ℤ
        → String
        → Exec Db ((String × ApiKeyView json) × Option ℕ)
    create_for config body effective_expires_in reference_id = do
      let generated = generate_key hash_key draws config body.prefix
      expires_at ← lift (expires_in_to_at after_seconds (clock 0) effective_expires_in)
      key ←
          create_api_key id (clock 1)
            (create_input json config body reference_id generated expires_at)
      last' ← maybe_delete_expired instant (clock 2) last
      pure ((generated.full_key, view_of json key), last')

    unfoldable pub create_key_core :
        CreateKeyRequest json → String → Exec Db ((String × ApiKeyView json) × Option ℕ)
    unfolding create_for reference_of
    create_key_core body user_id =
        if creates_server_only json body
        then throw (api_key_error server_only_property)
        else lift (resolve_configuration configurations body.config_id) >>= λ config.
            lift (check_create json float config body) >>= λ effective_expires_in.
            reference_of config.references user_id "create" body.organization_id
            >>= create_for config body effective_expires_in

    unfoldable pub get_key_core :
        String → Option String → String → Exec Db (ApiKeyView json × Option ℕ)
    get_key_core key_id config_id user_id = do
      config ← lift (resolve_configuration configurations config_id)
      key ← get_owned_api_key metadata config key_id user_id "read"
      last' ← maybe_delete_expired instant (clock 0) last
      pure (view_of json key, last')

    unfoldable pub update_owned :
        ApiKeyConfig → UpdateKeyRequest json → ApiKey → Exec Db (ApiKeyView json × Option ℕ)
    update_owned config body existing = do
      expires_at ← lift (expiry_update json float after_seconds (clock 0) config body.expires_in)
      updated ← update_api_key body.key_id (update_input json body expires_at) (clock 1)
      last' ← maybe_delete_expired instant (clock 2) last
      pure (view_of json updated, last')

    unfoldable pub update_key_core :
        UpdateKeyRequest json → String → Exec Db (ApiKeyView json × Option ℕ)
    unfolding update_owned
    update_key_core body user_id = do
      lift (check_update_fields json body)
      config ← lift (resolve_configuration configurations body.config_id)
      lift (check_name_and_metadata json config body)
      existing ← get_owned_api_key metadata config body.key_id user_id "update"
      update_owned config body existing

  unfoldable pub delete_key_core : DeleteKeyRequest → String → Exec Db (Unit {0})
  delete_key_core body user_id = do
    config ← lift (resolve_configuration configurations body.config_id)
    existing ← get_owned_api_key metadata config body.key_id user_id "delete"
    delete_api_key body.key_id
