-- ===== src/ApiKey/Keys/Listing.antt =====
-- `list_keys_core` and `sort_views` of crates/api/src/plugins/api_key/handlers.rs. Dates travel as RFC 3339
-- texts of UTC, which are ordered as their instants are.
use Prim.Native.String
use text.Mathlib.Text.{is_le}
use better_auth_rs.Prelude.{
  ℕ, String, Bool, true, false, Option, none, some, List, map, keep, length, take, drop, reverse,
  sort_by, leb, if◌then◌else◌, ◌==◌,
}
use better_auth_rs.Store.{Exec, pure, lift, ◌>>=◌}
use better_auth_rs.Store.Db.{ApiKey, Db}
use better_auth_rs.ApiKey.Statements.{list_api_keys_by_reference}
use better_auth_rs.ApiKey.Config.{ApiKeyConfig, config_id_matches, resolve_configuration}
use better_auth_rs.ApiKey.Permissions.{JsonCrate}
use better_auth_rs.ApiKey.Validate.{maybe_delete_expired}
use better_auth_rs.ApiKey.Requests.{ApiKeyView, ListKeysQuery, view_of}
use better_auth_rs.ApiKey.Keys.{KeyPlugin, Moment, reference_of}

-- `Ord` of `Option`: `None` comes first.
abbrev pub option_le : {A : Type 0} → (A → A → Bool) → Option A → Option A → Bool
option_le le none b = true
option_le le (some a) none = false
option_le le (some a) (some b) = le a b

abbrev pub text_le : String → String → Bool
text_le s t = is_le (Prim.Native.String.compare s t)

module _ (json : JsonCrate) where
  abbrev pub reversed_if : Option String → List (ApiKeyView json) → List (ApiKeyView json)
  reversed_if none views = views
  reversed_if (some direction) views = if direction == "desc" then reverse views else views

  unfoldable pub sort_views :
      String → Option String → List (ApiKeyView json) → List (ApiKeyView json)
  sort_views field direction views =
      if field == "createdAt"
      then reversed_if direction (sort_by (λ a b. leb a.created_at b.created_at) views)
      else if field == "updatedAt"
      then reversed_if direction (sort_by (λ a b. leb a.updated_at b.updated_at) views)
      else if field == "name"
      then reversed_if direction (sort_by (λ a b. option_le text_le a.name b.name) views)
      else if field == "expiresAt"
      then reversed_if direction (sort_by (λ a b. option_le leb a.expires_at b.expires_at) views)
      else views

  abbrev pub sorted_as_asked : ListKeysQuery → List (ApiKeyView json) → List (ApiKeyView json)
  sorted_as_asked query views = elim query.sort_by [
    | none ↦ views
    | some field ↦ sort_views field query.sort_direction views
  ]

  abbrev pub from_offset : Option ℕ → List (ApiKeyView json) → List (ApiKeyView json)
  from_offset none views = views
  from_offset (some offset) views = drop offset views

  abbrev pub up_to_limit : Option ℕ → List (ApiKeyView json) → List (ApiKeyView json)
  up_to_limit none views = views
  up_to_limit (some limit) views = take limit views

  -- The views of a configuration's keys.
  abbrev pub views_in : ApiKeyConfig → List ApiKey → List (ApiKeyView json)
  views_in config keys =
      keep (λ view. config_id_matches view.config_id config.config_id) (map (view_of json) keys)

  pub record ListKeysResponse : Type 0 where
    pub api_keys : List (ApiKeyView json)
    pub total : ℕ
    pub limit : Option ℕ
    pub offset : Option ℕ

  abbrev pub list_response : ListKeysQuery → List (ApiKeyView json) → ListKeysResponse
  list_response query views = record {
    api_keys = up_to_limit query.limit (from_offset query.offset (sorted_as_asked query views));
    total = length (sorted_as_asked query views);
    limit = query.limit;
    offset = query.offset;
  }

module _ (plugin : KeyPlugin) (moment : Moment) where
  open plugin use {json, configurations}
  open moment use {clock, instant, last}

  unfoldable pub list_keys_core :
      ListKeysQuery → String → Exec Db (ListKeysResponse json × Option ℕ)
  list_keys_core query user_id = do
    config ← lift (resolve_configuration configurations query.config_id)
    reference_id ← reference_of plugin config.references user_id "read" query.organization_id
    keys ← list_api_keys_by_reference reference_id
    last' ← maybe_delete_expired instant (clock 0) last
    pure (list_response json query (views_in json config keys), last')
