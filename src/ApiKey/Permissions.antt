-- ===== src/ApiKey/Permissions.antt =====
-- `check_permissions` of crates/api/src/plugins/api_key/handlers.rs. JSON values are serde_json's: what
-- the code asks of one is a parameter, as is its parsing of the permissions of a key.
use better_auth_rs.Prelude.{
  String, Bool, false, Option, none, some, List, any, all, unwrap_or, if◌then◌else◌, ◌==◌,
}
use better_auth_rs.Request.{lookup}

-- `Value::as_object`, `as_array`, `as_str`, `is_null`, `serde_json::to_string` (or no text), and
-- `serde_json::from_str` at `Value` and at `HashMap<String, Vec<String>>`.
pub record JsonCrate : Type 1 where
  pub Value : Type 0
  pub as_object : Value → Option (List (String × Value))
  pub as_array : Value → Option (List Value)
  pub as_str : Value → Option String
  pub is_null : Value → Bool
  pub to_string : Value → String
  pub parse : String → Option Value
  pub parse_permissions : String → Option (List (String × List String))

module _ (json : JsonCrate) where
  abbrev pub is_action_allowed : List String → json.Value → Bool
  is_action_allowed allowed value = elim (json.as_str value) [
    | none ↦ false
    | some action ↦ any (λ a. a == action) allowed
  ]

  -- The actions and the connector of the object form.
  abbrev pub object_actions : List (String × json.Value) → Option (List json.Value)
  object_actions obj = elim (lookup "actions" obj) [ none ↦ none | some v ↦ json.as_array v ]

  abbrev pub connector : List (String × json.Value) → String
  connector obj =
      unwrap_or (elim (lookup "connector" obj) [ none ↦ none | some v ↦ json.as_str v ]) "AND"

  abbrev pub connected : String → List String → Option (List json.Value) → Bool
  connected word allowed none = false
  connected word allowed (some actions) =
      if word == "OR"
      then any (is_action_allowed allowed) actions
      else all (is_action_allowed allowed) actions

  abbrev pub object_allowed : List String → Option (List (String × json.Value)) → Bool
  object_allowed allowed none = false
  object_allowed allowed (some obj) = connected (connector obj) allowed (object_actions obj)

  abbrev pub requested_allowed :
      List String → Option (List json.Value) → Option (List (String × json.Value)) → Bool
  requested_allowed allowed (some actions) obj = all (is_action_allowed allowed) actions
  requested_allowed allowed none obj = object_allowed allowed obj

  abbrev pub resource_allowed : Option (List String) → json.Value → Bool
  resource_allowed none requested = false
  resource_allowed (some allowed) requested =
      requested_allowed allowed (json.as_array requested) (json.as_object requested)

  abbrev pub check_maps :
      Option (List (String × json.Value)) → Option (List (String × List String)) → Bool
  check_maps none key_map = false
  check_maps (some required) none = false
  check_maps (some required) (some key_map) =
      all (λ (resource, requested). resource_allowed (lookup resource key_map) requested) required

  unfoldable pub check_permissions : String → json.Value → Bool
  unfolding lookup
  check_permissions key_permissions required =
      check_maps (json.as_object required) (json.parse_permissions key_permissions)
