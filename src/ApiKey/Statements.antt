-- ===== src/ApiKey/Statements.antt =====
-- The other statements of crates/seaorm/src/store/api_keys.rs.
use better_auth_rs.Prelude.{
  ℕ, ℤ, pos, String, Bool, false, Option, none, some, List, [], ◌∷◌, ltb, ◌==◌, keep, if◌then◌else◌,
}
use better_auth_rs.Error.{AuthResult, ok, err, not_found, database}
use better_auth_rs.Store.{Exec, query, read, lift, throw, ◌>>=◌}
use better_auth_rs.Store.Table.{find, update_where, delete_where, count}
use better_auth_rs.Store.Db.{ApiKey, Db}
use better_auth_rs.ApiKey.Usage.{
  UpdateApiKey, ConsumeApiKeyResult, apply_update_fields, consume, has_id, set_keys,
  to_optional_i32,
}

pub record CreateApiKey : Type 0 where
  pub reference_id : String
  pub config_id : String
  pub name : Option String
  pub prefix : Option String
  pub key_hash : String
  pub start : Option String
  pub expires_at : Option ℕ
  pub remaining : Option ℤ
  pub rate_limit_enabled : Bool
  pub rate_limit_time_window : Option ℤ
  pub rate_limit_max : Option ℤ
  pub refill_interval : Option ℤ
  pub refill_amount : Option ℤ
  pub permissions : Option String
  pub metadata : Option String
  pub enabled : Bool

-- The row of a new key, its checked columns given.
abbrev pub new_key :
    String
    → ℕ
    → CreateApiKey
    → (refill_interval refill_amount time_window max remaining : Option ℤ) → ApiKey
new_key id now input refill_interval refill_amount time_window max remaining = record {
  id = id;
  name = input.name;
  start = input.start;
  prefix = input.prefix;
  key_hash = input.key_hash;
  reference_id = input.reference_id;
  config_id = input.config_id;
  refill_interval = refill_interval;
  refill_amount = refill_amount;
  last_refill_at = none;
  enabled = input.enabled;
  rate_limit_enabled = input.rate_limit_enabled;
  rate_limit_time_window = time_window;
  rate_limit_max = max;
  request_count = some (pos 0);
  remaining = remaining;
  last_request = none;
  expires_at = input.expires_at;
  created_at = now;
  updated_at = now;
  permissions = input.permissions;
  metadata = input.metadata;
}

unfoldable pub create_api_key : String → ℕ → CreateApiKey → Exec Db ApiKey
create_api_key id now input = do
  refill_interval ← lift (to_optional_i32 input.refill_interval "refill_interval")
  refill_amount ← lift (to_optional_i32 input.refill_amount "refill_amount")
  time_window ← lift (to_optional_i32 input.rate_limit_time_window "rate_limit_time_window")
  max ← lift (to_optional_i32 input.rate_limit_max "rate_limit_max")
  remaining ← lift (to_optional_i32 input.remaining "remaining")
  let key = new_key id now input refill_interval refill_amount time_window max remaining
  query (λ d. (ok key, set_keys d (key ∷ d.api_keys)))

abbrev pub has_hash : String → ApiKey → Bool
has_hash hash key = key.key_hash == hash

abbrev pub refers_to : String → ApiKey → Bool
refers_to reference_id key = key.reference_id == reference_id

-- expires_at IS NOT NULL AND expires_at < now
abbrev pub is_expired : ℕ → ApiKey → Bool
is_expired now key = elim key.expires_at [ none ↦ false | some expires_at ↦ ltb expires_at now ]

unfoldable pub get_api_key_by_id : String → Exec Db (Option ApiKey)
get_api_key_by_id id = read (λ d. find (has_id id) d.api_keys)

unfoldable pub get_api_key_by_hash : String → Exec Db (Option ApiKey)
get_api_key_by_hash hash = read (λ d. find (has_hash hash) d.api_keys)

-- ORDER BY created_at ASC
abbrev pub insert_oldest_key : ApiKey → List ApiKey → List ApiKey
insert_oldest_key k [] = k ∷ []
insert_oldest_key k (j ∷ l) =
    let later = j ∷ insert_oldest_key k l in
    if ltb j.created_at k.created_at then later else k ∷ j ∷ l

abbrev pub oldest_keys_first : List ApiKey → List ApiKey
oldest_keys_first [] = []
oldest_keys_first (k ∷ l) = insert_oldest_key k (oldest_keys_first l)

unfoldable pub list_api_keys_by_reference : String → Exec Db (List ApiKey)
list_api_keys_by_reference reference_id =
    read (λ d. oldest_keys_first (keep (refers_to reference_id) d.api_keys))

-- The second statement of an update writes the columns that the update sets on the row as it is then.
abbrev pub write_row : Db → String → AuthResult ApiKey → AuthResult ApiKey × Db
write_row d id (ok key) = (ok key, set_keys d (update_where (has_id id) (λ _. key) d.api_keys))
write_row d id (err e) = (err e, d)

abbrev pub write_current : String → UpdateApiKey → ℕ → Db → Option ApiKey → AuthResult ApiKey × Db
write_current id update now d none = (err (database "record not updated"), d)
write_current id update now d (some current) =
    write_row d id (apply_update_fields now current update)

unfoldable pub update_found_key : String → UpdateApiKey → ℕ → Option ApiKey → Exec Db ApiKey
update_found_key id update now none = throw (not_found "API Key not found")
update_found_key id update now (some key) = do
  checked ← lift (apply_update_fields now key update)
  query (λ d. write_current id update now d (find (has_id id) d.api_keys))

unfoldable pub update_api_key : String → UpdateApiKey → ℕ → Exec Db ApiKey
unfolding update_found_key
update_api_key id update now = do
  model ← read (λ d. find (has_id id) d.api_keys)
  update_found_key id update now model

unfoldable pub consume_api_key_usage : String → Bool → ℕ → ℕ → Exec Db ConsumeApiKeyResult
consume_api_key_usage id rate_limit now updated = query (consume id rate_limit now updated)

unfoldable pub delete_api_key : String → Exec Db (Unit {0})
delete_api_key id = query (λ d. (ok tt, set_keys d (delete_where (has_id id) d.api_keys)))

unfoldable pub delete_expired_api_keys : ℕ → Exec Db ℕ
delete_expired_api_keys now = query (λ d.
    (ok (count (is_expired now) d.api_keys), set_keys d (delete_where (is_expired now) d.api_keys)))
