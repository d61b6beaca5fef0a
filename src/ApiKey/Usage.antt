-- ===== src/ApiKey/Usage.antt =====
-- `consume_api_key_usage` of crates/seaorm/src/store/api_keys.rs, as a computation on the locked
-- row, and `apply_update_fields`. A date that travels as RFC 3339 text stands as its instant.
pub mod Step
pub mod Allowance
pub mod Stored
use Prim.Native.String
use better_auth_rs.Prelude.{
  ℕ, ℤ, pos, negsuc, String, Bool, true, false, ◌&&◌, Option, none, some, List, ltz, lez, sub_ℕ,
  succ, pred_ℤ, div_trunc, is_some, is_none, unwrap_or, if◌then◌else◌, ◌==◌,
}
use better_auth_rs.Error.{AuthError, AuthResult, ok, err, bad_request, not_found, map_ok}
use better_auth_rs.Error.Chain.{◌>>=◌, ◌>>◌}
use better_auth_rs.Store.Table.{find, update_where, delete_where}
use better_auth_rs.Store.Db.{ApiKey, Db}

-- `i32::try_from`
abbrev pub fits_i32 : ℤ → Bool
fits_i32 value = lez (negsuc 2_147_483_647) value && lez value (pos 2_147_483_647)

abbrev pub to_i32 : ℤ → String → AuthResult ℤ
to_i32 value field =
    if fits_i32 value
    then ok value
    else err (bad_request (Prim.Native.String.◌++◌ field " exceeds i32 range"))

-- `to_optional_i32`
abbrev pub to_optional_i32 : Option ℤ → String → AuthResult (Option ℤ)
to_optional_i32 none field = ok none
to_optional_i32 (some value) field = map_ok some (to_i32 value field)

pub record UpdateApiKey : Type 0 where
  pub name : Option String
  pub enabled : Option Bool
  pub remaining : Option ℤ
  pub rate_limit_enabled : Option Bool
  pub rate_limit_time_window : Option ℤ
  pub rate_limit_max : Option ℤ
  pub refill_interval : Option ℤ
  pub refill_amount : Option ℤ
  pub permissions : Option String
  pub metadata : Option String
  pub expires_at : Option (Option ℕ)
  pub last_request : Option (Option ℕ)
  pub request_count : Option ℤ
  pub last_refill_at : Option (Option ℕ)

-- `UpdateApiKey::default()`
abbrev pub no_update : UpdateApiKey
no_update = record {
  name = none;
  enabled = none;
  remaining = none;
  rate_limit_enabled = none;
  rate_limit_time_window = none;
  rate_limit_max = none;
  refill_interval = none;
  refill_amount = none;
  permissions = none;
  metadata = none;
  expires_at = none;
  last_request = none;
  request_count = none;
  last_refill_at = none;
}

-- A column that is set when the update gives a value.
abbrev pub set_i32 : String → Option ℤ → Option ℤ → AuthResult (Option ℤ)
set_i32 field none old = ok old
set_i32 field (some value) old = map_ok some (to_i32 value field)

abbrev pub set_text : Option String → Option String → Option String
set_text none old = old
set_text (some value) old = some value

-- The row with its columns set, the last six of them checked before.
abbrev pub assembled :
    ℕ
    → ApiKey
    → UpdateApiKey
    → (remaining time_window max refill_interval refill_amount request_count : Option ℤ) → ApiKey
assembled now key update remaining time_window max refill_interval refill_amount request_count =
    record key {
      name = set_text update.name key.name;
      enabled = unwrap_or update.enabled key.enabled;
      remaining = remaining;
      rate_limit_enabled = unwrap_or update.rate_limit_enabled key.rate_limit_enabled;
      rate_limit_time_window = time_window;
      rate_limit_max = max;
      refill_interval = refill_interval;
      refill_amount = refill_amount;
      permissions = set_text update.permissions key.permissions;
      metadata = set_text update.metadata key.metadata;
      expires_at = unwrap_or update.expires_at key.expires_at;
      last_request = unwrap_or update.last_request key.last_request;
      request_count = request_count;
      last_refill_at = unwrap_or update.last_refill_at key.last_refill_at;
      updated_at = now;
    }

unfoldable pub apply_update_fields : ℕ → ApiKey → UpdateApiKey → AuthResult ApiKey
apply_update_fields now key update = do
  remaining ← set_i32 "remaining" update.remaining key.remaining
  time_window ←
      set_i32 "rate_limit_time_window" update.rate_limit_time_window key.rate_limit_time_window
  max ← set_i32 "rate_limit_max" update.rate_limit_max key.rate_limit_max
  refill_interval ← set_i32 "refill_interval" update.refill_interval key.refill_interval
  refill_amount ← set_i32 "refill_amount" update.refill_amount key.refill_amount
  request_count ← set_i32 "request_count" update.request_count key.request_count
  ok (
      assembled now key update remaining time_window max refill_interval refill_amount
        request_count)

pub data ConsumeApiKeyResult : Type 0 where
  allowed : ApiKey → ConsumeApiKeyResult
  rate_limited usage_exhausted : ConsumeApiKeyResult

-- `(now - last).num_milliseconds()`
abbrev pub elapsed_ms : ℕ → ℕ → ℤ
elapsed_ms now last = div_trunc (sub_ℕ now last) 1_000_000

-- The amount to refill to, if more than the interval has passed since the last refill.
abbrev pub refill : ℕ → ℕ → Option ℤ → Option ℤ → Option ℤ
refill now last (some interval) (some amount) =
    if ltz interval (elapsed_ms now last) then some amount else none
refill now last (some interval) none = none
refill now last none amount = none

abbrev pub last_refill : ApiKey → ℕ
last_refill key = unwrap_or key.last_refill_at key.created_at

abbrev pub refill_due : ℕ → ApiKey → Option ℤ
refill_due now key = refill now (last_refill key) key.refill_interval key.refill_amount

-- What the count of remaining uses says: delete the key, refuse the request, or go on.
pub data Quota : Type 0 where
  remove refuse : Quota
  go_on : UpdateApiKey → Quota

abbrev pub stamp_refill : ℕ → Option ℤ → UpdateApiKey → UpdateApiKey
stamp_refill now none update = update
stamp_refill now (some amount) update = record update { last_refill_at = some (some now) }

abbrev pub spend_from : ℕ → ApiKey → Option ℤ → ℤ → Quota
spend_from now key due current =
    if lez current (pos 0) && is_none key.refill_amount
    then remove
    else if lez current (pos 0)
    then refuse
    else go_on (stamp_refill now due (record no_update { remaining = some (pred_ℤ current) }))

abbrev pub spend_of : ℕ → ApiKey → Option ℤ → Quota
spend_of now key none = go_on no_update
spend_of now key (some remaining) =
    spend_from now key (refill_due now key) (unwrap_or (refill_due now key) remaining)

abbrev pub spend : ℕ → ApiKey → Quota
spend now key = spend_of now key key.remaining

abbrev pub stamp_request : ℕ → UpdateApiKey → UpdateApiKey
stamp_request now update = record update { last_request = some (some now) }

abbrev pub window_expired : ℕ → Option ℕ → ℤ → Bool
window_expired now none time_window = true
window_expired now (some last) time_window = ltz time_window (elapsed_ms now last)

-- The update with the request counted, or nothing where the request is over the limit.
abbrev pub count_request : ℕ → ApiKey → UpdateApiKey → Option ℤ → Option ℤ → Option UpdateApiKey
count_request now key update (some time_window) (some max) =
    if window_expired now key.last_request time_window
    then some (stamp_request now (record update { request_count = some (pos 1) }))
    else if lez max (unwrap_or key.request_count (pos 0))
    then none
    else some (
        stamp_request now
          (record update { request_count = some (succ (unwrap_or key.request_count (pos 0))) }))
count_request now key update (some time_window) none = some (stamp_request now update)
count_request now key update none max = some (stamp_request now update)

abbrev pub limit_rate : Bool → ℕ → ApiKey → UpdateApiKey → Option UpdateApiKey
limit_rate active now key update =
    if active
    then count_request now key update key.rate_limit_time_window key.rate_limit_max
    else some (stamp_request now update)

abbrev pub has_id : String → ApiKey → Bool
has_id id key = key.id == id

abbrev pub set_keys : Db → List ApiKey → Db
set_keys d keys = record d { api_keys = keys }

-- The parts of the transaction from its end to its start. One that fails is rolled back.
abbrev pub store_used : Db → String → AuthResult ApiKey → AuthResult ConsumeApiKeyResult × Db
store_used d id (ok key) =
    (ok (allowed key), set_keys d (update_where (has_id id) (λ _. key) d.api_keys))
store_used d id (err e) = (err e, d)

abbrev pub consume_limited :
    ℕ → Db → String → ApiKey → Option UpdateApiKey → AuthResult ConsumeApiKeyResult × Db
consume_limited updated d id key none = (ok rate_limited, d)
consume_limited updated d id key (some update) =
    store_used d id (apply_update_fields updated key update)

abbrev pub consume_quota :
    Bool → ℕ → ℕ → Db → String → ApiKey → Quota → AuthResult ConsumeApiKeyResult × Db
consume_quota rate_limit now updated d id key remove =
    (ok usage_exhausted, set_keys d (delete_where (has_id id) d.api_keys))
consume_quota rate_limit now updated d id key refuse = (ok usage_exhausted, d)
consume_quota rate_limit now updated d id key (go_on update) =
    consume_limited updated d id key
      (limit_rate (rate_limit && key.rate_limit_enabled) now key update)

abbrev pub consume_found :
    Bool → ℕ → ℕ → Db → String → Option ApiKey → AuthResult ConsumeApiKeyResult × Db
consume_found rate_limit now updated d id none = (err (not_found "API Key not found"), d)
consume_found rate_limit now updated d id (some key) =
    consume_quota rate_limit now updated d id key (spend now key)

-- The transaction: `now` is its reading of the clock, `updated` the one of the row's update.
unfoldable pub consume : String → Bool → ℕ → ℕ → Db → AuthResult ConsumeApiKeyResult × Db
consume id rate_limit now updated d =
    consume_found rate_limit now updated d id (find (has_id id) d.api_keys)
