-- ===== src/Tests.antt =====
-- A small installation on which the theorems are tried: two users, two sessions, a device code that
-- is approved, an organization with two owners, and an API key with two uses left.
pub mod Sessions
pub mod Devices
pub mod Organizations
pub mod Limits
pub mod Keys
pub mod Owners
pub mod Admins
pub mod Requests
pub mod Responses
use better_auth_rs.Prelude.{
  ℕ, ◌+◌, ◌≤◌, pos, String, Bool, true, false, Option, none, some, List, [], ◌∷◌, ◌≡◌, ◌≢◌, sym,
  ◌∙◌, arith, inl, inr, ◌==◌, eq_iff, if◌then◌else◌, Bool-cases,
}
use better_auth_rs.Store.{Turn, World}
use better_auth_rs.Store.Db.{User, Session, DeviceCode, Member, ApiKey, Db}
use better_auth_rs.Request.{AuthRequest, post}
use better_auth_rs.Session.Manager.{SessionConfig}
use better_auth_rs.Device.Config.{ServerConfig, DeviceConfig, Random}
use better_auth_rs.Organization.Members.{RoleConfig}

abbrev pub user_named : String → String → User
user_named id email = record {
  id = id;
  email = email;
  role = none;
  banned = false;
  ban_reason = none;
  ban_expires = none;
  updated_at = 0;
}

abbrev pub alice : User
alice = user_named "alice" "alice@example.com"

abbrev pub bob : User
bob = user_named "bob" "bob@example.com"

abbrev pub session_of : String → User → ℕ → Session
session_of token user expires_at = record {
  id = token;
  token = token;
  user_id = user.id;
  created_at = 1;
  updated_at = 1;
  expires_at = expires_at;
  active = true;
  active_organization_id = some "org";
  ip_address = some "";
  user_agent = some "";
  impersonated_by = none;
}

abbrev pub approved_code : DeviceCode
approved_code = record {
  id = "row";
  device_code = "device";
  user_code = "ABCDEFGH";
  user_id = some "alice";
  expires_at = 1000;
  status = "approved";
  last_polled_at = none;
  polling_interval = some (pos 5);
  client_id = some "tv";
  scope = none;
}

abbrev pub claimed_code : DeviceCode
claimed_code = record approved_code {
  id = "claimed";
  user_code = "JKLMNPQR";
  device_code = "other";
  status = "pending";
}

abbrev pub member_of : String → User → String → Member
member_of id user role = record {
  id = id;
  organization_id = "org";
  user_id = user.id;
  role = role;
  created_at = 1;
}

abbrev pub key : ApiKey
key = record {
  id = "key";
  name = none;
  start = none;
  prefix = none;
  key_hash = "hash";
  reference_id = "alice";
  config_id = "default";
  refill_interval = none;
  refill_amount = none;
  last_refill_at = none;
  enabled = true;
  rate_limit_enabled = false;
  rate_limit_time_window = none;
  rate_limit_max = none;
  request_count = some (pos 0);
  remaining = some (pos 2);
  last_request = none;
  expires_at = none;
  created_at = 1;
  updated_at = 1;
  permissions = none;
  metadata = none;
}

abbrev pub db : Db
db = record {
  users = alice ∷ bob ∷ [];
  sessions =
      session_of "phone" alice 1000 ∷ session_of "laptop" alice 1000 ∷ session_of "old" bob 5 ∷ [];
  device_codes = approved_code ∷ claimed_code ∷ [];
  members = member_of "m1" alice "member, owner" ∷ member_of "m2" bob "owner" ∷ [];
  api_keys = key ∷ [];
}

-- The clock of a call stands still at 10.
abbrev pub clock : ℕ → ℕ
clock n = 10

abbrev pub config : SessionConfig
config = record {
  expires_in = 1000;
  update_age = none;
  disable_session_refresh = true;
  fresh_age = none;
  cookie_name = "session";
}

abbrev pub server : ServerConfig
server = record {
  base_url = "https://example.com";
  session = config;
  admin = record { enabled = true; banned_user_message = none };
  split_parse = λ header. some ("session", header) ∷ [];
}

abbrev pub plugin : DeviceConfig
plugin = record {
  expires_in = 1_800_000_000_000;
  interval = 5_000_000_000;
  generate_device_code = none;
  generate_user_code = none;
  validate_client = none;
  on_device_auth_request = none;
  verification_uri = none;
}

abbrev pub random : Random
random = record {
  row_id = "fresh";
  device_code = "fresh device";
  user_code_bytes = 0 ∷ 33 ∷ [];
  session_id = "new session";
  session_token = "session_fresh";
}

abbrev pub request : AuthRequest
request = record {
  method = post;
  path = "/device/token";
  headers = ("authorization", "Bearer phone") ∷ ("x-forwarded-for", "192.0.2.1") ∷ [];
  query = [];
}

-- One other request comes in before the first statement, and changes nothing.
abbrev pub visited : World Db
visited = record { db = db; schedule = record { interfere = λ d. d; fails = false } ∷ [] }

abbrev pub role_config : RoleConfig
role_config = record { to_lowercase = λ s. s; creator_role = "owner"; roles = [] }

-- One identifier is not that of two rows.
pub two_rows :
    (a b id : String) → a ≢ b → (if a == id then 1 else 0) + ((if b == id then 1 else 0) + 0) ≤ 1
two_rows a b id h = elim (Bool-cases (a == id)) [
  | inl e ↦ elim (Bool-cases (b == id)) [
    | inl k ↦ absurd (h ((eq_iff a id).0 e ∙ sym ((eq_iff b id).0 k)))
    | inr k ↦ rw (e, k) (omega arith)
  ]
  | inr e ↦ elim (Bool-cases (b == id)) [
    | inl k ↦ rw (e, k) (omega arith)
    | inr k ↦ rw (e, k) (omega arith)
  ]
]
