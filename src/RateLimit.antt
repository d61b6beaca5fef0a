-- ===== src/RateLimit.antt =====
-- crates/core/src/middleware/rate_limit.rs. The lock is held from the lookup of the bucket to its
-- update, so one call is one step on the buckets, a map as an association list.

pub mod Window
pub mod Isolation
pub mod Histories
use Prim.Native.String
use better_auth_rs.Prelude.{
  ℕ, ◌-◌, ◌/◌, ◌%◌, ◌^◌, String, Bool, true, not, Option, none, some, List, [], ◌∷◌, ◌++◌, length,
  keep, first, ltb, leb, or_else, unwrap_or, if◌then◌else◌, ◌==◌,
}
use better_auth_rs.Request.{AuthRequest, lookup}

pub record EndpointRateLimit : Type 0 where
  pub window : ℕ
  pub max_requests : ℕ

pub record RateLimitConfig : Type 0 where
  pub default_limit : EndpointRateLimit
  pub per_endpoint : List (String × EndpointRateLimit)
  pub enabled : Bool

abbrev pub default_config : RateLimitConfig
default_config = record {
  default_limit = record { window = 60_000_000_000; max_requests = 100 };
  per_endpoint = [];
  enabled = true;
}

abbrev pub client_key : AuthRequest → String
client_key req =
    unwrap_or (or_else (lookup "x-forwarded-for" req.headers) (lookup "x-real-ip" req.headers))
      "unknown"

abbrev pub limit_for_path : RateLimitConfig → String → EndpointRateLimit
limit_for_path config path = unwrap_or (lookup path config.per_endpoint) config.default_limit

-- `format!("{}:{}", …)`
abbrev pub bucket_key : AuthRequest → String
bucket_key req = Prim.Native.String.◌++◌ (client_key req) (Prim.Native.String.◌++◌ ":" req.path)

-- `now.duration_since(t) < window`, which is 0 for a later instant
abbrev pub is_recent : ℕ → ℕ → ℕ → Bool
is_recent window now t = ltb (now - t) window

abbrev pub as_secs : ℕ → ℕ
as_secs duration = duration / 1_000_000_000

abbrev pub retry_after : EndpointRateLimit → ℕ → Option ℕ → ℕ
retry_after limit now none = as_secs limit.window
retry_after limit now (some t) = as_secs limit.window - as_secs (now - t)

-- The step on one bucket: the response's `retry_after` if the request is refused, and the bucket.
abbrev pub admit_recent : EndpointRateLimit → ℕ → List ℕ → Option ℕ × List ℕ
admit_recent limit now timestamps =
    if leb limit.max_requests (length timestamps % 2 ^ 32)
    then (some (retry_after limit now (first timestamps)), timestamps)
    else (none, timestamps ++ (now ∷ []))

abbrev pub admit : EndpointRateLimit → ℕ → List ℕ → Option ℕ × List ℕ
admit limit now timestamps = admit_recent limit now (keep (is_recent limit.window now) timestamps)

abbrev pub Buckets : Type 0
Buckets = List (String × List ℕ)

-- `insert` on an association list whose first entry for a key counts.
abbrev pub set_bucket : String → List ℕ → Buckets → Buckets
set_bucket key bucket [] = (key, bucket) ∷ []
set_bucket key bucket ((k, b) ∷ rest) =
    let later = set_bucket key bucket rest in
    if k == key then (k, bucket) ∷ rest else (k, b) ∷ later

abbrev pub bucket_of : String → Buckets → List ℕ
bucket_of key buckets = unwrap_or (lookup key buckets) []

abbrev pub store_bucket : String → Buckets → Option ℕ × List ℕ → Option ℕ × Buckets
store_bucket key buckets (answer, bucket) = (answer, set_bucket key bucket buckets)

-- `none` lets the request pass; `some` is the response 429 with its header `Retry-After`.
unfoldable pub before_request : RateLimitConfig → ℕ → AuthRequest → Buckets → Option ℕ × Buckets
unfolding lookup
before_request config now req buckets =
    if not config.enabled
    then (none, buckets)
    else store_bucket (bucket_key req) buckets
        (admit (limit_for_path config req.path) now (bucket_of (bucket_key req) buckets))
