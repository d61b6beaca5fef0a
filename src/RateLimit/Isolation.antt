-- ===== src/RateLimit/Isolation.antt =====
-- One request changes its own bucket and no other.
use Prim.Native.String
use text.Mathlib.TextLemmas.{append_cancel_left, append_cancel_right}
use better_auth_rs.Prelude.{
  ℕ, String, true, false, some, List, [], ◌∷◌, ◌≡◌, ◌≢◌, ◌⊎◌, ap, sym, ◌∙◌, refl, arith, ◌==◌,
  eq_iff, eq_refl, Bool-cases, inl, inr,
}
use better_auth_rs.Request.{AuthRequest, lookup}
use better_auth_rs.RateLimit.{
  RateLimitConfig, limit_for_path, bucket_key, admit, Buckets, set_bucket, bucket_of,
  before_request, client_key,
}

lookup-set_bucket_same :
    (key : String) (bucket : List ℕ) (buckets : Buckets)
    → lookup key (set_bucket key bucket buckets) ≡ some bucket
unfolding lookup
lookup-set_bucket_same key bucket [] = rw (eq_refl key) refl
lookup-set_bucket_same key bucket ((k, b) ∷ rest) = elim (Bool-cases (k == key)) [
  | inl e ↦ rw (e, e) refl
  | inr e ↦ rw (e, e) (lookup-set_bucket_same key bucket rest)
]

lookup-set_bucket_other :
    (key other : String) (bucket : List ℕ) (buckets : Buckets)
    → (key == other) ≡ false
    → lookup other (set_bucket key bucket buckets) ≡ lookup other buckets
unfolding lookup
lookup-set_bucket_other key other bucket [] h = rw h refl
lookup-set_bucket_other key other bucket ((k, b) ∷ rest) h = elim (Bool-cases (k == key)) [
  | inl e ↦ ground (arith, (eq_iff k key).0 e)
  | inr e ↦ elim (Bool-cases (k == other)) [
    | inl o ↦ rw (e, o) refl
    | inr o ↦ rw (e, o) (lookup-set_bucket_other key other bucket rest h)
  ]
]

-- Two requests that differ in the client or in the path, and not in both.
abbrev pub Differ : AuthRequest → AuthRequest → Type 0
Differ req other =
    ((client_key req ≡ client_key other) × (req.path ≢ other.path))
    ⊎ ((client_key req ≢ client_key other) × (req.path ≡ other.path))

bucket_key-Differ :
    (req other : AuthRequest) → Differ req other → (bucket_key req == bucket_key other) ≡ false
bucket_key-Differ req other differ = elim (Bool-cases (bucket_key req == bucket_key other)) [
  | inr apart ↦ apart
  | inl equal ↦ absurd (never differ ((eq_iff (bucket_key req) (bucket_key other)).0 equal))
]
  where
    never : Differ req other → bucket_key req ≢ bucket_key other
    never (inl (same, apart)) h = apart (
        append_cancel_left ":" req.path other.path (
          append_cancel_left (client_key other) (Prim.Native.String.◌++◌ ":" req.path)
            (Prim.Native.String.◌++◌ ":" other.path)
            (ap (λ c. Prim.Native.String.◌++◌ c (Prim.Native.String.◌++◌ ":" req.path)) (sym same)
              ∙ h)))
    never (inr (apart, same)) h = apart (
        append_cancel_right (client_key req) (client_key other)
          (Prim.Native.String.◌++◌ ":" other.path)
          (ap (λ p. Prim.Native.String.◌++◌ (client_key req) (Prim.Native.String.◌++◌ ":" p))
              (sym same)
            ∙ h))

pub frame :
    (config : RateLimitConfig) (now : ℕ) (req : AuthRequest) (other : String) (buckets : Buckets)
    → (bucket_key req == other) ≡ false
    → bucket_of other (before_request config now req buckets).1 ≡ bucket_of other buckets
unfolding before_request
frame config now req other buckets apart = elim (Bool-cases config.enabled) [
  | inl on ↦ rw on (rw (lookup-set_bucket_other (bucket_key req) other _ buckets apart) refl)
  | inr off ↦ rw off refl
]

-- The request takes the step on its bucket.
pub stepped :
    (config : RateLimitConfig) (now : ℕ) (req : AuthRequest) (buckets : Buckets)
    → config.enabled ≡ true
    → let step = admit (limit_for_path config req.path) now (bucket_of (bucket_key req) buckets) in
      ((before_request config now req buckets).0 ≡ step.0)
      × (bucket_of (bucket_key req) (before_request config now req buckets).1 ≡ step.1)
unfolding before_request
stepped config now req buckets on =
    rw on (refl, rw (lookup-set_bucket_same (bucket_key req) _ buckets) refl)

-- What is answered, and the bucket that is left, depend on the request's own bucket.
alike :
    (config : RateLimitConfig) (now : ℕ) (req : AuthRequest) (b b' : Buckets)
    → bucket_of (bucket_key req) b ≡ bucket_of (bucket_key req) b'
    → ((before_request config now req b).0 ≡ (before_request config now req b').0)
      × (bucket_of (bucket_key req) (before_request config now req b).1
          ≡ bucket_of (bucket_key req) (before_request config now req b').1)
unfolding before_request
alike config now req b b' h = elim (Bool-cases config.enabled) [
  | inl on ↦
      let step = admit (limit_for_path config req.path) now in
      let (answer, left) = stepped config now req b on in
      let (answer', left') = stepped config now req b' on in
      (answer ∙ ap (λ l. (step l).0) h ∙ sym answer', left ∙ ap (λ l. (step l).1) h ∙ sym left')
  | inr off ↦ rw off (refl, h)
]

-- What the middleware answers a request, and the bucket that it leaves it, do not depend on a request
-- before it of the same client for another path, or of another client for the same path.
pub before_request_independent :
    (config : RateLimitConfig) (now now' : ℕ) (req other : AuthRequest) (buckets : Buckets)
    → Differ req other
    → ((before_request config now' other (before_request config now req buckets).1).0
        ≡ (before_request config now' other buckets).0)
      × (bucket_of
            (bucket_key other)
            (before_request config now' other (before_request config now req buckets).1).1
          ≡ bucket_of (bucket_key other) (before_request config now' other buckets).1)
before_request_independent config now now' req other buckets differ =
    alike config now' other (before_request config now req buckets).1 buckets
      (frame config now req (bucket_key other) buckets (bucket_key-Differ req other differ))
