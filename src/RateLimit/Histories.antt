-- ===== src/RateLimit/Histories.antt =====
-- The middleware over a sequence of requests, against one bucket for each key.
use better_auth_rs.Prelude.{
  ℕ, String, Bool, true, Option, List, [], ◌∷◌, ◌≡◌, refl, ap, ◌∙◌, subst, ◌==◌, eq_iff, Bool-cases,
  inl, inr, keep, if◌then◌else◌,
}
use better_auth_rs.Request.{AuthRequest}
use better_auth_rs.RateLimit.{
  RateLimitConfig, limit_for_path, bucket_key, admit, Buckets, bucket_of, before_request,
}
use better_auth_rs.RateLimit.Isolation.{stepped, frame}

-- Whether a request, with the instant at which it comes, has the key.
abbrev pub has_key : String → ℕ × AuthRequest → Bool
has_key key (now, req) = bucket_key req == key

module _ (config : RateLimitConfig) (key : String) where
  -- What the middleware answers the requests with the key, among all requests.
  pub answers_among : List (ℕ × AuthRequest) → Buckets → List (Option ℕ)
  answers_among [] buckets = []
  answers_among ((now, req) ∷ events) buckets =
      let step = before_request config now req buckets in
      let rest = answers_among events step.1 in
      if bucket_key req == key then step.0 ∷ rest else rest

  -- What one bucket answers the requests that all go to it.
  pub answers_alone : List (ℕ × AuthRequest) → List ℕ → List (Option ℕ)
  answers_alone [] bucket = []
  answers_alone ((now, req) ∷ events) bucket =
      let step = admit (limit_for_path config req.path) now bucket in
      step.0 ∷ answers_alone events step.1

  module _ (on : config.enabled ≡ true) where
    own_step :
        (now : ℕ) (req : AuthRequest) (buckets : Buckets)
        → (bucket_key req == key) ≡ true
        → let step = admit (limit_for_path config req.path) now (bucket_of key buckets) in
          ((before_request config now req buckets).0 ≡ step.0)
          × (bucket_of key (before_request config now req buckets).1 ≡ step.1)
    own_step now req buckets same =
        subst
          (λ k.
            let step = admit (limit_for_path config req.path) now (bucket_of k buckets) in
            ((before_request config now req buckets).0 ≡ step.0)
            × (bucket_of k (before_request config now req buckets).1 ≡ step.1))
          ((eq_iff (bucket_key req) key).0 same) (stepped config now req buckets on)

    -- The middleware, where it is on, answers the requests with one key among any others as a bucket
    -- of their own would that sees them alone, from the bucket that the key has at the start.
    pub answers_among-answers_alone :
        (events : List (ℕ × AuthRequest)) (buckets : Buckets)
        → answers_among events buckets
          ≡ answers_alone (keep (has_key key) events) (bucket_of key buckets)
    unfolding answers_among answers_alone
    answers_among-answers_alone [] buckets = refl
    answers_among-answers_alone ((now, req) ∷ events) buckets =
        let later = answers_among-answers_alone events (before_request config now req buckets).1 in
        elim (Bool-cases (bucket_key req == key)) [
          | inl same ↦
              let (answer, left) = own_step now req buckets same in
              rw same (rw (answer, later, left) refl)
          | inr other ↦ rw other (
              later
              ∙ ap (answers_alone (keep (has_key key) events))
                  (frame config now req key buckets other))
        ]
