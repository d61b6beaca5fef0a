-- ===== src/Tests/Limits.antt =====
-- The theorems on API keys and on the rate limit at work.
use better_auth_rs.Prelude.{
  ℕ, List, inl, eq_iff, ◌≤◌, pos, true, [], ◌∷◌, ◌≡◌, refl, sym, ap, arith, length, keep, some_of,
}
use better_auth_rs.Store.Table.{find}
use better_auth_rs.ApiKey.Usage.Allowance.{Use, HasLeft, uses, uses-within}
use better_auth_rs.RateLimit.{
  EndpointRateLimit, default_config, is_recent, bucket_key, bucket_of, before_request,
}
use better_auth_rs.RateLimit.Window.{passed, passed_within_window}
use better_auth_rs.RateLimit.Histories.{
  has_key, answers_among, answers_alone, answers_among-answers_alone,
}
use better_auth_rs.RateLimit.Isolation.{Differ, before_request_independent}
use better_auth_rs.Request.{AuthRequest}
use better_auth_rs.Tests.{db, request}

abbrev one_use : Use
one_use = record { interfere = λ d. d; rate_limit = true; now = 10; updated = 11 }

two_left : HasLeft "key" 2 db
unfolding find
two_left k found = (
  ap (λ x. x.refill_amount) (sym (some_of found)),
  pos 2,
  ap (λ x. x.remaining) (sym (some_of found)),
  omega arith,
)

uses-within_example : uses "key" (one_use ∷ one_use ∷ one_use ∷ []) db ≤ 2
uses-within_example =
    uses-within "key" (one_use ∷ one_use ∷ one_use ∷ []) 2 db
      ((λ m d h. h), ((λ m d h. h), ((λ m d h. h), tt))) two_left

abbrev twice : EndpointRateLimit
twice = record { window = 60; max_requests = 2 }

passed_within_window_example :
    length (keep (is_recent 60 80) (passed twice [] (10 ∷ 20 ∷ 30 ∷ 75 ∷ []))) ≤ 2
passed_within_window_example =
    passed_within_window twice (omega arith) 80 (10 ∷ 20 ∷ 30 ∷ 75 ∷ [])
      ((omega arith), ((omega arith), ((omega arith), ((omega arith), tt))))
      ((omega arith), ((omega arith), ((omega arith), ((omega arith), tt))))

abbrev elsewhere : AuthRequest
elsewhere = record request { path = "/device/code" }

other_path : Differ request elsewhere
other_path = inl (refl, (ground (arith, eq_iff "/device/token" "/device/code")))

before_request_independent_example :
    ((before_request default_config 60 elsewhere (before_request default_config 50 request []).1).0
      ≡ (before_request default_config 60 elsewhere []).0)
    × (bucket_of
          (bucket_key elsewhere)
          (before_request default_config 60 elsewhere
            (before_request default_config 50 request []).1).1
        ≡ bucket_of (bucket_key elsewhere) (before_request default_config 60 elsewhere []).1)
before_request_independent_example =
    before_request_independent default_config 50 60 request elsewhere [] other_path

-- Two requests for one path, with one for another between them.
abbrev traffic : List (ℕ × AuthRequest)
traffic = (10, request) ∷ (20, elsewhere) ∷ (30, request) ∷ []

answers_among-answers_alone_example :
    answers_among default_config (bucket_key request) traffic []
    ≡ answers_alone default_config
        (bucket_key request)
        (keep (has_key (bucket_key request)) traffic)
        (bucket_of (bucket_key request) [])
answers_among-answers_alone_example =
    answers_among-answers_alone default_config (bucket_key request) refl traffic []
