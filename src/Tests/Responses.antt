-- ===== src/Tests/Responses.antt =====
-- The theorems on headers and on shared responses at work.
use better_auth_rs.Prelude.{
  ℕ, ◌+◌, String, Bool, true, false, none, some, List, [], ◌∷◌, ◌++◌, ◌≡◌, ◌↔◌, ◌⊎◌, refl,
  if◌then◌else◌,
}
use better_auth_rs.Error.{ok}
use better_auth_rs.Middleware.{Middleware, run_before, run_after}
use better_auth_rs.Middleware.Chain.{Passes, Stops, Outcome, run_before_cases, run_after_cases}
use better_auth_rs.Request.{AuthRequest, get, lookup}
use better_auth_rs.Headers
use better_auth_rs.Headers.Insertion.{get-insert}
use better_auth_rs.Cors.{CorsConfig, AuthResponse, after_request}
use better_auth_rs.Cors.Sharing.{Shares, after_request-Shares}

get-insert_example :
    (Headers.get "content-TYPE"
        (Headers.insert "Content-Type" "text/html" (("content-type", "a") ∷ []))
      ≡ some "text/html")
    × (Headers.get_all "content-TYPE"
          (Headers.insert "Content-Type" "text/html" (("content-type", "a") ∷ []))
        ≡ "text/html" ∷ [])
get-insert_example =
    get-insert "content-TYPE" "Content-Type" "text/html" (("content-type", "a") ∷ [])

abbrev any_origin : CorsConfig
any_origin = record {
  allowed_origins = "*" ∷ [];
  allowed_methods = "GET" ∷ [];
  allowed_headers = [];
  exposed_headers = [];
  allow_credentials = false;
  max_age = "86400";
  enabled = true;
}

abbrev from_app : AuthRequest
from_app = record {
  method = get;
  path = "/get-session";
  headers = ("origin", "https://app.example.com") ∷ [];
  query = [];
}

abbrev plain_response : AuthResponse
plain_response = record { status = 200; headers = ("content-type", "application/json") ∷ [] }

unshared : Headers.get "Access-Control-Allow-Origin" plain_response.headers ≡ none
unfolding Headers.get
unshared = refl

after_request-Shares_example :
    (Headers.get "Access-Control-Allow-Origin"
        (after_request any_origin from_app plain_response).headers
      ≡ some "*")
    ↔ ((true ≡ true) × Shares any_origin (some "https://app.example.com") "*")
unfolding lookup
after_request-Shares_example = after_request-Shares any_origin from_app plain_response "*" unshared

-- A middleware that writes its number into the log, and answers where it is the third.
abbrev logger : ℕ → Bool → Middleware (List ℕ) String ℕ
logger n answers = record {
  before_request = λ req log. (ok (if answers then some n else none), n ∷ log);
  after_request = λ req response log. (ok (response + n), n ∷ log);
}

abbrev first_part : List (Middleware (List ℕ) String ℕ)
first_part = logger 1 false ∷ logger 2 false ∷ []

abbrev second_part : List (Middleware (List ℕ) String ℕ)
second_part = logger 3 true ∷ logger 4 false ∷ []

run_before_cases_example :
    ((run_before (first_part ++ second_part) "request" []).0 ≡ ok none)
      × Passes "request"
          (first_part ++ second_part)
          []
          (run_before (first_part ++ second_part) "request" []).1
    ⊎ Stops "request"
        (first_part ++ second_part)
        []
        (run_before (first_part ++ second_part) "request" [])
run_before_cases_example = run_before_cases (first_part ++ second_part) "request" []

run_after_cases_example :
    Outcome "request"
      (first_part ++ second_part)
      200
      []
      (run_after (first_part ++ second_part) "request" 200 [])
run_after_cases_example = run_after_cases (first_part ++ second_part) "request" 200 []

third_answers : run_before (first_part ++ second_part) "request" [] ≡ (ok (some 3), 3 ∷ 2 ∷ 1 ∷ [])
unfolding run_before
third_answers = refl
