-- ===== src/Tests/Requests.antt =====
-- The theorems on origins and on the guard of requests at work.
use better_auth_rs.Prelude.{String, true, false, none, some, [], ◌∷◌, ◌≡◌, refl, ◌↔◌, ◌⊎◌, ◌==◌}
use Prim.Native.String.{◌++◌}
use better_auth_rs.Error.{ok, status_code, forbidden}
use better_auth_rs.Request.{AuthRequest, post, lookup}
use better_auth_rs.Config.{
  AuthConfig, ends_host, extract_origin, is_safe_relative_path, is_origin_trusted,
  is_redirect_target_trusted,
}
use better_auth_rs.Config.Origins.{StartsBy, extract_origin-origin_of, extract_origin_prefix}
use better_auth_rs.Csrf.{BodyCrates, before_request, csrf_result, request_target_values}
use better_auth_rs.Csrf.Guarantee.{Acceptable, before_request-Acceptable}
use better_auth_rs.Csrf.Refusal.{RefusesOrigin, BlamesFirst, before_request_refuses}

extract_origin-origin_of_example :
    extract_origin ("https" ++ ("://" ++ ("example.com" ++ "/path")))
    ≡ some ("https" ++ ("://" ++ "example.com"))
unfolding ends_host
extract_origin-origin_of_example =
    extract_origin-origin_of "https" "example.com" "/path" refl
      (refl, (refl, (refl, (refl, (refl, (refl, (refl, (refl, (refl, (refl, (refl, tt)))))))))))
      refl

path_has_origin : extract_origin "https://example.com/path" ≡ some "https://example.com"
unfolding extract_origin ends_host
path_has_origin = refl

extract_origin_prefix_example :
    ((tail : String) × ("https://example.com/path" ≡ "https://example.com" ++ tail)
      × StartsBy ends_host tail)
    × (extract_origin "https://example.com" ≡ some "https://example.com")
extract_origin_prefix_example =
    extract_origin_prefix "https://example.com/path" "https://example.com" path_has_origin

abbrev settings : AuthConfig
settings = record {
  secret = "a secret of more than thirty-two characters";
  base_url = "https://example.com";
  base_path = "/api/auth";
  trusted_origins = [];
  disabled_paths = [];
  disable_csrf_check = false;
  disable_origin_check = false;
}

-- Bodies as texts that hold nothing.
abbrev no_bodies : BodyCrates
no_bodies = record {
  Body = String;
  parse_form = λ body. [];
  Value = String;
  body_as_json = λ body. none;
  as_object = λ v. none;
  as_str = λ v. some v;
}

-- A sign-out by a browser of this site, which names where to go next.
abbrev sign_out : String → AuthRequest
sign_out target = record {
  method = post;
  path = "/api/auth/sign-out";
  headers = ("Cookie", "session=phone") ∷ ("Origin", "https://example.com") ∷ [];
  query = ("callbackURL", target) ∷ [];
}

before_request-Acceptable_example :
    (before_request ◌==◌ settings no_bodies true (sign_out "/welcome") none ≡ none)
    ↔ Acceptable ◌==◌ settings no_bodies (sign_out "/welcome") none
before_request-Acceptable_example =
    before_request-Acceptable ◌==◌ settings no_bodies (sign_out "/welcome") none refl

target_refused :
    before_request ◌==◌ settings no_bodies true (sign_out "https://evil.example/") none
    ≡ some (forbidden "Invalid callbackURL")
unfolding before_request is_redirect_target_trusted is_safe_relative_path is_origin_trusted
    extract_origin ends_host lookup
target_refused = refl

before_request_refuses_example :
    (status_code (forbidden "Invalid callbackURL") ≡ 403)
    × (RefusesOrigin ◌==◌ settings
          (sign_out "https://evil.example/")
          (forbidden "Invalid callbackURL")
        ⊎ ((csrf_result ◌==◌ settings (sign_out "https://evil.example/") ≡ ok tt)
            × BlamesFirst ◌==◌ settings
                (request_target_values no_bodies (sign_out "https://evil.example/") none)
                (forbidden "Invalid callbackURL")))
before_request_refuses_example =
    before_request_refuses ◌==◌ settings no_bodies true (sign_out "https://evil.example/") none
      (forbidden "Invalid callbackURL") target_refused
