-- ===== src/Csrf/Refusal.antt =====
-- How the guard refuses.
use better_auth_rs.Prelude.{
  String, Bool, true, false, not, ◌||◌, Option, none, some, List, [], ◌∷◌, ◌++◌, ◌≡◌, refl, sym, ap,
  subst, ◌⊎◌, inl, inr, arith, All, Bool-cases, some_of, if◌then◌else◌,
}
use better_auth_rs.Error.{AuthResult, ok, err, err_of, AuthError, forbidden, status_code}
use better_auth_rs.Error.Chain.{◌>>◌}
use better_auth_rs.Request.{AuthRequest}
use better_auth_rs.Config.{AuthConfig, is_origin_trusted, is_redirect_target_trusted}
use better_auth_rs.Csrf.Order.{tests_in_order-err}
use better_auth_rs.Csrf.{
  BodyCrates, cross_site_navigation_login_blocked, rejection, is_state_changing, is_form_csrf_path,
  normalized_path, has_cookies, has_fetch_metadata, sent_origin, is_cross_site_navigation,
  request_target_values, target_error_message, check_origin, check_targets, csrf_result,
  before_request,
}

rejected :
    (skip : Bool) (a b : AuthResult {0} Unit) (e : AuthError)
    → (if skip then none else rejection (a >> b)) ≡ some e
    → (a ≡ err e) ⊎ ((a ≡ ok tt) × (b ≡ err e))
rejected true a b e h = absurd (ground arith)
rejected false (ok u) (ok v) e h = absurd (ground arith)
rejected false (ok u) (err f) e h = inr (refl, ap err (some_of h))
rejected false (err f) b e h = inl (ap err (some_of h))

unless_err :
    (off : Bool) (r : AuthResult {0} Unit) (e : AuthError)
    → (if off then ok tt else r) ≡ err e
    → r ≡ err e
unless_err true r e h = absurd (ground arith)
unless_err false r e h = h

module _ (glob_match : String → String → Bool) (settings : AuthConfig) where
  -- The refusal names the field of the first target that is not trusted.
  pub record BlamesFirst (targets : List (String × String)) (e : AuthError) : Type 0 where
    pub before : List (String × String)
    pub target : String × String
    pub after : List (String × String)
    pub splits : targets ≡ before ++ (target ∷ after)
    pub trusted_before : All (λ t. is_redirect_target_trusted glob_match settings t.1 ≡ true) before
    pub untrusted : is_redirect_target_trusted glob_match settings target.1 ≡ false
    pub names_it : e ≡ forbidden (target_error_message target.0)

  check_targets-BlamesFirst :
      (targets : List (String × String)) (e : AuthError)
      → check_targets glob_match settings targets ≡ err e
      → BlamesFirst targets e
  check_targets-BlamesFirst [] e h = absurd (ground arith)
  check_targets-BlamesFirst ((name, value) ∷ targets) e h =
      elim (Bool-cases (is_redirect_target_trusted glob_match settings value)) [
        | inl t ↦
            let later = check_targets-BlamesFirst targets e (rw t at h) in
            record {
              before = (name, value) ∷ later.before;
              target = later.target;
              after = later.after;
              splits = ap (λ l. (name, value) ∷ l) later.splits;
              trusted_before = (t, later.trusted_before);
              untrusted = later.untrusted;
              names_it = later.names_it;
            }
        | inr t ↦ record {
          before = [];
          target = (name, value);
          after = targets;
          splits = refl;
          trusted_before = tt;
          untrusted = t;
          names_it = sym (err_of Unit (rw t at h));
        }
      ]

  -- What the tests on the origin refuse, and by which message.
  pub data RefusesOrigin (req : AuthRequest) : AuthError → Type 0 where
    cross_site :
        is_cross_site_navigation req ≡ true
        → RefusesOrigin req (forbidden cross_site_navigation_login_blocked)
    missing : sent_origin req ≡ none → RefusesOrigin req (forbidden "Missing or null Origin")
    untrusted :
        (origin : String)
        → sent_origin req ≡ some origin
        → is_origin_trusted glob_match settings origin ≡ false
        → RefusesOrigin req (forbidden "Invalid origin")

  check_origin-RefusesOrigin :
      (req : AuthRequest) (sent : Option String) (e : AuthError)
      → sent_origin req ≡ sent
      → check_origin glob_match settings sent ≡ err e
      → RefusesOrigin req e
  check_origin-RefusesOrigin req none e same h =
      subst (RefusesOrigin req) (err_of Unit h) (missing same)
  check_origin-RefusesOrigin req (some origin) e same h =
      elim (Bool-cases (is_origin_trusted glob_match settings origin)) [
        | inl t ↦ absurd (ground arith)
        | inr t ↦ subst (RefusesOrigin req) (err_of Unit (rw t at h)) (untrusted origin same t)
      ]

  -- An error of the guard's tests is that of the test on the origin, or the navigation is cross-site.
  csrf_result-err :
      (req : AuthRequest) (e : AuthError)
      → csrf_result glob_match settings req ≡ err e
      → (check_origin glob_match settings (sent_origin req) ≡ err e)
        ⊎ ((is_cross_site_navigation req ≡ true)
            × (forbidden cross_site_navigation_login_blocked ≡ e))
  csrf_result-err req e h =
      tests_in_order-err settings.disable_csrf_check
        (is_form_csrf_path (normalized_path settings req.path)) (has_cookies req)
        (has_fetch_metadata req) (is_cross_site_navigation req)
        (check_origin glob_match settings (sent_origin req)) e h

  csrf_result-RefusesOrigin :
      (req : AuthRequest) (e : AuthError)
      → csrf_result glob_match settings req ≡ err e
      → RefusesOrigin req e
  csrf_result-RefusesOrigin req e h = elim (csrf_result-err req e h) [
    | inl at_origin ↦ check_origin-RefusesOrigin req (sent_origin req) e refl at_origin
    | inr (crosses, same) ↦ subst (RefusesOrigin req) same (cross_site crosses)
  ]

  RefusesOrigin-status_code :
      (req : AuthRequest) (e : AuthError) → RefusesOrigin req e → status_code e ≡ 403
  RefusesOrigin-status_code req _ (cross_site h) = refl
  RefusesOrigin-status_code req _ (missing h) = refl
  RefusesOrigin-status_code req _ (untrusted o h k) = refl

  -- Every refusal is a 403. It is one of the origin: a cross-site navigation, an origin that is missing
  -- or one that is not trusted. Or else the tests of the origin pass, and it names the field of the
  -- first redirect target that is not trusted, after which no other is looked at.
  pub before_request_refuses :
      (crates : BodyCrates) (enabled : Bool) (req : AuthRequest) (body : Option crates.Body)
      (e : AuthError)
      → before_request glob_match settings crates enabled req body ≡ some e
      → (status_code e ≡ 403)
        × (RefusesOrigin req e
            ⊎ ((csrf_result glob_match settings req ≡ ok tt)
                × BlamesFirst (request_target_values crates req body) e))
  unfolding before_request
  before_request_refuses crates enabled req body e h =
      elim (rejected (not enabled || not (is_state_changing req.method)) _ _ e h) [
        | inl at_origin ↦
            let refuses = csrf_result-RefusesOrigin req e at_origin in
            (RefusesOrigin-status_code req e refuses, inl refuses)
        | inr (passes, at_target) ↦
            let blames =
              check_targets-BlamesFirst (request_target_values crates req body) e
                (unless_err settings.disable_origin_check _ e at_target) in
            (ap status_code blames.names_it, inr (passes, blames))
      ]
