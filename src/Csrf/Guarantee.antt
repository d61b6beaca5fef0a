-- ===== src/Csrf/Guarantee.antt =====
-- What the guard lets pass, and how it refuses.
use better_auth_rs.Prelude.{
  String, Bool, true, false, not, ◌&&◌, ◌||◌, Option, none, some, List, [], ◌∷◌, ◌≡◌, refl, ◌↔◌,
  inl, inr, arith, if◌then◌else◌, All, Bool-cases, some_of,
}
use better_auth_rs.Error.{AuthResult, ok, err}
use better_auth_rs.Error.Chain.{◌>>◌}
use better_auth_rs.Request.{AuthRequest}
use better_auth_rs.Config.{AuthConfig, is_origin_trusted, is_redirect_target_trusted}
use better_auth_rs.Csrf.Order.{tests_in_order-ok, ok-tests_in_order}
use better_auth_rs.Csrf.{
  BodyCrates, rejection, is_state_changing, normalized_path, is_form_csrf_path, has_cookies,
  has_fetch_metadata, sent_origin, is_cross_site_navigation, request_target_values, check_origin,
  check_targets, csrf_result, validate_redirect_targets, before_request,
}

both : (a b : AuthResult {0} Unit) → rejection (a >> b) ≡ none → (a ≡ ok tt) × (b ≡ ok tt)
both (ok u) (ok v) h = (refl, refl)
both (ok u) (err e) h = absurd (ground arith)
both (err e) b h = absurd (ground arith)

unless :
    (off : Bool) (r : AuthResult {0} Unit)
    → (off ≡ false → r ≡ ok tt)
    → (if off then ok tt else r) ≡ ok tt
unless true r h = refl
unless false r h = h refl

unless-holds :
    (off : Bool) (r : AuthResult {0} Unit)
    → (if off then ok tt else r) ≡ ok tt
    → off ≡ false
    → r ≡ ok tt
unless-holds off r h on = ground arith

module _ (glob_match : String → String → Bool) (settings : AuthConfig) where
  abbrev IsTrusted : String × String → Type 0
  IsTrusted (name, value) = is_redirect_target_trusted glob_match settings value ≡ true

  abbrev NamesTrusted : Option String → Type 0
  NamesTrusted sent =
      (origin : String) × (sent ≡ some origin)
      × (is_origin_trusted glob_match settings origin ≡ true)

  -- A sign-in or sign-up without cookies, from a browser that sends fetch metadata.
  abbrev pub is_first_login : AuthRequest → Bool
  is_first_login req =
      is_form_csrf_path (normalized_path settings req.path)
      && not (has_cookies req)
      && has_fetch_metadata req

  -- What the guard promises of a request, written down without its order of tests.
  pub record Acceptable (crates : BodyCrates) (req : AuthRequest) (body : Option crates.Body)
      : Type 0 where
    pub origin :
        settings.disable_csrf_check ≡ false
        → (has_cookies req || is_first_login req) ≡ true
        → NamesTrusted (sent_origin req)
    pub navigation :
        settings.disable_csrf_check ≡ false
        → is_first_login req ≡ true
        → is_cross_site_navigation req ≡ false
    pub targets :
        settings.disable_origin_check ≡ false
        → All IsTrusted (request_target_values crates req body)

  check_origin-NamesTrusted :
      (sent : Option String) → (check_origin glob_match settings sent ≡ ok tt) ↔ NamesTrusted sent
  check_origin-NamesTrusted none =
      ((λ h. absurd (ground arith)), (λ (o, e, t). absurd (ground arith)))
  check_origin-NamesTrusted (some origin) =
      elim (Bool-cases (is_origin_trusted glob_match settings origin)) [
        | inl e ↦ ((λ h. (origin, refl, e)), (λ n. rw e refl))
        | inr e ↦
            ((λ h. absurd (ground arith)), (λ (o, same, t). absurd (ground (arith, some_of same))))
      ]

  check_targets-All :
      (targets : List (String × String))
      → (check_targets glob_match settings targets ≡ ok tt) ↔ All IsTrusted targets
  check_targets-All [] = ((λ h. tt), (λ h. refl))
  check_targets-All ((name, value) ∷ targets) =
      elim (Bool-cases (is_redirect_target_trusted glob_match settings value)) [
        | inl e ↦ (
          (λ h. (e, (check_targets-All targets).0 (rw e at h))),
          (λ (t, ts). rw e ((check_targets-All targets).1 ts)),
        )
        | inr e ↦ ((λ h. absurd (ground arith)), (λ (t, ts). absurd (ground arith)))
      ]

  acceptable :
      (crates : BodyCrates) (req : AuthRequest) (body : Option crates.Body)
      → csrf_result glob_match settings req ≡ ok tt
      → validate_redirect_targets glob_match settings crates req body ≡ ok tt
      → Acceptable crates req body
  acceptable crates req body h k =
      let in_order =
        tests_in_order-ok settings.disable_csrf_check
          (is_form_csrf_path (normalized_path settings req.path)) (has_cookies req)
          (has_fetch_metadata req) (is_cross_site_navigation req)
          (check_origin glob_match settings (sent_origin req)) in
      record {
        origin =
            λ on needs. (check_origin-NamesTrusted (sent_origin req)).0 ((in_order h on).0 needs);
        navigation = λ on first. (in_order h on).1 first;
        targets = λ on.
            (check_targets-All (request_target_values crates req body)).0
              (unless-holds settings.disable_origin_check _ k on);
      }

  passes :
      (crates : BodyCrates) (req : AuthRequest) (body : Option crates.Body)
      → Acceptable crates req body
      → (csrf_result glob_match settings req ≡ ok tt)
        × (validate_redirect_targets glob_match settings crates req body ≡ ok tt)
  passes crates req body accepted = (
    ok-tests_in_order settings.disable_csrf_check
        (is_form_csrf_path (normalized_path settings req.path)) (has_cookies req)
        (has_fetch_metadata req) (is_cross_site_navigation req)
        (check_origin glob_match settings (sent_origin req))
        (λ on needs. (check_origin-NamesTrusted (sent_origin req)).1 (accepted.origin on needs))
        accepted.navigation,
    unless settings.disable_origin_check _
        (λ on. (check_targets-All (request_target_values crates req body)).1 (accepted.targets on)),
  )

  -- Where the guard is on and the request changes state, it passes exactly when it is acceptable.
  pub before_request-Acceptable :
      (crates : BodyCrates) (req : AuthRequest) (body : Option crates.Body)
      → is_state_changing req.method ≡ true
      → (before_request glob_match settings crates true req body ≡ none)
        ↔ Acceptable crates req body
  unfolding before_request
  before_request-Acceptable crates req body changes = (
    (λ h.
        let (first, second) = both _ _ (rw changes at h) in
        acceptable crates req body first second),
    (λ accepted.
        let (first, second) = passes crates req body accepted in rw (changes, first, second) refl),
  )
