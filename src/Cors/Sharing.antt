-- ===== src/Cors/Sharing.antt =====
-- With whom a response is shared.
use better_auth_rs.Prelude.{
  String, Bool, true, false, not, Option, none, some, List, [], ◌∷◌, ◌≡◌, ◌⊎◌, ◌↔◌, inl, inr, refl,
  sym, ap, ◌∙◌, All, All-append, Any, any_iff, any, eq_ignore_ascii_case, if◌then◌else◌, Bool-cases,
  none_ne_some, some_of, eq_iff, subst, true_ne_false, ◌==◌, ◌||◌,
}
use better_auth_rs.Request.{AuthRequest, lookup}
use better_auth_rs.Headers.{get, insert}
use better_auth_rs.Headers.Insertion.{get-insert}
use better_auth_rs.Cors.{
  CorsConfig, AuthResponse, insert_all, listing, is_origin_allowed, allow_origin, cors_headers,
  other_headers, credentials, share_with, after_request,
}

abbrev shared : String
shared = "Access-Control-Allow-Origin"

abbrev IsOther : String × String → Type 0
IsOther (name, value) = eq_ignore_ascii_case name shared ≡ false

get-insert_all :
    (l headers : List (String × String))
    → All IsOther l
    → get shared (insert_all l headers) ≡ get shared headers
get-insert_all [] headers h = refl
get-insert_all ((name, value) ∷ l) headers (here, later) =
    get-insert_all l (insert name value headers) later
    ∙ rw ((get-insert shared name value headers).0, here) refl

or_right : (a : Bool) {b : Bool} → b ≡ true → (a || b) ≡ true
or_right true h = refl
or_right false h = h

listing-IsOther :
    (name : String) (l : List String)
    → eq_ignore_ascii_case name shared ≡ false
    → All IsOther (listing name l)
listing-IsOther name [] h = tt
listing-IsOther name (x ∷ xs) h = (h, tt)

credentials-IsOther : (b : Bool) → All IsOther (credentials b)
credentials-IsOther true = (refl, tt)
credentials-IsOther false = tt

-- The choice of the name, against its description.
names_iff :
    (c b : Bool) (A : Type 0)
    → (b ≡ true) ↔ A
    → (origin named : String)
    → ((if c then origin else if b then "*" else origin) ≡ named) ↔ (
        ((c ≡ true) × (named ≡ origin))
        ⊎ ((c ≡ false) × ((A × (named ≡ "*")) ⊎ ((¬ A) × (named ≡ origin)))))
names_iff true b A h origin named = (
  (λ e. inl (refl, sym e)),
  λ k. elim k [ inl (_, e) ↦ sym e | inr (e, _) ↦ absurd (true_ne_false e) ],
)
names_iff false true A h origin named = (
  (λ e. inr (refl, inl (h.0 refl, sym e))),
  λ k. elim k [
    | inl (e, _) ↦ absurd (true_ne_false (sym e))
    | inr (_, inl (_, e)) ↦ sym e
    | inr (_, inr (never, _)) ↦ absurd (never (h.0 refl))
  ],
)
names_iff false false A h origin named = (
  (λ e. inr (refl, inr ((λ a. true_ne_false (sym (h.1 a))), sym e))),
  λ k. elim k [
    | inl (e, _) ↦ absurd (true_ne_false (sym e))
    | inr (_, inl (a, _)) ↦ absurd (true_ne_false (sym (h.1 a)))
    | inr (_, inr (_, e)) ↦ sym e
  ],
)

-- A middleware that is on.
gate_iff :
    {P : Type 0} (on : Bool) (before after : AuthResponse) (named : String)
    → get shared before.headers ≡ none
    → (get shared after.headers ≡ some named) ↔ P
    → (get shared (if not on then before else after).headers ≡ some named) ↔ ((on ≡ true) × P)
gate_iff true before after named unnamed h = ((λ e. (refl, h.0 e)), λ (_, p). h.1 p)
gate_iff false before after named unnamed h =
    ((λ e. absurd (none_ne_some (sym unnamed ∙ e))), λ (on, _). absurd (true_ne_false (sym on)))

module _ (config : CorsConfig) where
  other_headers-IsOther : All IsOther (other_headers config)
  other_headers-IsOther =
      All-append IsOther (credentials config.allow_credentials) _
        (credentials-IsOther config.allow_credentials)
        (All-append IsOther (listing "Access-Control-Allow-Methods" config.allowed_methods) _
          (listing-IsOther "Access-Control-Allow-Methods" config.allowed_methods refl)
          (All-append IsOther (listing "Access-Control-Allow-Headers" config.allowed_headers) _
            (listing-IsOther "Access-Control-Allow-Headers" config.allowed_headers refl)
            (All-append IsOther (listing "Access-Control-Expose-Headers" config.exposed_headers)
              (("Access-Control-Max-Age", config.max_age) ∷ [])
              (listing-IsOther "Access-Control-Expose-Headers" config.exposed_headers refl)
              (refl, tt))))

  -- The origin that the headers name.
  get-cors_headers :
      (origin : String) (headers : List (String × String))
      → get shared (insert_all (cors_headers config origin) headers)
        ≡ some (allow_origin config origin)
  unfolding cors_headers
  get-cors_headers origin headers =
      get-insert_all (other_headers config)
        (insert "Access-Control-Allow-Origin" (allow_origin config origin) headers)
        other_headers-IsOther
      ∙ (get-insert shared shared (allow_origin config origin) headers).0

  abbrev pub IsAllowed : String → Type 0
  IsAllowed origin = Any (λ o. (o ≡ "*") ⊎ (o ≡ origin)) config.allowed_origins

  abbrev pub AllowsAny : Type 0
  AllowsAny = Any (λ o. o ≡ "*") config.allowed_origins

  -- With credentials the origin; without them `*` where it is configured, and else the origin.
  abbrev pub Names : String → String → Type 0
  Names origin named =
      ((config.allow_credentials ≡ true) × (named ≡ origin))
      ⊎ ((config.allow_credentials ≡ false)
          × ((AllowsAny × (named ≡ "*")) ⊎ ((¬ AllowsAny) × (named ≡ origin))))

  abbrev pub Shares : Option String → String → Type 0
  Shares sent named =
      (origin : String) × (sent ≡ some origin) × IsAllowed origin × Names origin named

  is_origin_allowed-IsAllowed :
      (origin : String) → (is_origin_allowed config origin ≡ true) ↔ IsAllowed origin
  unfolding is_origin_allowed
  is_origin_allowed-IsAllowed origin =
      any_iff (λ o. o == "*" || o == origin) (λ o. (o ≡ "*") ⊎ (o ≡ origin))
        (λ o. (
          (λ h. elim (Bool-cases (o == "*")) [
            | inl e ↦ inl ((eq_iff o "*").0 e)
            | inr e ↦ inr ((eq_iff o origin).0 (rw e at h))
          ]),
          λ k. elim k [
            | inl star ↦ rw ((eq_iff o "*").1 star) refl
            | inr same ↦ or_right (o == "*") ((eq_iff o origin).1 same)
          ],
        ))
        config.allowed_origins

  allow_origin-Names :
      (origin named : String) → (allow_origin config origin ≡ named) ↔ Names origin named
  unfolding allow_origin
  allow_origin-Names origin named =
      names_iff config.allow_credentials (any (λ o. o == "*") config.allowed_origins) AllowsAny
        (any_iff (λ o. o == "*") (λ o. o ≡ "*") (λ o. eq_iff o "*") config.allowed_origins) origin
        named

  share_with-Shares :
      (response : AuthResponse) (named : String) (sent : Option String)
      → get shared response.headers ≡ none
      → (get shared (share_with config response sent).headers ≡ some named) ↔ Shares sent named
  unfolding share_with
  share_with-Shares response named none unnamed = (
    (λ h. absurd (none_ne_some (sym unnamed ∙ h))),
    λ (origin, sent, _, _). absurd (none_ne_some sent),
  )
  share_with-Shares response named (some origin) unnamed =
      let known = is_origin_allowed-IsAllowed origin in
      let named_by = get-cors_headers origin response.headers in
      elim (Bool-cases (is_origin_allowed config origin)) [
        | inl e ↦ rw e (
          (λ h. (
            origin,
            refl,
            known.0 e,
            (allow_origin-Names origin named).0 (some_of (sym named_by ∙ h)),
          )),
          λ (o, same, _, names).
              named_by
              ∙ ap some (
                  (allow_origin-Names origin named).1
                    (subst (λ x. Names x named) (sym (some_of same)) names)),
        )
        | inr e ↦ rw e (
          (λ h. absurd (none_ne_some (sym unnamed ∙ h))),
          λ (o, same, allowed, _).
              absurd
                (true_ne_false (sym (known.1 (subst IsAllowed (sym (some_of same)) allowed)) ∙ e)),
        )
      ]

  -- A response that did not name an origin names one after the middleware exactly when it is on and the
  -- request comes from an allowed origin: with credentials that origin; without them `*` where `*` is
  -- among the configured origins, and that origin where it is not.
  pub after_request-Shares :
      (req : AuthRequest) (response : AuthResponse) (named : String)
      → get shared response.headers ≡ none
      → (get shared (after_request config req response).headers ≡ some named)
        ↔ ((config.enabled ≡ true) × Shares (lookup "origin" req.headers) named)
  unfolding after_request
  after_request-Shares req response named unnamed =
      gate_iff config.enabled response (share_with config response (lookup "origin" req.headers))
        named unnamed (share_with-Shares response named (lookup "origin" req.headers) unnamed)
