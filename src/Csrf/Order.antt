-- ===== src/Csrf/Order.antt =====
-- The order of the guard's tests, on their outcomes.
use better_auth_rs.Prelude.{
  Bool, true, false, not, ◌&&◌, ◌||◌, ◌≡◌, ◌⊎◌, inl, inr, arith, if◌then◌else◌, Bool-cases,
}
use better_auth_rs.Error.{AuthResult, ok, err, AuthError, forbidden}
use better_auth_rs.Csrf.{cross_site_navigation_login_blocked}

abbrev pub tests_in_order :
    (disabled form cookies fetch cross : Bool) → AuthResult {0} Unit → AuthResult {0} Unit
tests_in_order disabled form cookies fetch cross origin =
    if form
    then (if disabled
        then ok tt
        else if cookies
        then unforced
        else if fetch
        then (if cross then err (forbidden cross_site_navigation_login_blocked) else forced)
        else ok tt)
    else unforced
  where
    unforced : AuthResult {0} Unit
    unforced = if disabled then ok tt else if not false && not cookies then ok tt else origin

    forced : AuthResult {0} Unit
    forced = if disabled then ok tt else if not true && not cookies then ok tt else origin

pub tests_in_order-ok :
    (disabled form cookies fetch cross : Bool) (origin : AuthResult {0} Unit)
    → tests_in_order disabled form cookies fetch cross origin ≡ ok tt
    → disabled ≡ false
    → ((cookies || form && not cookies && fetch) ≡ true → origin ≡ ok tt)
      × ((form && not cookies && fetch) ≡ true → cross ≡ false)
tests_in_order-ok disabled form cookies fetch cross origin h =
    λ e. ((λ k. ground arith), (λ k. ground arith))

pub ok-tests_in_order :
    (disabled form cookies fetch cross : Bool) (origin : AuthResult {0} Unit)
    → (disabled ≡ false → (cookies || form && not cookies && fetch) ≡ true → origin ≡ ok tt)
    → (disabled ≡ false → (form && not cookies && fetch) ≡ true → cross ≡ false)
    → tests_in_order disabled form cookies fetch cross origin ≡ ok tt
ok-tests_in_order true form cookies fetch cross origin h k = ground arith
ok-tests_in_order false form cookies fetch cross origin h k = ground arith

pub tests_in_order-err :
    (disabled form cookies fetch cross : Bool) (origin : AuthResult {0} Unit) (e : AuthError)
    → tests_in_order disabled form cookies fetch cross origin ≡ err e
    → (origin ≡ err e) ⊎ ((cross ≡ true) × (forbidden cross_site_navigation_login_blocked ≡ e))
tests_in_order-err disabled form cookies fetch cross origin e h = elim (Bool-cases cross) [
  | inl c ↦ ground arith
  | inr c ↦ inl (ground arith)
]
