-- ===== src/Middleware/Chain.antt =====
-- What a chain of middlewares answers.
use better_auth_rs.Prelude.{
  Option, none, some, List, [], ◌∷◌, ◌++◌, ◌≡◌, refl, sym, ap, ◌≢◌, ◌⊎◌, inl, inr, subst,
  none_ne_some,
}
use better_auth_rs.Error.{AuthError, AuthResult, ok, err, ok_of, err_ne_ok}
use better_auth_rs.Middleware.{
  Middleware, unless_answered, run_before, go_on, after_loop, run_after,
}
use better_auth_rs.Middleware.Order.{run_after_cons}

module _ {S Q R : Type 0} where
  -- Every middleware of the list was asked in order and had no answer; the state at the end.
  pub data Passes (req : Q) : List (Middleware S Q R) → S → S → Type 0 where
    done : (s : S) → Passes req [] s s
    pass :
        (m : Middleware S Q R) (ms : List (Middleware S Q R)) (s t u : S)
        → m.before_request req s ≡ (ok none, t)
        → Passes req ms t u
        → Passes req (m ∷ ms) s u

  -- The first middleware that answers or fails, and its outcome, which is not to go on.
  pub record Stops (req : Q) (ms : List (Middleware S Q R)) (s : S)
      (outcome : AuthResult (Option R) × S) : Type 0 where
    pub earlier : List (Middleware S Q R)
    pub stopper : Middleware S Q R
    pub later : List (Middleware S Q R)
    pub reached : S
    pub chain : ms ≡ earlier ++ (stopper ∷ later)
    pub passed : Passes req earlier s reached
    pub stopped : stopper.before_request req reached ≡ outcome
    pub not_on : outcome.0 ≢ ok none

  -- Every middleware of the list took the response, the last of the list first.
  pub data Returns (req : Q) : List (Middleware S Q R) → R → S → R → S → Type 0 where
    done : (r : R) (s : S) → Returns req [] r s r s
    take :
        (m : Middleware S Q R) (ms : List (Middleware S Q R)) (r r' r'' : R) (s s' s'' : S)
        → Returns req ms r s r' s'
        → m.after_request req r' s' ≡ (ok r'', s'')
        → Returns req (m ∷ ms) r s r'' s''

  -- The first middleware from the end that fails.
  pub record Fails (req : Q) (ms : List (Middleware S Q R)) (r : R) (s : S)
      (outcome : AuthResult R × S) : Type 0 where
    pub earlier : List (Middleware S Q R)
    pub failing : Middleware S Q R
    pub later : List (Middleware S Q R)
    pub response : R
    pub reached : S
    pub chain : ms ≡ earlier ++ (failing ∷ later)
    pub returned : Returns req later r s response reached
    pub failed : failing.after_request req response reached ≡ outcome
    pub error : AuthError
    pub is_error : outcome.0 ≡ err error

  step_before :
      (req : Q) (m : Middleware S Q R) (ms : List (Middleware S Q R)) (s : S)
      (p : AuthResult (Option R) × S)
      → m.before_request req s ≡ p
      → ((t : S)
          → ((run_before ms req t).0 ≡ ok none) × Passes req ms t (run_before ms req t).1
            ⊎ Stops req ms t (run_before ms req t))
      → ((unless_answered p (run_before ms req)).0 ≡ ok none)
          × Passes req (m ∷ ms) s (unless_answered p (run_before ms req)).1
        ⊎ Stops req (m ∷ ms) s (unless_answered p (run_before ms req))
  step_before req m ms s (ok none, t) asked later = elim (later t) [
    | inl (on, passed) ↦ inl (on, pass m ms s t (run_before ms req t).1 asked passed)
    | inr stop ↦ inr (record {
      earlier = m ∷ stop.earlier;
      stopper = stop.stopper;
      later = stop.later;
      reached = stop.reached;
      chain = ap (λ l. m ∷ l) stop.chain;
      passed = pass m stop.earlier s t stop.reached asked stop.passed;
      stopped = stop.stopped;
      not_on = stop.not_on;
    })
  ]
  step_before req m ms s (ok (some r), t) asked later = inr (record {
    earlier = [];
    stopper = m;
    later = ms;
    reached = s;
    chain = refl;
    passed = done s;
    stopped = asked;
    not_on = λ h. none_ne_some (sym (ok_of h));
  })
  step_before req m ms s (err e, t) asked later = inr (record {
    earlier = [];
    stopper = m;
    later = ms;
    reached = s;
    chain = refl;
    passed = done s;
    stopped = asked;
    not_on = λ h. err_ne_ok h;
  })

  -- A chain is asked in order: every middleware had no answer, and so has the chain; or the outcome, an
  -- answer or a failure, is that of a middleware before which all had none, and nothing after it runs.
  pub run_before_cases :
      (ms : List (Middleware S Q R)) (req : Q) (s : S)
      → ((run_before ms req s).0 ≡ ok none) × Passes req ms s (run_before ms req s).1
        ⊎ Stops req ms s (run_before ms req s)
  unfolding run_before
  run_before_cases [] req s = inl (refl, done s)
  run_before_cases (m ∷ ms) req s =
      step_before req m ms s (m.before_request req s) refl (run_before_cases ms req)

  abbrev pub Outcome : Q → List (Middleware S Q R) → R → S → AuthResult R × S → Type 0
  Outcome req ms r s p =
      ((r' : R) × (s' : S) × (p ≡ (ok r', s')) × Returns req ms r s r' s') ⊎ Fails req ms r s p

  last_step :
      (req : Q) (m : Middleware S Q R) (ms : List (Middleware S Q R)) (r r' : R) (s s' : S)
      (p : AuthResult R × S)
      → Returns req ms r s r' s'
      → m.after_request req r' s' ≡ p
      → Outcome req (m ∷ ms) r s p
  last_step req m ms r r' s s' (ok r'', s'') returned took =
      inl (r'', s'', refl, take m ms r r' r'' s s' s'' returned took)
  last_step req m ms r r' s s' (err e, s'') returned failed = inr (record {
    earlier = [];
    failing = m;
    later = ms;
    response = r';
    reached = s';
    chain = refl;
    returned = returned;
    failed = failed;
    error = e;
    is_error = refl;
  })

  step_after :
      (req : Q) (m : Middleware S Q R) (ms : List (Middleware S Q R)) (r : R) (s : S)
      (p : AuthResult R × S)
      → Outcome req ms r s p
      → Outcome req (m ∷ ms) r s (go_on p (m.after_request req))
  step_after req m ms r s p (inl (r', s', same, returned)) =
      subst (λ p. Outcome req (m ∷ ms) r s (go_on p (m.after_request req))) (sym same)
        (last_step req m ms r r' s s' (m.after_request req r' s') returned refl)
  step_after req m ms r s (ok r', s') (inr fail) = absurd (err_ne_ok (sym fail.is_error))
  step_after req m ms r s (err e, s') (inr fail) = inr (record {
    earlier = m ∷ fail.earlier;
    failing = fail.failing;
    later = fail.later;
    response = fail.response;
    reached = fail.reached;
    chain = ap (λ l. m ∷ l) fail.chain;
    returned = fail.returned;
    failed = fail.failed;
    error = fail.error;
    is_error = fail.is_error;
  })

  -- A response passes the chain from the last middleware to the first: every one took it, each the
  -- response of the one after it; or the outcome is the failure of a middleware after which all took it,
  -- and nothing before it runs.
  pub run_after_cases :
      (ms : List (Middleware S Q R)) (req : Q) (response : R) (s : S)
      → Outcome req ms response s (run_after ms req response s)
  unfolding run_after after_loop
  run_after_cases [] req response s = inl (response, s, refl, done response s)
  run_after_cases (m ∷ ms) req response s =
      subst (Outcome req (m ∷ ms) response s) (sym (run_after_cons m ms req response s)) (
        step_after req m ms response s (run_after ms req response s)
          (run_after_cases ms req response s))
