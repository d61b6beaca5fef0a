-- ===== src/Middleware/Order.antt =====
-- A chain hands the response to its middlewares from the last to the first.
use better_auth_rs.Prelude.{List, [], ◌∷◌, ◌++◌, reverse, reverse_onto, ◌≡◌, refl, ap, ◌∙◌}
use better_auth_rs.Error.{AuthResult, ok, err}
use better_auth_rs.Middleware.{Middleware, go_on, after_loop, run_after}

module _ {A : Type 0} where
  reverse_onto-append :
      (xs ys done : List A) → reverse_onto (xs ++ ys) done ≡ reverse_onto ys (reverse_onto xs done)
  reverse_onto-append [] ys done = refl
  reverse_onto-append (x ∷ xs) ys done = reverse_onto-append xs ys (x ∷ done)

  append-reverse_onto :
      (xs done more : List A) → reverse_onto xs (done ++ more) ≡ reverse_onto xs done ++ more
  append-reverse_onto [] done more = refl
  append-reverse_onto (x ∷ xs) done more = append-reverse_onto xs (x ∷ done) more

  reverse-append : (xs ys : List A) → reverse (xs ++ ys) ≡ reverse ys ++ reverse xs
  reverse-append xs ys =
      reverse_onto-append xs ys [] ∙ append-reverse_onto ys [] (reverse_onto xs [])

module _ {S R : Type 0} where
  on_step :
      (p : AuthResult R × S) (f g h : R → S → AuthResult R × S)
      → ((r : R) (s : S) → h r s ≡ go_on (f r s) g)
      → go_on p h ≡ go_on (go_on p f) g
  on_step (ok r, s) f g h e = e r s
  on_step (err x, s) f g h e = refl

  on_last :
      (p : AuthResult R × S) (f : R → S → AuthResult R × S)
      → go_on p (λ r s. go_on (f r s) (λ r s. (ok r, s))) ≡ go_on p f
  on_last (ok r, s) f = settled (f r s)
    where
      settled : (p : AuthResult R × S) → go_on p (λ r s. (ok r, s)) ≡ p
      settled (ok r, s) = refl
      settled (err x, s) = refl
  on_last (err x, s) f = refl

module _ {S Q R : Type 0} where
  after_loop-append :
      (ms ns : List (Middleware S Q R)) (req : Q) (response : R) (s : S)
      → after_loop (ms ++ ns) req response s
        ≡ go_on (after_loop ms req response s) (after_loop ns req)
  unfolding after_loop
  after_loop-append [] ns req response s = refl
  after_loop-append (m ∷ ms) ns req response s =
      on_step (m.after_request req response s) (after_loop ms req) (after_loop ns req)
        (after_loop (ms ++ ns) req) (after_loop-append ms ns req)

  -- The first middleware of a chain takes the response last.
  pub run_after_cons :
      (m : Middleware S Q R) (ms : List (Middleware S Q R)) (req : Q) (response : R) (s : S)
      → run_after (m ∷ ms) req response s
        ≡ go_on (run_after ms req response s) (m.after_request req)
  unfolding run_after after_loop
  run_after_cons m ms req response s =
      ap (λ l. after_loop l req response s) (reverse-append (m ∷ []) ms)
      ∙ after_loop-append (reverse ms) (m ∷ []) req response s
      ∙ on_last (after_loop (reverse ms) req response s) (m.after_request req)
