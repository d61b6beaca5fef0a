-- ===== src/Store/Answers.antt =====
-- What an answer of a statement or of a sequence of them tells.
use better_auth_rs.Prelude.{◌≡◌, refl, ap, Bool, true, false, List, [], ◌∷◌, if◌then◌else◌}
use better_auth_rs.Error.{AuthError, AuthResult, ok, err, ok_of, err_ne_ok}
use better_auth_rs.Store.{
  Turn, World, Exec, pure, throw, lift, query, read, run_query, run_turn, ◌>>=◌, continue,
}

module _ {D A B : Type 0} where
  continue_ok :
      (r : AuthResult A) (f : A → Exec D B) (w : World D) (b : B)
      → (continue r f w).0 ≡ ok b
      → (a : A) × (r ≡ ok a) × ((f a w).0 ≡ ok b)
  continue_ok (ok a) f w b h = (a, refl, h)
  continue_ok (err e) f w b h = cc

  -- A sequence that succeeds has a first part that does.
  pub bind_ok :
      (m : Exec D A) (f : A → Exec D B) (w : World D) (b : B)
      → ((m >>= f) w).0 ≡ ok b
      → (a : A) × ((m w).0 ≡ ok a) × ((f a (m w).1).0 ≡ ok b)
  unfolding ◌>>=◌
  bind_ok m f w b h = continue_ok (m w).0 f (m w).1 b h

  continue_run :
      (r : AuthResult A) (f : A → Exec D B) (w w' : World D) (b : B)
      → continue r f w ≡ (ok b, w')
      → (a : A) × (r ≡ ok a) × (f a w ≡ (ok b, w'))
  continue_run (ok a) f w w' b h = (a, refl, h)
  continue_run (err e) f w w' b h = absurd (err_ne_ok (ap (λ p. p.0) h))

  -- The same of the whole run, with the worlds.
  pub bind_run :
      (m : Exec D A) (f : A → Exec D B) (w w' : World D) (b : B)
      → (m >>= f) w ≡ (ok b, w')
      → (a : A) × ((m w).0 ≡ ok a) × (f a (m w).1 ≡ (ok b, w'))
  unfolding ◌>>=◌
  bind_run m f w w' b h = continue_run (m w).0 f (m w).1 w' b h

  continue_first :
      (r : AuthResult A) (f : A → Exec D B) (w : World D) (a : A)
      → r ≡ ok a
      → continue r f w ≡ f a w
  continue_first r f w a h = rw h refl

  -- A sequence whose first part succeeds goes on with the rest.
  pub bind_first :
      (m : Exec D A) (f : A → Exec D B) (w : World D) (a : A)
      → (m w).0 ≡ ok a
      → (m >>= f) w ≡ f a (m w).1
  unfolding ◌>>=◌
  bind_first m f w a h = continue_first (m w).0 f (m w).1 a h

module _ {D A : Type 0} where
  run_turn_ok :
      (b : Bool) (op : D → AuthResult A × D) (d : D) (ts : List (Turn D)) (a : A)
      → (run_turn b op d ts).0 ≡ ok a
      → (op d).0 ≡ ok a
  run_turn_ok true op d ts a h = cc
  run_turn_ok false op d ts a h = h

  run_query_ok :
      (op : D → AuthResult A × D) (d : D) (ts : List (Turn D)) (a : A)
      → (run_query op d ts).0 ≡ ok a
      → (d' : D) × ((op d').0 ≡ ok a)
  run_query_ok op d [] a h = (d, h)
  run_query_ok op d (t ∷ ts) a h = (t.interfere d, run_turn_ok t.fails op _ ts a h)

  -- A statement that answers has run on some database.
  pub query_ok :
      (op : D → AuthResult A × D) (w : World D) (a : A)
      → (query op w).0 ≡ ok a
      → (d : D) × ((op d).0 ≡ ok a)
  unfolding query
  query_ok op w a h = run_query_ok op w.db w.schedule a h

  -- A statement that only reads answers with what it finds in some database.
  pub read_ok : (f : D → A) (w : World D) (a : A) → (read f w).0 ≡ ok a → (d : D) × (f d ≡ a)
  read_ok f w a h = let (d, e) = query_ok (λ d. (ok (f d), d)) w a h in (d, ok_of e)

  pub lift_ok : (r : AuthResult A) (w : World D) (a : A) → (lift r w).0 ≡ ok a → r ≡ ok a
  unfolding lift
  lift_ok r w a h = h

  pub pure_run : (a b : A) (w w' : World D) → pure {D = D} a w ≡ (ok b, w') → (a ≡ b) × (w ≡ w')
  unfolding pure
  pure_run a b w w' h = (ok_of (ap (λ p. p.0) h), ap (λ p. p.1) h)

  -- A guard that answers with an error was passed.
  pub guard_run :
      (b : Bool) (e : AuthError) (m : Exec D A) (w w' : World D) (a : A)
      → (if b then throw {D = D} e else m) w ≡ (ok a, w')
      → m w ≡ (ok a, w')
  unfolding throw
  guard_run true e m w w' a h = absurd (err_ne_ok (ap (λ p. p.0) h))
  guard_run false e m w w' a h = h

module _ {D A : Type 0} where
  pub throw_fails : {X : Type 0} (e : AuthError) (w : World D) (a : A) → (throw e w).0 ≡ ok a → X
  unfolding throw
  throw_fails e w a h = absurd (err_ne_ok h)

  pub pure_ok : (a b : A) (w : World D) → (pure a w).0 ≡ ok b → a ≡ b
  unfolding pure
  pure_ok a b w h = ok_of h

  -- A guard was passed, and what follows it succeeded.
  pub guard_ok :
      (b : Bool) (e : AuthError) (m : Exec D A) (w : World D) (a : A)
      → ((if b then throw {D = D} e else m) w).0 ≡ ok a
      → (b ≡ false) × ((m w).0 ≡ ok a)
  guard_ok true e m w a h = throw_fails e w a h
  guard_ok false e m w a h = (refl, h)

module _ {D A : Type 0} where
  ran_turn :
      (b : Bool) (op : D → AuthResult A × D) (d : D) (ts : List (Turn D)) (a : A)
      → (run_turn b op d ts).0 ≡ ok a
      → (d' : D) × ((op d').0 ≡ ok a) × ((run_turn b op d ts).1.db ≡ (op d').1)
  ran_turn true op d ts a h = absurd (err_ne_ok h)
  ran_turn false op d ts a h = (d, h, refl)

  ran_query :
      (op : D → AuthResult A × D) (d : D) (ts : List (Turn D)) (a : A)
      → (run_query op d ts).0 ≡ ok a
      → (d' : D) × ((op d').0 ≡ ok a) × ((run_query op d ts).1.db ≡ (op d').1)
  ran_query op d [] a h = (d, h, refl)
  ran_query op d (t ∷ ts) a h = ran_turn t.fails op (t.interfere d) ts a h

  -- A statement that answers leaves what it made of the database it ran on.
  pub query_ran :
      (op : D → AuthResult A × D) (w : World D) (a : A)
      → (query op w).0 ≡ ok a
      → (d : D) × ((op d).0 ≡ ok a) × ((query op w).1.db ≡ (op d).1)
  unfolding query
  query_ran op w a h = ran_query op w.db w.schedule a h
