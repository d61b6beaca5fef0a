-- ===== src/Store/Rely.antt =====
-- Rely and guarantee: if what other requests do between two statements stays in a preorder on
-- databases, then so does a handler all of whose statements do.
use better_auth_rs.Prelude.{Bool, true, false, List, [], ◌∷◌, All}
use better_auth_rs.Error.{AuthError, AuthResult, ok, err}
use better_auth_rs.Store
use better_auth_rs.Store.{
  Turn, World, Exec, pure, throw, lift, attempt, query, run_query, continue, ◌>>=◌,
}

module _ {D : Type 0} (R : D → D → Type 0) where
  -- Every interference of the schedule stays in the preorder.
  abbrev pub Relies : List (Turn D) → Type 0
  Relies ts = All (λ t. (d : D) → R d (t.interfere d)) ts

  pub record Keeps {A : Type 0} (m : Exec D A) : Type 0 where
    pub at : (w : World D) → Relies w.schedule → R w.db (m w).1.db × Relies (m w).1.schedule

module _ {D : Type 0} {R : D → D → Type 0} (R_refl : (d : D) → R d d)
    (R_trans : (a b c : D) → R a b → R b c → R a c) where
  module _ {A : Type 0} where
    pub Keeps-pure : (a : A) → Keeps R (pure {D = D} a)
    unfolding pure
    Keeps-pure a = record { at = λ w rely. (R_refl w.db, rely) }

    pub Keeps-throw : (e : AuthError) → Keeps R (throw {D = D} {A = A} e)
    unfolding throw
    Keeps-throw e = record { at = λ w rely. (R_refl w.db, rely) }

    pub Keeps-lift : (r : AuthResult A) → Keeps R (lift {D = D} r)
    unfolding lift
    Keeps-lift r = record { at = λ w rely. (R_refl w.db, rely) }

    pub Keeps-attempt : (m : Exec D A) → Keeps R m → Keeps R (attempt m)
    unfolding attempt
    Keeps-attempt m k = record { at = k.at }

    run_query-Keeps :
        (op : D → AuthResult A × D)
        → ((d : D) → R d (op d).1)
        → (d : D) (ts : List (Turn D)) → Relies R ts
        → R d (run_query op d ts).1.db × Relies R (run_query op d ts).1.schedule
    run_query-Keeps op h d [] rely = (h d, rely)
    run_query-Keeps op h d (t ∷ ts) rely = go t.fails
      where
        go :
            (b : Bool)
            → R d (Store.run_turn b op (t.interfere d) ts).1.db
              × Relies R (Store.run_turn b op (t.interfere d) ts).1.schedule
        go true = (rely.0 d, rely.1)
        go false = (R_trans _ _ _ (rely.0 d) (h (t.interfere d)), rely.1)

    pub Keeps-query : (op : D → AuthResult A × D) → ((d : D) → R d (op d).1) → Keeps R (query op)
    unfolding query
    Keeps-query op h = record { at = λ w rely. run_query-Keeps op h w.db w.schedule rely }

  module _ {A B : Type 0} where
    pub Keeps-bind :
        (m : Exec D A) (f : A → Exec D B)
        → Keeps R m
        → ((a : A) → Keeps R (f a))
        → Keeps R (m >>= f)
    unfolding ◌>>=◌
    Keeps-bind m f first later = record { at = λ w rely. go w (m w).0 (m w).1 (first.at w rely) }
      where
        go :
            (w : World D) (r : AuthResult A) (w' : World D)
            → R w.db w'.db × Relies R w'.schedule
            → R w.db (continue r f w').1.db × Relies R (continue r f w').1.schedule
        go w (ok a) w' (h, rely) =
            let (h', rely') = (later a).at w' rely in (R_trans _ _ _ h h', rely')
        go w (err e) w' (h, rely) = (h, rely)

pub ruleset keeps_rules = (Keeps-pure, Keeps-throw, Keeps-lift, Keeps-attempt, Keeps-bind)
