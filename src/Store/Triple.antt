-- ===== src/Store/Triple.antt =====
-- Rely and guarantee with assertions: a handler that starts where `Pre` holds keeps the preorder,
-- and where it answers `a`, `Post a` holds. Assertions survive what the preorder allows.
use better_auth_rs.Prelude.{◌≡◌, refl, Bool, true, false, List, [], ◌∷◌}
use better_auth_rs.Error.{AuthError, AuthResult, ok, err}
use better_auth_rs.Store
use better_auth_rs.Store.{Turn, World, Exec, pure, throw, lift, query, run_query, continue, ◌>>=◌}
use better_auth_rs.Store.Rely.{Relies, Keeps}

module _ {D : Type 0} (R : D → D → Type 0) where
  abbrev pub After : {A : Type 0} → (A → D → Type 0) → AuthResult A → D → Type 0
  After Post (ok a) d = Post a d
  After Post (err e) d = Unit

  pub record Ensures {A : Type 0} (Pre : D → Type 0) (m : Exec D A) (Post : A → D → Type 0)
      : Type 0 where
    pub at :
        (w : World D)
        → Relies R w.schedule
        → Pre w.db
        → R w.db (m w).1.db × Relies R (m w).1.schedule × After Post (m w).0 (m w).1.db

module _ {D : Type 0} {R : D → D → Type 0} {A : Type 0} where
  pub Ensures-weaken :
      {Pre Pre' : D → Type 0} {m : Exec D A} {Post : A → D → Type 0}
      → ((d : D) → Pre' d → Pre d)
      → Ensures R Pre m Post
      → Ensures R Pre' m Post
  Ensures-weaken h e = record { at = λ w rely pre. e.at w rely (h w.db pre) }

  -- From an assertion that never holds.
  pub Ensures_absurd :
      (Pre : D → Type 0) (m : Exec D A) (Post : A → D → Type 0)
      → ((d : D) → ¬ Pre d)
      → Ensures R Pre m Post
  Ensures_absurd Pre m Post never = record { at = λ w rely pre. absurd (never w.db pre) }

module _ {D : Type 0} {R : D → D → Type 0} (R_trans : (a b c : D) → R a b → R b c → R a c) where
  module _ {A : Type 0} where
    run_query-Ensures :
        (Pre : D → Type 0) (Post : A → D → Type 0) (op : D → AuthResult A × D)
        → ((d d' : D) → R d d' → Pre d → Pre d')
        → ((d : D) → Pre d → R d (op d).1 × After R Post (op d).0 (op d).1)
        → (d : D) (ts : List (Turn D)) → Relies R ts
        → Pre d
        → R d (run_query op d ts).1.db
          × Relies R (run_query op d ts).1.schedule
          × After R Post (run_query op d ts).0 (run_query op d ts).1.db
    run_query-Ensures Pre Post op stable h d [] rely pre = ((h d pre).0, rely, (h d pre).1)
    run_query-Ensures Pre Post op stable h d (t ∷ ts) rely pre = go t.fails
      where
        go :
            (b : Bool)
            → R d (Store.run_turn b op (t.interfere d) ts).1.db
              × Relies R (Store.run_turn b op (t.interfere d) ts).1.schedule
              × After R Post
                  (Store.run_turn b op (t.interfere d) ts).0
                  (Store.run_turn b op (t.interfere d) ts).1.db
        go true = (rely.0 d, rely.1, tt)
        go false =
            let step = h (t.interfere d) (stable _ _ (rely.0 d) pre) in
            (R_trans _ _ _ (rely.0 d) step.0, rely.1, step.1)

    pub Ensures-pure :
        (Pre : D → Type 0) (Post : A → D → Type 0) (a : A)
        → ((d : D) → R d d)
        → ((d : D) → Pre d → Post a d)
        → Ensures R Pre (pure {D = D} a) Post
    unfolding pure
    Ensures-pure Pre Post a R_refl h = record { at = λ w rely pre. (R_refl w.db, rely, h w.db pre) }

    pub Ensures-throw :
        (Pre : D → Type 0) (Post : A → D → Type 0) (e : AuthError)
        → ((d : D) → R d d)
        → Ensures R Pre (throw {D = D} e) Post
    unfolding throw
    Ensures-throw Pre Post e R_refl = record { at = λ w rely pre. (R_refl w.db, rely, tt) }

    -- A plain result that is there is known afterwards.
    pub Ensures-lift :
        (Pre : D → Type 0) (r : AuthResult A)
        → ((d : D) → R d d)
        → Ensures R Pre (lift {D = D} r) (λ a d. Pre d × (r ≡ ok a))
    unfolding lift
    Ensures-lift Pre r R_refl = record { at = λ w rely pre. (R_refl w.db, rely, go r w.db pre) }
      where
        go : (r : AuthResult A) (d : D) → Pre d → After R (λ a d. Pre d × (r ≡ ok a)) r d
        go (ok a) d pre = (pre, refl)
        go (err e) d pre = tt

    pub Ensures-query :
        (Pre : D → Type 0) (Post : A → D → Type 0) (op : D → AuthResult A × D)
        → ((d d' : D) → R d d' → Pre d → Pre d')
        → ((d : D) → Pre d → R d (op d).1 × After R Post (op d).0 (op d).1)
        → Ensures R Pre (query op) Post
    unfolding query
    Ensures-query Pre Post op stable h = record {
      at = λ w rely pre. run_query-Ensures Pre Post op stable h w.db w.schedule rely pre;
    }

    -- A handler that keeps the preorder keeps a stable assertion.
    pub Ensures_of_Keeps :
        (Pre : D → Type 0) (m : Exec D A)
        → ((d d' : D) → R d d' → Pre d → Pre d')
        → Keeps R m
        → Ensures R Pre m (λ _. Pre)
    Ensures_of_Keeps Pre m stable keeps = record {
      at = λ w rely pre.
          let (kept, rely') = keeps.at w rely in (kept, rely', go (m w).0 (stable _ _ kept pre));
    }
      where
        go : {d : D} (r : AuthResult A) → Pre d → After R (λ (a : A). Pre) r d
        go (ok a) p = p
        go (err e) p = tt

    -- Without a claim about the answer.
    pub Ensures_plain :
        (Pre : D → Type 0) (m : Exec D A) → Keeps R m → Ensures R Pre m (λ _ _. Unit {0})
    Ensures_plain Pre m keeps = record {
      at =
          λ w rely pre. let (kept, rely') = keeps.at w rely in (kept, rely', go (m w).1.db (m w).0);
    }
      where
        go : (d : D) (r : AuthResult A) → After R (λ (a : A) (_ : D). Unit {0}) r d
        go d (ok a) = tt
        go d (err e) = tt

  module _ {A B : Type 0} where
    pub Ensures-bind :
        (Pre : D → Type 0) (Mid : A → D → Type 0) (Post : B → D → Type 0) (m : Exec D A)
        (f : A → Exec D B)
        → Ensures R Pre m Mid
        → ((a : A) → Ensures R (Mid a) (f a) Post)
        → Ensures R Pre (m >>= f) Post
    unfolding ◌>>=◌
    Ensures-bind Pre Mid Post m f first later = record {
      at = λ w rely pre. go w (m w).0 (m w).1 (first.at w rely pre);
    }
      where
        go :
            (w : World D) (r : AuthResult A) (w' : World D)
            → R w.db w'.db × Relies R w'.schedule × After R Mid r w'.db
            → R w.db (continue r f w').1.db
              × Relies R (continue r f w').1.schedule
              × After R Post (continue r f w').0 (continue r f w').1.db
        go w (ok a) w' (kept, rely, mid) =
            let (kept', rely', post) = (later a).at w' rely mid in
            (R_trans _ _ _ kept kept', rely', post)
        go w (err e) w' (kept, rely, mid) = (kept, rely, tt)
