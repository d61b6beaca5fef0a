-- ===== src/RateLimit/Window.antt =====
-- The sliding window of one bucket.
use better_auth_rs.Prelude.{
  ℕ, ◌≤◌, ◌<◌, ◌%◌, ◌^◌, Bool, false, Option, none, some, List, [], ◌∷◌, ◌++◌, ◌≡◌, refl, sym, ap,
  ◌∙◌, arith, length, keep, leb, Bool-cases, inl, inr, All, length-append, keep-append,
}
use better_auth_rs.RateLimit.{EndpointRateLimit, is_recent, admit}

-- The instants of the requests that pass, of requests at the given instants.
abbrev pub passed_one : ℕ → Option ℕ → List ℕ
passed_one now none = now ∷ []
passed_one now (some wait) = []

unfoldable pub passed : EndpointRateLimit → List ℕ → List ℕ → List ℕ
passed limit bucket [] = []
passed limit bucket (now ∷ times) =
    let (answer, bucket') = admit limit now bucket in
    passed_one now answer ++ passed limit bucket' times

-- A list of instants in order, all at least as late as one.
abbrev pub IsAscendingFrom : ℕ → List ℕ → Type 0
IsAscendingFrom from [] = Unit
IsAscendingFrom from (t ∷ ts) = (from ≤ t) × IsAscendingFrom t ts

later_gone :
    (window early late t : ℕ)
    → early ≤ late
    → is_recent window early t ≡ false
    → is_recent window late t ≡ false
later_gone window early late t h e = ground arith

-- What is recent at an instant was recent before.
keep-keep_recent :
    (window early late : ℕ) (l : List ℕ)
    → early ≤ late
    → keep (is_recent window late) (keep (is_recent window early) l)
      ≡ keep (is_recent window late) l
keep-keep_recent window early late [] h = refl
keep-keep_recent window early late (t ∷ l) h = elim (Bool-cases (is_recent window early t)) [
  | inl e ↦ rw (e, keep-keep_recent window early late l h) refl
  | inr e ↦
      let gone = later_gone window early late t h e in
      rw (e, gone) (keep-keep_recent window early late l h)
]

length-keep_le : (p : ℕ → Bool) (l : List ℕ) → length (keep p l) ≤ length l
length-keep_le p [] = omega arith
length-keep_le p (t ∷ l) = ground (arith, length-keep_le p l)

append_one : (h l : List ℕ) (t : ℕ) → h ++ (t ∷ l) ≡ (h ++ (t ∷ [])) ++ l
append_one [] l t = refl
append_one (x ∷ h) l t = ap (λ k. x ∷ k) (append_one h l t)

-- The bucket holds all passed requests that can still be recent, and not more than are allowed.
record Tracks (limit : EndpointRateLimit) (from : ℕ) (history bucket : List ℕ) : Type 0 where
  same :
      (now : ℕ)
      → from ≤ now
      → keep (is_recent limit.window now) history ≡ keep (is_recent limit.window now) bucket
  room : length bucket ≤ limit.max_requests

module _ (limit : EndpointRateLimit) (small : limit.max_requests < 2 ^ 32) where
  refused-Tracks :
      (from now : ℕ) (history bucket : List ℕ)
      → from ≤ now
      → Tracks limit from history bucket
      → Tracks limit now history (keep (is_recent limit.window now) bucket)
  refused-Tracks from now history bucket h tracks = record {
    same = λ late k.
        tracks.same late (omega arith) ∙ sym (keep-keep_recent limit.window now late bucket k);
    room = omega (arith, tracks.room, length-keep_le (is_recent limit.window now) bucket);
  }

  passed-Tracks :
      (now : ℕ) (history bucket : List ℕ)
      → Tracks limit now history bucket
      → leb limit.max_requests (length bucket % 2 ^ 32) ≡ false
      → Tracks limit now (history ++ (now ∷ [])) (bucket ++ (now ∷ []))
  passed-Tracks now history bucket tracks few = record {
    same = λ late k.
        keep-append (is_recent limit.window late) history (now ∷ [])
        ∙ ap (λ l. l ++ keep (is_recent limit.window late) (now ∷ [])) (tracks.same late k)
        ∙ sym (keep-append (is_recent limit.window late) bucket (now ∷ []));
    room = ground (arith, length-append bucket (now ∷ []), tracks.room, small, few);
  }

  window_bound :
      (from now : ℕ) (times history bucket : List ℕ)
      → Tracks limit from history bucket
      → IsAscendingFrom from times
      → All (λ t. t ≤ now) times
      → from ≤ now
      → length (keep (is_recent limit.window now) (history ++ passed limit bucket times))
        ≤ limit.max_requests
  unfolding passed
  window_bound from now [] history bucket tracks asc before h = omega (
    arith,
    ap length (keep-append (is_recent limit.window now) history []),
    length-append (keep (is_recent limit.window now) history) [],
    ap length (tracks.same now h),
    length-keep_le (is_recent limit.window now) bucket,
    tracks.room,
  )
  window_bound from now (t ∷ times) history bucket tracks (later, asc) (before, rest) h =
      let recent = keep (is_recent limit.window t) bucket in
      let refused = refused-Tracks from t history bucket later tracks in
      elim (Bool-cases (leb limit.max_requests (length recent % 2 ^ 32))) [
        | inl full ↦ rw full (window_bound t now times history recent refused asc rest before)
        | inr few ↦
            rw (few, append_one history (passed limit (recent ++ (t ∷ [])) times) t)
              (window_bound t now times (history ++ (t ∷ [])) (recent ++ (t ∷ []))
                (passed-Tracks t history recent refused few) asc rest before)
      ]

  -- A bucket that starts empty, at any instant not before its requests: of the requests that passed,
  -- those within one window before the instant are at most as many as the limit allows, if the
  -- requests come in the order of the clock.
  pub passed_within_window :
      (now : ℕ) (times : List ℕ)
      → IsAscendingFrom 0 times
      → All (λ t. t ≤ now) times
      → length (keep (is_recent limit.window now) (passed limit [] times)) ≤ limit.max_requests
  passed_within_window now times asc before =
      window_bound 0 now times [] [] (record { same = λ late k. refl; room = omega arith }) asc
        before (omega arith)
