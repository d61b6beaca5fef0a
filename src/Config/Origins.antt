-- ===== src/Config/Origins.antt =====
-- The origin of an address.
use Prim.Native.Char.{Char, code}
use Prim.Native.String.{[], ◌∷◌, ◌++◌}
use text.Mathlib.TextEquality.{Char-path}
use text.Mathlib.TextLemmas.{nil-append, cons-append, append_assoc}
use better_auth_rs.Prelude.{
  some_of, none_ne_some, subst, String, Bool, true, false, none, some, ◌≡◌, refl, sym, ap, ◌∙◌,
  arith, inl, inr, contains_char, split_once, take_until, strip_prefix, eqb, Bool-cases,
  Option-cases,
}
use better_auth_rs.Config.{ends_host, extract_origin}

-- No character of a text stops it.
abbrev pub Free : (Char → Bool) → String → Type 0
Free stops [] = Unit
Free stops (c ∷ s) = (stops c ≡ false) × Free stops s

-- Nothing, or a text that a stop begins.
abbrev pub StartsBy : (Char → Bool) → String → Type 0
StartsBy stops [] = Unit
StartsBy stops (c ∷ s) = stops c ≡ true

module _ (stops : Char → Bool) where
  take_until-append :
      (s t : String) → Free stops s → StartsBy stops t → take_until stops (s ++ t) ≡ s
  take_until-append [] [] h k = rw (nil-append []) refl
  take_until-append [] (c ∷ t) h k = rw (nil-append (c ∷ t), k) refl
  take_until-append (c ∷ s) t (h, hs) k =
      rw (cons-append c s t, h) (ap (λ r. c ∷ r) (take_until-append s t hs k))

  -- What is left out is a tail that a stop begins.
  take_until-tail : (s : String) → (t : String) × (s ≡ take_until stops s ++ t) × StartsBy stops t
  take_until-tail [] = ([], sym (nil-append []), tt)
  take_until-tail (c ∷ s) = elim (Bool-cases (stops c)) [
    | inl e ↦ (c ∷ s, rw (e, nil-append (c ∷ s)) refl, e)
    | inr e ↦
        let (t, whole, starts) = take_until-tail s in
        (t, rw (e, cons-append c (take_until stops s) t) (ap (λ r. c ∷ r) whole), starts)
  ]

  take_until_idem : (s : String) → take_until stops (take_until stops s) ≡ take_until stops s
  take_until_idem [] = refl
  take_until_idem (c ∷ s) = elim (Bool-cases (stops c)) [
    | inl e ↦ rw e refl
    | inr e ↦ rw (e, e) (ap (λ r. c ∷ r) (take_until_idem s))
  ]

mark : (rest : String) → "://" ++ rest ≡ ":" ∷ "/" ∷ "/" ∷ rest
mark rest =
    rw
      (
        cons-append ":" "//" rest,
        cons-append "/" "/" rest,
        cons-append "/" [] rest,
        nil-append rest,
      )
      refl

split_once_scheme :
    (scheme rest : String)
    → contains_char 58 scheme ≡ false
    → split_once "://" (scheme ++ ("://" ++ rest)) ≡ some (scheme, rest)
split_once_scheme [] rest h = rw (nil-append ("://" ++ rest), mark rest) refl
split_once_scheme (c ∷ s) rest h =
    rw (cons-append c s ("://" ++ rest)) elim (Bool-cases (eqb (code c) 58)) [
      | inl e ↦ ground arith
      | inr e ↦ ground (arith, split_once_scheme s rest (ground arith))
    ]

-- The address made of a scheme without a colon, a host without `/`, `?` or `#`, and a tail that is
-- empty or begins by one of these, has the scheme and the host as its origin.
pub extract_origin-origin_of :
    (scheme host tail : String)
    → contains_char 58 scheme ≡ false
    → Free ends_host host
    → StartsBy ends_host tail
    → extract_origin (scheme ++ ("://" ++ (host ++ tail))) ≡ some (scheme ++ ("://" ++ host))
unfolding extract_origin
extract_origin-origin_of scheme host tail colon h k =
    rw (split_once_scheme scheme (host ++ tail) colon, take_until-append ends_host host tail h k)
      refl

-- A text that is cut at the first mark is cut there whatever follows the mark.
strip_mark :
    (c : Char) (a b r : String)
    → strip_prefix "://" (c ∷ (a ++ ("://" ++ b))) ≡ none
    → strip_prefix "://" (c ∷ (a ++ ("://" ++ r))) ≡ none
strip_mark c [] b r h = rw (nil-append ("://" ++ r), mark r) (ground arith)
strip_mark c (x ∷ []) b r h =
    rw (cons-append x [] ("://" ++ r), nil-append ("://" ++ r), mark r) (ground arith)
strip_mark c (x ∷ y ∷ a) b r h =
    rw (cons-append x (y ∷ a) ("://" ++ r), cons-append y a ("://" ++ r))
      (ground (arith, rw (cons-append x (y ∷ a) ("://" ++ b), cons-append y a ("://" ++ b)) at h))

strip_prefix-append : (p s r : String) → strip_prefix p s ≡ some r → s ≡ p ++ r
strip_prefix-append [] s r h = rw (nil-append r) (some_of h)
strip_prefix-append (c ∷ p) [] r h = absurd (ground arith)
strip_prefix-append (c ∷ p) (d ∷ s) r h = elim (Bool-cases (eqb (code c) (code d))) [
  | inl e ↦
      rw (cons-append c p r)
        (λ i. Char-path d c (ground arith) i ∷ strip_prefix-append p s r (rw e at h) i)
  | inr e ↦ absurd (ground arith)
]

-- What a cut finds stands around the mark, and the text is cut there whatever follows the mark.
abbrev CutsAt : String → String × String → Type 0
CutsAt s (a, b) =
    (s ≡ a ++ ("://" ++ b)) × ((r : String) → split_once "://" (a ++ ("://" ++ r)) ≡ some (a, r))

CutsAt-cons :
    (c : Char) (s : String) (cut : String × String)
    → strip_prefix "://" (c ∷ s) ≡ none
    → CutsAt s cut
    → CutsAt (c ∷ s) (c ∷ cut.0, cut.1)
CutsAt-cons c s (a, b) none_here (whole, cuts) = (
  rw (cons-append c a ("://" ++ b)) (ap (λ t. c ∷ t) whole),
  λ r.
      rw
        (
          cons-append c a ("://" ++ r),
          strip_mark c a b r (subst (λ t. strip_prefix "://" (c ∷ t) ≡ none) whole none_here),
          cuts r,
        )
        refl,
)

split_once-CutsAt :
    (s : String) (cut : String × String) → split_once "://" s ≡ some cut → CutsAt s cut
split_once-CutsAt [] cut h = absurd (ground arith)
split_once-CutsAt (c ∷ s) cut h = elim (Option-cases (strip_prefix "://" (c ∷ s))) [
  | inl none_here ↦ elim (Option-cases (split_once "://" s)) [
    | inl e ↦ absurd (none_ne_some (rw (none_here, e) at h))
    | inr (later, e) ↦
        subst (CutsAt (c ∷ s)) (some_of (rw (none_here, e) at h))
          (CutsAt-cons c s later none_here (split_once-CutsAt s later e))
  ]
  | inr (after, e) ↦ subst (CutsAt (c ∷ s)) (some_of (rw e at h)) (
    strip_prefix-append "://" (c ∷ s) after e ∙ sym (nil-append ("://" ++ after)),
    λ r. rw (nil-append ("://" ++ r), mark r) refl,
  )
]

around :
    (scheme host tail : String)
    → scheme ++ ("://" ++ (host ++ tail)) ≡ (scheme ++ ("://" ++ host)) ++ tail
around scheme host tail =
    rw (append_assoc scheme ("://" ++ host) tail, append_assoc "://" host tail) refl

-- An address that has an origin is that origin and a tail, which is empty or begins by `/`, `?` or `#`;
-- and an origin is its own origin.
pub extract_origin_prefix :
    (url origin : String)
    → extract_origin url ≡ some origin
    → ((tail : String) × (url ≡ origin ++ tail) × StartsBy ends_host tail)
      × (extract_origin origin ≡ some origin)
unfolding extract_origin
extract_origin_prefix url origin h = elim (Option-cases (split_once "://" url)) [
  | inl e ↦ absurd (none_ne_some (rw e at h))
  | inr ((scheme, rest), e) ↦
      let (whole, cuts) = split_once-CutsAt url (scheme, rest) e in
      let is_origin = some_of (rw e at h) in
      let (tail, split, starts) = take_until-tail ends_host rest in
      (
        (
          tail,
          subst (λ o. url ≡ o ++ tail) is_origin
              (whole
                ∙ ap (λ r. scheme ++ ("://" ++ r)) split
                ∙ around scheme (take_until ends_host rest) tail),
          starts,
        ),
        subst (λ o. extract_origin o ≡ some o) is_origin
            (rw (cuts (take_until ends_host rest), take_until_idem ends_host rest) refl),
      )
]
