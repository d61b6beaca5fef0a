-- ===== src/Headers/Insertion.antt =====
-- What is read after a header was inserted.
use mathlib.Core.List.{append-nil}
use better_auth_rs.Prelude.{
  String, true, not, Option, none, some, List, [], ◌∷◌, ◌++◌, ◌≡◌, refl, sym, ◌∙◌, arith,
  eq_ignore_ascii_case, or_else, keep, if◌then◌else◌, Bool-cases, inl, inr, true_ne_false,
}
use better_auth_rs.Headers.{is_named, insert, get, get_all}

ignore_refl : (s : String) → eq_ignore_ascii_case s s ≡ true
ignore_refl String.[] = refl
ignore_refl (String.◌∷◌ c s) = ground (arith, ignore_refl s)

ignore_sym : (s t : String) → eq_ignore_ascii_case s t ≡ eq_ignore_ascii_case t s
ignore_sym String.[] String.[] = refl
ignore_sym String.[] (String.◌∷◌ d t) = refl
ignore_sym (String.◌∷◌ c s) String.[] = refl
ignore_sym (String.◌∷◌ c s) (String.◌∷◌ d t) = ground (arith, ignore_sym s t)

-- Names that are the same without case are the same as the same names.
ignore_trans :
    (s t u : String)
    → eq_ignore_ascii_case s t ≡ true
    → eq_ignore_ascii_case s u ≡ eq_ignore_ascii_case t u
ignore_trans String.[] String.[] u h = refl
ignore_trans String.[] (String.◌∷◌ d t) u h = absurd (true_ne_false (sym h))
ignore_trans (String.◌∷◌ c s) String.[] u h = absurd (true_ne_false (sym h))
ignore_trans (String.◌∷◌ c s) (String.◌∷◌ d t) String.[] h = refl
ignore_trans (String.◌∷◌ c s) (String.◌∷◌ d t) (String.◌∷◌ e u) h =
    ground (arith, ignore_trans s t u)

get-append :
    (q n v : String) (l : List (String × String))
    → get q (l ++ ((n, v) ∷ [])) ≡ (if eq_ignore_ascii_case n q then some v else get q l)
unfolding get
get-append q n v [] = refl
get-append q n v (h ∷ l) = elim (Bool-cases (eq_ignore_ascii_case n q)) [
  | inl e ↦ rw (get-append q n v l, e) refl
  | inr e ↦ rw (get-append q n v l, e) refl
]

get_all-append :
    (q n v : String) (l : List (String × String))
    → get_all q (l ++ ((n, v) ∷ []))
      ≡ get_all q l ++ (if eq_ignore_ascii_case n q then v ∷ [] else [])
unfolding get_all
get_all-append q n v [] = ground arith
get_all-append q n v (h ∷ l) = ground (arith, get_all-append q n v l)

or_else-none : (o : Option String) → or_else o none ≡ o
or_else-none none = refl
or_else-none (some a) = refl

get-keep :
    (q n : String) (l : List (String × String))
    → get q (keep (λ h. not (is_named n h)) l)
      ≡ (if eq_ignore_ascii_case n q then none else get q l)
unfolding get
get-keep q n [] = ground arith
get-keep q n (h ∷ l) = elim (Bool-cases (eq_ignore_ascii_case h.0 n)) [
  | inl e ↦
      let same = ignore_trans h.0 n q e in
      rw (e, get-keep q n l, same)
        (elim (Bool-cases (eq_ignore_ascii_case n q)) [
          | inl k ↦ rw k refl
          | inr k ↦ rw k (sym (or_else-none (get q l)))
        ])
  | inr e ↦ elim (Bool-cases (eq_ignore_ascii_case n q)) [
    | inl k ↦
        let other = ignore_sym h.0 q ∙ sym (ignore_trans n q h.0 k) ∙ ignore_sym n h.0 ∙ e in
        rw (e, get-keep q n l, k, other) refl
    | inr k ↦ rw (e, get-keep q n l, k) refl
  ]
]

get_all-keep :
    (q n : String) (l : List (String × String))
    → get_all q (keep (λ h. not (is_named n h)) l)
      ≡ (if eq_ignore_ascii_case n q then [] else get_all q l)
unfolding get_all
get_all-keep q n [] = ground arith
get_all-keep q n (h ∷ l) = elim (Bool-cases (eq_ignore_ascii_case h.0 n)) [
  | inl e ↦ let same = ignore_trans h.0 n q e in rw (e, get_all-keep q n l, same) (ground arith)
  | inr e ↦ elim (Bool-cases (eq_ignore_ascii_case n q)) [
    | inl k ↦
        let other = ignore_sym h.0 q ∙ sym (ignore_trans n q h.0 k) ∙ ignore_sym n h.0 ∙ e in
        rw (e, get_all-keep q n l, k, other) refl
    | inr k ↦ rw (e, get_all-keep q n l, k) refl
  ]
]

-- After a header was inserted, its name, in whatever ASCII case, has its value and no other, and every
-- other name reads as before.
pub get-insert :
    (q name value : String) (headers : List (String × String))
    → (get q (insert name value headers)
        ≡ (if eq_ignore_ascii_case name q then some value else get q headers))
      × (get_all q (insert name value headers)
          ≡ (if eq_ignore_ascii_case name q then value ∷ [] else get_all q headers))
unfolding insert
get-insert q name value headers =
    let one = get-append q name value (keep (λ h. not (is_named name h)) headers) in
    let all = get_all-append q name value (keep (λ h. not (is_named name h)) headers) in
    elim (Bool-cases (eq_ignore_ascii_case name q)) [
      | inl e ↦ rw (one, all, get_all-keep q name headers, e) (refl, refl)
      | inr e ↦
          rw (one, all, get-keep q name headers, get_all-keep q name headers, e)
            (refl, append-nil (get_all q headers))
    ]
