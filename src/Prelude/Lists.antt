-- ===== src/Prelude/Lists.antt =====
-- Lists measured by native numbers, and Boolean quantifiers over them.
use Prim.Native.Nat.{ℕ, suc, ◌+◌}
use mathlib.Core.Path.{◌≡◌, refl, sym, ◌∙◌}
use mathlib.Core.Logic.{◌↔◌, ◌⊎◌, inl, inr}
use mathlib.Core.Bool.{Bool, true, false, ◌&&◌, ◌||◌}
use mathlib.Core.List.{List, [], ◌∷◌, ◌++◌}
use mathlib.Core.Option.{Option, none, some}
use native.Mathlib.Omega.{arith}
use better_auth_rs.Prelude.Tests.{
  if◌then◌else◌, true_ne_false, Bool-cases, and_left, and_right, and_intro,
}

module _ {ℓ} {A : Type ℓ} where
  abbrev pub length : List A → ℕ
  length [] = 0
  length (x ∷ xs) = suc (length xs)

  abbrev pub any : (A → Bool) → List A → Bool
  any p [] = false
  any p (x ∷ xs) = p x || any p xs

  abbrev pub all : (A → Bool) → List A → Bool
  all p [] = true
  all p (x ∷ xs) = p x && all p xs

  -- `retain` and `filter` with a Boolean closure
  abbrev pub keep : (A → Bool) → List A → List A
  keep p [] = []
  keep p (x ∷ xs) = let rest = keep p xs in if p x then x ∷ rest else rest

  abbrev pub first : List A → Option A
  first [] = none
  first (x ∷ xs) = some x

  -- What holds of every item.
  abbrev pub All {κ} : (A → Type κ) → List A → Type κ
  All P [] = Unit
  All P (x ∷ xs) = P x × All P xs

  pub length-append : (xs ys : List A) → length (xs ++ ys) ≡ length xs + length ys
  length-append [] ys = omega arith
  length-append (x ∷ xs) ys = omega (arith, length-append xs ys)

  pub keep-append : (p : A → Bool) (xs ys : List A) → keep p (xs ++ ys) ≡ keep p xs ++ keep p ys
  keep-append p [] ys = refl
  keep-append p (x ∷ xs) ys = ground (arith, keep-append p xs ys)

module _ {ℓ} {A : Type ℓ} where
  pub All-of {κ} : {P : A → Type κ} → ((a : A) → P a) → (xs : List A) → All P xs
  All-of h [] = tt
  All-of h (x ∷ xs) = (h x, All-of h xs)

  pub All-map {κ μ} :
      {P : A → Type κ} {Q : A → Type μ}
      → ((a : A) → P a → Q a)
      → (xs : List A) → All P xs
      → All Q xs
  All-map f [] h = tt
  All-map f (x ∷ xs) (h, hs) = (f x h, All-map f xs hs)

  pub All-map₂ {κ μ ν} :
      {P : A → Type κ} {Q : A → Type μ} {R : A → Type ν}
      → ((a : A) → P a → Q a → R a)
      → (xs : List A) → All P xs
      → All Q xs
      → All R xs
  All-map₂ f [] h k = tt
  All-map₂ f (x ∷ xs) (h, hs) (k, ks) = (f x h k, All-map₂ f xs hs ks)

  -- An item that stands in a relation to itself is found by it.
  pub any_self :
      (r : A → A → Bool) (xs : List A) → All (λ t. r t t ≡ true → any (λ x. r x t) xs ≡ true) xs
  any_self r [] = tt
  any_self r (x ∷ xs) = (
    λ h. ground arith,
    All-map {P = λ t. r t t ≡ true → any (λ y. r y t) xs ≡ true} (λ t f h. ground (arith, f h)) xs
        (any_self r xs),
  )

  pub any-keep : (p q : A → Bool) (xs : List A) → any q (keep p xs) ≡ any (λ x. p x && q x) xs
  any-keep p q [] = refl
  any-keep p q (x ∷ xs) = ground (arith, any-keep p q xs)

module _ {ℓ} {A : Type ℓ} where
  -- What holds of some item.
  abbrev pub Any : (A → Type 0) → List A → Type 0
  Any P [] = ⊥
  Any P (x ∷ xs) = P x ⊎ Any P xs

  -- The Boolean quantifiers are quantifiers, where the test decides the predicate.
  pub any_iff :
      (p : A → Bool) (P : A → Type 0)
      → ((a : A) → (p a ≡ true) ↔ P a)
      → (xs : List A) → (any p xs ≡ true) ↔ Any P xs
  any_iff p P h [] = ((λ e. absurd (true_ne_false (sym e))), λ e. absurd e)
  any_iff p P h (x ∷ xs) = elim (Bool-cases (p x)) [
    | inl e ↦ rw e ((λ _. inl ((h x).0 e)), λ _. refl)
    | inr e ↦ rw e (
      (λ k. inr ((any_iff p P h xs).0 k)),
      λ k. elim k [
        | inl here ↦ absurd (true_ne_false (sym ((h x).1 here) ∙ e))
        | inr later ↦ (any_iff p P h xs).1 later
      ],
    )
  ]

  pub all_iff :
      (p : A → Bool) (P : A → Type 0)
      → ((a : A) → (p a ≡ true) ↔ P a)
      → (xs : List A) → (all p xs ≡ true) ↔ All P xs
  all_iff p P h [] = ((λ _. tt), λ _. refl)
  all_iff p P h (x ∷ xs) = (
    (λ k. (
      (h x).0 (and_left (p x) (all p xs) k),
      (all_iff p P h xs).0 (and_right (p x) (all p xs) k),
    )),
    λ (here, later). and_intro ((h x).1 here) ((all_iff p P h xs).1 later),
  )
