-- ===== src/Store/Table.antt =====
-- Tables as lists of rows, and the statements that the store's queries issue on them. A row that
-- matches first in the list stands for the one that the database returns.
pub mod Counting
use Prim.Native.Nat.{ℕ, ◌+◌}
use mathlib.Core.Option
use better_auth_rs.Prelude.{
  ◌≡◌, refl, Bool, true, Option, none, some, List, [], ◌∷◌, arith, if◌then◌else◌, Bool-cases, inl,
  inr, false, eqb, ap, subst, some_of, none_ne_some, All, ◌≤◌, length,
}

module _ {A : Type 0} where
  -- SELECT … WHERE p, `.one()`
  unfoldable pub find : (A → Bool) → List A → Option A
  find p [] = none
  find p (x ∷ xs) = if p x then some x else find p xs

  -- UPDATE … WHERE p
  unfoldable pub update_where : (A → Bool) → (A → A) → List A → List A
  update_where p f [] = []
  update_where p f (x ∷ xs) = (if p x then f x else x) ∷ update_where p f xs

  -- DELETE … WHERE p
  unfoldable pub delete_where : (A → Bool) → List A → List A
  delete_where p [] = []
  delete_where p (x ∷ xs) = let rest = delete_where p xs in if p x then rest else x ∷ rest

  -- The rows affected by a statement WHERE p.
  unfoldable pub count : (A → Bool) → List A → ℕ
  count p [] = 0
  count p (x ∷ xs) = (if p x then 1 else 0) + count p xs

  pub find_holds : (p : A → Bool) (xs : List A) (a : A) → find p xs ≡ some a → p a ≡ true
  unfolding find
  find_holds p [] a h = ground arith
  find_holds p (x ∷ xs) a h = ground (arith, find_holds p xs a)

  pub find-delete_where :
      (p q : A → Bool) (xs : List A)
      → ((a : A) → q a ≡ true → p a ≡ true)
      → find q (delete_where p xs) ≡ none
  unfolding find delete_where
  find-delete_where p q [] h = refl
  find-delete_where p q (x ∷ xs) h = ground (arith, h x, find-delete_where p q xs h)

  -- The first row that matches, after an update that does not change which rows match.
  pub find-update_where :
      (p q : A → Bool) (f : A → A) (xs : List A)
      → ((a : A) → p (f a) ≡ p a)
      → find p (update_where q f xs) ≡ Option.map (λ a. if q a then f a else a) (find p xs)
  unfolding find update_where
  find-update_where p q f [] h = refl
  find-update_where p q f (x ∷ xs) h = elim (Bool-cases (q x)) [
    | inl e ↦
        rw (e, h x)
          (elim (Bool-cases (p x)) [
            | inl k ↦ rw (k, e)
            | inr k ↦ rw k (find-update_where p q f xs h)
          ])
    | inr e ↦ rw e (elim (Bool-cases (p x)) [
      | inl k ↦ rw (k, e)
      | inr k ↦ rw k (find-update_where p q f xs h)
    ])
  ]

  -- A row that was found is counted.
  pub count_found :
      (p q : A → Bool) (xs : List A) (a : A)
      → find p xs ≡ some a
      → q a ≡ true
      → eqb (count q xs) 0 ≡ false
  unfolding find count
  count_found p q [] a h k = cc
  count_found p q (x ∷ xs) a h k = ground (arith, count_found p q xs a, ap q)

  -- No row that a deletion names is left.
  pub All-delete_where : (p : A → Bool) (xs : List A) → All (λ a. p a ≡ false) (delete_where p xs)
  unfolding delete_where
  All-delete_where p [] = tt
  All-delete_where p (x ∷ xs) = elim (Bool-cases (p x)) [
    | inl e ↦ rw e (All-delete_where p xs)
    | inr e ↦ rw e (e, All-delete_where p xs)
  ]

  -- What holds of all rows holds of all that are left.
  pub delete_where-All :
      (P : A → Type 0) (p : A → Bool) (xs : List A) → All P xs → All P (delete_where p xs)
  unfolding delete_where
  delete_where-All P p [] h = tt
  delete_where-All P p (x ∷ xs) (h, hs) = elim (Bool-cases (p x)) [
    | inl e ↦ rw e (delete_where-All P p xs hs)
    | inr e ↦ rw e (h, delete_where-All P p xs hs)
  ]

  pub find-delete_where_disjoint :
      (p q : A → Bool) (xs : List A)
      → ((a : A) → q a ≡ true → p a ≡ false)
      → find q (delete_where p xs) ≡ find q xs
  unfolding find delete_where
  find-delete_where_disjoint p q [] h = refl
  find-delete_where_disjoint p q (x ∷ xs) h =
      ground (arith, h x, find-delete_where_disjoint p q xs h)

  -- The rows affected and the rows left make up the table.
  pub count-add-delete_where :
      (p : A → Bool) (xs : List A) → count p xs + length (delete_where p xs) ≡ length xs
  unfolding count delete_where
  count-add-delete_where p [] = refl
  count-add-delete_where p (x ∷ xs) = ground (arith, count-add-delete_where p xs)

  pub count-update_where :
      (p q : A → Bool) (f : A → A) (xs : List A)
      → ((a : A) → p (f a) ≡ p a)
      → count p (update_where q f xs) ≡ count p xs
  unfolding count update_where
  count-update_where p q f [] h = refl
  count-update_where p q f (x ∷ xs) h = ground (arith, h x, count-update_where p q f xs h)

  pub count-delete_where : (p q : A → Bool) (xs : List A) → count q (delete_where p xs) ≤ count q xs
  unfolding count delete_where
  count-delete_where p q [] = omega arith
  count-delete_where p q (x ∷ xs) = ground (arith, count-delete_where p q xs)

  -- No row matches where none is counted.
  pub find_of_count : (p : A → Bool) (xs : List A) → count p xs ≡ 0 → find p xs ≡ none
  unfolding count find
  find_of_count p [] h = refl
  find_of_count p (x ∷ xs) h = ground (arith, find_of_count p xs)

  -- A row that a deletion leaves was there, if at most one row matches.
  pub find_before_delete :
      (p q : A → Bool) (xs : List A) (a : A)
      → count q xs ≤ 1
      → find q (delete_where p xs) ≡ some a
      → find q xs ≡ some a
  unfolding count find delete_where
  find_before_delete p q [] a u h = h
  find_before_delete p q (x ∷ xs) a u h = ground (
    arith,
    find_before_delete p q xs a,
    count-delete_where p q xs,
    find_of_count q (delete_where p xs),
  )

  -- The row of a key is the one that was found, if the key is unique.
  pub find_key :
      (p q : A → Bool) (xs : List A) (a : A)
      → count q xs ≤ 1
      → find p xs ≡ some a
      → q a ≡ true
      → find q xs ≡ some a
  unfolding count find
  find_key p q [] a u h k = cc
  find_key p q (x ∷ xs) a u h k = ground (arith, find_key p q xs a, count_found p q xs a, ap q)

  pub count-le :
      (p q : A → Bool) (xs : List A) → ((a : A) → p a ≡ true → q a ≡ true) → count p xs ≤ count q xs
  unfolding count
  count-le p q [] h = omega arith
  count-le p q (x ∷ xs) h = ground (arith, h x, count-le p q xs h)

  -- Deleting the only row of a key leaves none.
  pub find_after_delete :
      (p q : A → Bool) (xs : List A)
      → ((a : A) → p a ≡ true → q a ≡ true)
      → eqb (count p xs) 1 ≡ true
      → count q xs ≤ 1
      → find q (delete_where p xs) ≡ none
  unfolding count find delete_where
  find_after_delete p q [] h e u = refl
  find_after_delete p q (x ∷ xs) h e u = ground (
    arith,
    h x,
    find_after_delete p q xs h,
    count-le p q xs h,
    count-delete_where p q xs,
    find_of_count q (delete_where p xs),
  )

  -- No row of a narrower kind is counted where none of the wider kind is found.
  pub count_of_absent :
      (p q : A → Bool) (xs : List A)
      → ((a : A) → p a ≡ true → q a ≡ true)
      → find q xs ≡ none
      → count p xs ≡ 0
  unfolding count find
  count_of_absent p q [] h e = refl
  count_of_absent p q (x ∷ xs) h e = ground (arith, h x, count_of_absent p q xs h)

  -- The first row that matches, replaced by one that matches too.
  pub find_replaced :
      (p : A → Bool) (a b : A) (xs : List A)
      → find p xs ≡ some a
      → p b ≡ true
      → find p (update_where p (λ _. b) xs) ≡ some b
  unfolding find update_where
  find_replaced p a b [] h hb = ground arith
  find_replaced p a b (x ∷ xs) h hb = elim (Bool-cases (p x)) [
    | inl e ↦ rw (e, hb) refl
    | inr e ↦ let h' = rw e at h in rw (e, e) (find_replaced p a b xs h' hb)
  ]

  -- What holds of all rows holds of the one that is found.
  pub find-All :
      (P : A → Type 0) (p : A → Bool) (xs : List A) (a : A) → All P xs → find p xs ≡ some a → P a
  unfolding find
  find-All P p [] a all h = absurd (none_ne_some h)
  find-All P p (x ∷ xs) a (here, later) h = elim (Bool-cases (p x)) [
    | inl e ↦ subst P (some_of (rw e at h)) here
    | inr e ↦ find-All P p xs a later (rw e at h)
  ]
