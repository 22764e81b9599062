-- ===== src/Table/Once.antt =====
-- A slot that is found by a test, where all that pass the test have one key.
use enml.Base.{Bool, ℕ, true, false, none, some, List, [], ◌∷◌, ◌≡◌, refl, arith}
use enml.Table.Laws.{first-first_where}
use enml.Table.{Keyed, first, modify, first_where, modify_where, IsKeyed}

module _ {ℓ} {A : Type ℓ} ⦃s : Keyed A⦄ (p : A → Bool) (k : ℕ)
    (keyed : (a : A) → p a ≡ true → s.key a ≡ k) where
  first_where_absent : (xs : List A) → first k xs ≡ none → first_where p xs ≡ none
  unfolding first first_where
  first_where_absent [] e = refl
  first_where_absent (x ∷ xs) e = ground (arith, keyed x, first_where_absent xs)

  -- Once it is freed, the test finds nothing.
  pub first_where-modify_where :
      (z : A) (xs : List A)
      → s.live z ≡ false
      → IsKeyed xs
      → first_where p (modify_where p (λ _. z) xs) ≡ none
  unfolding first_where modify_where
  first_where-modify_where z [] d u = refl
  first_where-modify_where z (x ∷ xs) d u =
      ground (arith, keyed x, u.0, first_where_absent xs, first_where-modify_where z xs d u.1)

module _ {ℓ} {A : Type ℓ} ⦃s : Keyed A⦄ (p : A → Bool) (f : A → A) where
  -- The slot that a test finds is written as the slot with its key would be.
  pub modify_where-eq-modify :
      (xs : List A) (a : A)
      → IsKeyed xs
      → first_where p xs ≡ some a
      → modify_where p f xs ≡ modify (s.key a) f xs
  unfolding first_where modify_where modify
  modify_where-eq-modify [] a u e = refl
  modify_where-eq-modify (x ∷ xs) a u e =
      ground (arith, u.0, first-first_where p xs a u.1, modify_where-eq-modify xs a u.1)

module _ {ℓ} {A : Type ℓ} ⦃s : Keyed A⦄ (p : A → Bool) (z : A) (dead : s.live z ≡ false) where
  -- Freeing the slot that a search by a test found.
  pub first-freed :
      (k : ℕ) (xs : List A) → first k xs ≡ none → first k (modify_where p (λ _. z) xs) ≡ none
  unfolding first modify_where
  first-freed k [] e = refl
  first-freed k (x ∷ xs) e = ground (arith, dead, first-freed k xs)

  pub IsKeyed-freed : (xs : List A) → IsKeyed xs → IsKeyed (modify_where p (λ _. z) xs)
  unfolding modify_where
  IsKeyed-freed [] u = u
  IsKeyed-freed (x ∷ xs) u =
      ground (arith, dead, u.0, u.1, IsKeyed-freed xs u.1, first-freed (s.key x) xs)
