-- ===== src/Table/Every.antt =====
-- Properties of every slot of a table: read off by a search, and kept by the writes.
use enml.Base.{
  ℕ, zero, suc, some, List, [], ◌∷◌, map, ◌≡◌, arith, subst, inl, inr, Option-cases, replicate, All,
  Bool-cases,
}
use enml.Table.{Keyed, hits, first, find, modify, place}

module _ {ℓ κ} {A : Type ℓ} ⦃s : Keyed A⦄ (P : A → Type κ) where
  pub first-All : (k : ℕ) (xs : List A) (a : A) → first k xs ≡ some a → All P xs → P a
  unfolding first
  first-All k [] a e h = ground arith
  first-All k (x ∷ xs) a e h = elim (Bool-cases (hits k x)) [
    | inl t ↦ subst P (ground arith) h.0
    | inr f ↦ first-All k xs a (ground arith) h.1
  ]

  pub find-All : (k : ℕ) (xs : List A) (a : A) → find k xs ≡ some a → All P xs → P a
  unfolding find
  find-All k xs a e h = first-All k xs a (ground arith) h

  -- Only the slot that the search finds has to keep the property.
  pub All-modify-first :
      (k : ℕ) (f : A → A) (xs : List A) (a : A)
      → first k xs ≡ some a
      → P (f a)
      → All P xs
      → All P (modify k f xs)
  unfolding first modify
  All-modify-first k f [] a e p h = h
  All-modify-first k f (x ∷ xs) a e p h = elim (Bool-cases (hits k x)) [
    | inl t ↦ rw t (subst (λ b. P (f b)) (ground arith) p, h.1)
    | inr n ↦ rw n (h.0, All-modify-first k f xs a (ground arith) p h.1)
  ]

  pub All-modify :
      (k : ℕ) (f : A → A) (xs : List A) (a : A)
      → find k xs ≡ some a
      → P (f a)
      → All P xs
      → All P (modify k f xs)
  unfolding find
  All-modify k f xs a e p h = All-modify-first k f xs a (ground arith) p h

  pub All-place : (a : A) (xs ys : List A) → place a xs ≡ some ys → P a → All P xs → All P ys
  unfolding place
  All-place a [] ys e p h = ground arith
  All-place a (x ∷ xs) ys e p h = elim (Bool-cases (s.live x)) [
    | inr free ↦ let q : a ∷ xs ≡ ys = ground arith in subst (All P) q (p, h.1)
    | inl taken ↦ elim (Option-cases (place a xs)) [
      | inl q ↦ ground arith
      | inr (zs, q) ↦
          let r : x ∷ zs ≡ ys = ground arith in subst (All P) r (h.0, All-place a xs zs q p h.1)
    ]
  ]

  pub All-replicate : (n : ℕ) (a : A) → P a → All P (replicate n a)
  All-replicate zero a p = tt
  All-replicate (suc n) a p = (p, All-replicate n a p)

  pub All-map : (f : A → A) (xs : List A) → ((a : A) → P a → P (f a)) → All P xs → All P (map f xs)
  All-map f [] k h = h
  All-map f (x ∷ xs) k h = (k x h.0, All-map f xs k h.1)
