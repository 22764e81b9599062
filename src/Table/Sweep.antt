-- ===== src/Table/Sweep.antt =====
-- The laws of a loop that frees every occupied slot which passes a test.
use enml.Base.{
  ℕ, ◌+◌, ◌≤◌, if◌then◌else◌, Bool, false, ◌&&◌, Option, none, some, List, [], ◌∷◌, ◌≡◌, refl,
  arith, inl, inr, All, Bool-cases, length,
}
use enml.Table.{Keyed, first, find, clear_where, count_where, count_live, IsKeyed}

-- What is left of a search's result where the slots that pass `p` were freed.
abbrev pub unless {ℓ} : {A : Type ℓ} → (A → Bool) → Option A → Option A
unless p none = none
unless p (some a) = if p a then none else some a

module _ {ℓ} {A : Type ℓ} ⦃s : Keyed A⦄ (p : A → Bool) (z : A) (dead : s.live z ≡ false) where
  pub first-clear_where :
      (j : ℕ) (xs : List A) → IsKeyed xs → first j (clear_where p z xs) ≡ unless p (first j xs)
  unfolding first clear_where
  first-clear_where j [] u = refl
  first-clear_where j (x ∷ xs) u = ground (arith, u.0, first-clear_where j xs u.1)

  pub find-clear_where :
      (j : ℕ) (xs : List A) → IsKeyed xs → find j (clear_where p z xs) ≡ unless p (find j xs)
  unfolding find
  find-clear_where j xs u = ground (arith, first-clear_where j xs u)

  pub IsKeyed-clear_where : (xs : List A) → IsKeyed xs → IsKeyed (clear_where p z xs)
  unfolding clear_where
  IsKeyed-clear_where [] u = u
  IsKeyed-clear_where (x ∷ xs) u =
      ground (arith, u.0, IsKeyed-clear_where xs u.1, first-clear_where (s.key x) xs u.1)

  pub count_live-clear_where :
      (xs : List A) → count_live (clear_where p z xs) + count_where p xs ≡ count_live xs
  unfolding clear_where count_where count_live
  count_live-clear_where [] = refl
  count_live-clear_where (x ∷ xs) = ground (arith, count_live-clear_where xs)

  pub length-clear_where : (xs : List A) → length (clear_where p z xs) ≡ length xs
  unfolding clear_where
  length-clear_where [] = refl
  length-clear_where (x ∷ xs) = ground (arith, length-clear_where xs)

  pub All-clear_where {κ} :
      (P : A → Type κ) (xs : List A) → P z → All P xs → All P (clear_where p z xs)
  unfolding clear_where
  All-clear_where P [] k h = h
  All-clear_where P (x ∷ xs) k h = elim (Bool-cases (s.live x && p x)) [
    | inl t ↦ rw t (k, All-clear_where P xs k h.1)
    | inr f ↦ rw f (h.0, All-clear_where P xs k h.1)
  ]

pub count_where-le {ℓ} :
    {A : Type ℓ} ⦃s : Keyed A⦄ (p : A → Bool) (xs : List A) → count_where p xs ≤ count_live xs
unfolding count_where count_live
count_where-le p [] = omega arith
count_where-le p (x ∷ xs) = ground (arith, count_where-le p xs)
