-- ===== src/Table.antt =====
-- The fixed slot arrays of the kernel's state machines (`std::array<Slot, N> slots_`) with their
-- three idioms: the linear search for an occupied slot with a key, the write through the pointer
-- which that search returned, and the write into the first free slot.
pub mod Laws
pub mod Every
pub mod Sweep
pub mod Once
use enml.Base.{
  ℕ, zero, suc, ◌==◌, if◌then◌else◌, Bool, true, false, ◌&&◌, Option, none, some, List, [], ◌∷◌,
  ◌≡◌, ◌≢◌,
}
use mathlib.Core.Option

-- What a search reads of a slot.
pub record Keyed {ℓ} (A : Type ℓ) : Type ℓ where
  pub live : A → Bool
  pub key : A → ℕ

module _ {ℓ} {A : Type ℓ} ⦃s : Keyed A⦄ where
  abbrev pub hits : ℕ → A → Bool
  hits k a = s.live a && s.key a == k

  -- The first occupied slot with the key.
  unfoldable pub first : ℕ → List A → Option A
  first k [] = none
  first k (x ∷ xs) = if hits k x then some x else first k xs

  -- The key 0 is invalid in every table, and is never found.
  unfoldable pub find : ℕ → List A → Option A
  find k xs = if k == 0 then none else first k xs

  -- A write through the pointer that the search for `k` returned.
  unfoldable pub modify : ℕ → (A → A) → List A → List A
  modify k f [] = []
  modify k f (x ∷ xs) = if hits k x then f x ∷ xs else x ∷ modify k f xs

  -- A write into the first free slot; `none` where all are taken.
  unfoldable pub place : A → List A → Option (List A)
  place a [] = none
  place a (x ∷ xs) = if s.live x then Option.map (λ ys. x ∷ ys) (place a xs) else some (a ∷ xs)

  unfoldable pub count_live : List A → ℕ
  count_live [] = 0
  count_live (x ∷ xs) = if s.live x then suc (count_live xs) else count_live xs

  -- A loop that frees every occupied slot which passes a test, and the count that it keeps.
  unfoldable pub clear_where : (A → Bool) → A → List A → List A
  clear_where p z [] = []
  clear_where p z (x ∷ xs) = (if s.live x && p x then z else x) ∷ clear_where p z xs

  unfoldable pub count_where : (A → Bool) → List A → ℕ
  count_where p [] = 0
  count_where p (x ∷ xs) = if s.live x && p x then suc (count_where p xs) else count_where p xs

  -- The first occupied slot that passes a test.
  unfoldable pub first_where : (A → Bool) → List A → Option A
  first_where p [] = none
  first_where p (x ∷ xs) = if s.live x && p x then some x else first_where p xs

  -- A write through the pointer that a search by a test returned.
  unfoldable pub modify_where : (A → Bool) → (A → A) → List A → List A
  modify_where p f [] = []
  modify_where p f (x ∷ xs) = if s.live x && p x then f x ∷ xs else x ∷ modify_where p f xs

  -- Whether some occupied slot passes a test.
  unfoldable pub exists_where : (A → Bool) → List A → Bool
  exists_where p [] = false
  exists_where p (x ∷ xs) = if s.live x && p x then true else exists_where p xs

  -- The occupied slots have valid keys, and no two have the same.
  abbrev pub IsKeyed : List A → Type ℓ
  IsKeyed [] = Unit
  IsKeyed (x ∷ xs) = (s.live x ≡ true → (s.key x ≢ 0) × (first (s.key x) xs ≡ none)) × IsKeyed xs
