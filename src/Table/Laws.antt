-- ===== src/Table/Laws.antt =====
-- The laws of the slot tables: what a search finds after each kind of write, and that the keys stay
-- distinct and the number of occupied slots right.
use mathlib.Core.Option
use enml.Base.{
  Bool, ℕ, zero, suc, ◌≤◌, ◌<◌, ◌==◌, if◌then◌else◌, true, false, none, some, List, [], ◌∷◌, map,
  ◌≡◌, refl, arith, length, ◌≢◌, inl, inr, Option-cases, replicate, All,
}
use enml.Table.{first_where, Keyed, first, find, modify, place, count_live, IsKeyed}

module _ {ℓ} {A : Type ℓ} ⦃s : Keyed A⦄ where
  -- A write that leaves a slot where a search can find it.
  abbrev pub Keeps : (A → A) → Type ℓ
  Keeps f = (a : A) → (s.live (f a) ≡ s.live a) × (s.key (f a) ≡ s.key a)

  pub first-modify :
      (k j : ℕ) (f : A → A) (xs : List A)
      → Keeps f
      → first j (modify k f xs) ≡ (if k == j then Option.map f (first k xs) else first j xs)
  unfolding first modify
  first-modify k j f [] h = ground arith
  first-modify k j f (x ∷ xs) h = ground (arith, h x, first-modify k j f xs h)

  pub find-modify :
      (k j : ℕ) (f : A → A) (xs : List A)
      → Keeps f
      → find j (modify k f xs) ≡ (if k == j then Option.map f (find k xs) else find j xs)
  unfolding find
  find-modify k j f xs h = ground (arith, first-modify k j f xs h)

  pub IsKeyed-modify :
      (k : ℕ) (f : A → A) (xs : List A) → Keeps f → IsKeyed xs → IsKeyed (modify k f xs)
  unfolding modify
  IsKeyed-modify k f [] h u = u
  IsKeyed-modify k f (x ∷ xs) h u =
      ground (arith, h x, u.0, IsKeyed-modify k f xs h u.1, first-modify k (s.key x) f xs h)

  pub count_live-modify :
      (k : ℕ) (f : A → A) (xs : List A) → Keeps f → count_live (modify k f xs) ≡ count_live xs
  unfolding modify count_live
  count_live-modify k f [] h = refl
  count_live-modify k f (x ∷ xs) h = ground (arith, h x, count_live-modify k f xs h)

  pub length-modify : (k : ℕ) (f : A → A) (xs : List A) → length (modify k f xs) ≡ length xs
  unfolding modify
  length-modify k f [] = refl
  length-modify k f (x ∷ xs) = ground (arith, length-modify k f xs)

  -- What a search returns is occupied and has the key.
  pub first_sound :
      (k : ℕ) (xs : List A) (a : A) → first k xs ≡ some a → (s.live a ≡ true) × (s.key a ≡ k)
  unfolding first
  first_sound k [] a e = ground arith
  first_sound k (x ∷ xs) a e = ground (arith, first_sound k xs a)

  pub find_sound :
      (k : ℕ) (xs : List A) (a : A)
      → find k xs ≡ some a
      → (s.live a ≡ true) × (s.key a ≡ k) × (k ≢ 0)
  unfolding find
  find_sound k xs a e = ground (arith, first_sound k xs a)

  -- Freeing the slot that a search found.
  module _ (f : A → A) (dead : (a : A) → s.live (f a) ≡ false) where
    pub first-clear :
        (k j : ℕ) (xs : List A)
        → IsKeyed xs
        → first j (modify k f xs) ≡ (if k == j then none else first j xs)
    unfolding first modify
    first-clear k j [] u = ground arith
    first-clear k j (x ∷ xs) u = ground (arith, dead x, u.0, first-clear k j xs u.1)

    pub find-clear :
        (k j : ℕ) (xs : List A)
        → IsKeyed xs
        → find j (modify k f xs) ≡ (if k == j then none else find j xs)
    unfolding find
    find-clear k j xs u = ground (arith, first-clear k j xs u)

    pub IsKeyed-clear : (k : ℕ) (xs : List A) → IsKeyed xs → IsKeyed (modify k f xs)
    unfolding modify
    IsKeyed-clear k [] u = u
    IsKeyed-clear k (x ∷ xs) u =
        ground (arith, dead x, u.0, IsKeyed-clear k xs u.1, first-clear k (s.key x) xs u.1)

    pub count_live-clear :
        (k : ℕ) (xs : List A) (a : A)
        → first k xs ≡ some a
        → suc (count_live (modify k f xs)) ≡ count_live xs
    unfolding first modify count_live
    count_live-clear k [] a e = ground arith
    count_live-clear k (x ∷ xs) a e = ground (arith, dead x, count_live-clear k xs a)

  pub count_live-le : (xs : List A) → count_live xs ≤ length xs
  unfolding count_live
  count_live-le [] = omega arith
  count_live-le (x ∷ xs) = ground (arith, count_live-le xs)

  pub first-count_live : (k : ℕ) (xs : List A) (a : A) → first k xs ≡ some a → 0 < count_live xs
  unfolding first count_live
  first-count_live k [] a e = ground arith
  first-count_live k (x ∷ xs) a e = ground (arith, first-count_live k xs a)

  -- A search misses where no occupied slot has the key.
  pub first-none :
      (k : ℕ) (xs : List A) → All (λ a. s.live a ≡ true → s.key a ≢ k) xs → first k xs ≡ none
  unfolding first
  first-none k [] h = refl
  first-none k (x ∷ xs) h = ground (arith, h.0, first-none k xs h.1)

  -- Taking the first free slot.
  module _ (a : A) (live : s.live a ≡ true) where
    pub first-place :
        (j : ℕ) (xs ys : List A)
        → first (s.key a) xs ≡ none
        → place a xs ≡ some ys
        → first j ys ≡ (if s.key a == j then some a else first j xs)
    unfolding first place
    first-place j [] ys new e = ground arith
    first-place j (x ∷ xs) ys new e = elim (Option-cases (place a xs)) [
      | inl p ↦ ground (arith)
      | inr (zs, p) ↦ ground (arith, first-place j xs zs)
    ]

    pub find-place :
        (j : ℕ) (xs ys : List A)
        → s.key a ≢ 0
        → find (s.key a) xs ≡ none
        → place a xs ≡ some ys
        → find j ys ≡ (if s.key a == j then some a else find j xs)
    unfolding find
    find-place j xs ys n new e = ground (arith, first-place j xs ys)

    pub IsKeyed-place :
        (xs ys : List A)
        → s.key a ≢ 0
        → first (s.key a) xs ≡ none
        → place a xs ≡ some ys
        → IsKeyed xs
        → IsKeyed ys
    unfolding place first
    IsKeyed-place [] ys n new e u = ground arith
    IsKeyed-place (x ∷ xs) ys n new e u = elim (Option-cases (place a xs)) [
      | inl p ↦ ground (arith, u.0)
      | inr (zs, p) ↦ ground (arith, u.0, u.1, IsKeyed-place xs zs, first-place (s.key x) xs zs)
    ]

    pub count_live-place :
        (xs ys : List A) → place a xs ≡ some ys → count_live ys ≡ suc (count_live xs)
    unfolding place count_live
    count_live-place [] ys e = ground arith
    count_live-place (x ∷ xs) ys e = elim (Option-cases (place a xs)) [
      | inl p ↦ ground arith
      | inr (zs, p) ↦ ground (arith, count_live-place xs zs)
    ]

    pub length-place : (xs ys : List A) → place a xs ≡ some ys → length ys ≡ length xs
    unfolding place
    length-place [] ys e = ground arith
    length-place (x ∷ xs) ys e = elim (Option-cases (place a xs)) [
      | inl p ↦ ground arith
      | inr (zs, p) ↦ ground (arith, length-place xs zs)
    ]

  -- A place is refused exactly when every slot is taken.
  pub place-eq-none : (a : A) (xs : List A) → place a xs ≡ none → count_live xs ≡ length xs
  unfolding place count_live
  place-eq-none a [] e = refl
  place-eq-none a (x ∷ xs) e = elim (Option-cases (place a xs)) [
    | inl p ↦ ground (arith, place-eq-none a xs p)
    | inr (zs, p) ↦ ground arith
  ]

  pub place_full : (a : A) (xs : List A) → count_live xs ≡ length xs → place a xs ≡ none
  unfolding place count_live
  place_full a [] e = refl
  place_full a (x ∷ xs) e = ground (arith, place_full a xs, count_live-le xs)

  -- A write to every slot that keeps keys.
  pub first-map :
      (j : ℕ) (f : A → A) (xs : List A) → Keeps f → first j (map f xs) ≡ Option.map f (first j xs)
  unfolding first
  first-map j f [] h = refl
  first-map j f (x ∷ xs) h = ground (arith, h x, first-map j f xs h)

  pub find-map :
      (j : ℕ) (f : A → A) (xs : List A) → Keeps f → find j (map f xs) ≡ Option.map f (find j xs)
  unfolding find
  find-map j f xs h = ground (arith, first-map j f xs h)

  pub IsKeyed-map : (f : A → A) (xs : List A) → Keeps f → IsKeyed xs → IsKeyed (map f xs)
  IsKeyed-map f [] h u = u
  IsKeyed-map f (x ∷ xs) h u =
      ground (arith, h x, u.0, IsKeyed-map f xs h u.1, first-map (s.key x) f xs h)

  pub count_live-map : (f : A → A) (xs : List A) → Keeps f → count_live (map f xs) ≡ count_live xs
  unfolding count_live
  count_live-map f [] h = refl
  count_live-map f (x ∷ xs) h = ground (arith, h x, count_live-map f xs h)

  pub length-map : (f : A → A) (xs : List A) → length (map f xs) ≡ length xs
  length-map f [] = refl
  length-map f (x ∷ xs) = ground (arith, length-map f xs)

  -- An array of free slots.
  pub find-replicate : (k n : ℕ) (z : A) → s.live z ≡ false → find k (replicate n z) ≡ none
  unfolding find first
  find-replicate k zero z e = ground arith
  find-replicate k (suc n) z e = ground (arith, find-replicate k n z e)

  pub count_live-replicate : (n : ℕ) (z : A) → s.live z ≡ false → count_live (replicate n z) ≡ 0
  unfolding count_live
  count_live-replicate zero z e = refl
  count_live-replicate (suc n) z e = ground (arith, count_live-replicate n z e)

  pub IsKeyed-replicate : (n : ℕ) (z : A) → s.live z ≡ false → IsKeyed (replicate n z)
  IsKeyed-replicate zero z e = tt
  IsKeyed-replicate (suc n) z e = ((λ l. ground arith), IsKeyed-replicate n z e)

  pub length-replicate : (n : ℕ) (z : A) → length (replicate n z) ≡ n
  length-replicate zero z = refl
  length-replicate (suc n) z = ground (arith, length-replicate n z)

  -- What a search by a test returns is occupied and passes the test.
  pub first_where_sound :
      (p : A → Bool) (xs : List A) (a : A)
      → first_where p xs ≡ some a
      → (s.live a ≡ true) × (p a ≡ true)
  unfolding first_where
  first_where_sound p [] a e = ground arith
  first_where_sound p (x ∷ xs) a e = ground (arith, first_where_sound p xs a)

  pub first-first_where :
      (p : A → Bool) (xs : List A) (a : A)
      → IsKeyed xs
      → first_where p xs ≡ some a
      → (first (s.key a) xs ≡ some a) × (s.key a ≢ 0)
  unfolding first first_where
  first-first_where p [] a u e = ground arith
  first-first_where p (x ∷ xs) a u e =
      ground (arith, u.0, first-first_where p xs a u.1, first_where_sound p xs a)

  -- The search by its key finds it too.
  pub find-first_where :
      (p : A → Bool) (xs : List A) (a : A)
      → IsKeyed xs
      → first_where p xs ≡ some a
      → (find (s.key a) xs ≡ some a) × (s.key a ≢ 0)
  unfolding find
  find-first_where p xs a u e = ground (arith, first-first_where p xs a u e)

  -- Where the search by a test fails, nothing that the table holds passes it.
  pub first_where-none :
      (p : A → Bool) (k : ℕ) (xs : List A) (a : A)
      → first_where p xs ≡ none
      → first k xs ≡ some a
      → p a ≡ false
  unfolding first first_where
  first_where-none p k [] a e f = ground arith
  first_where-none p k (x ∷ xs) a e f = ground (arith, first_where-none p k xs a)

  -- With valid keys the search for the key 0 fails by itself.
  pub find-eq-first : (k : ℕ) (xs : List A) → IsKeyed xs → find k xs ≡ first k xs
  unfolding find first
  find-eq-first k [] u = ground arith
  find-eq-first k (x ∷ xs) u = ground (arith, u.0, find-eq-first k xs u.1)
