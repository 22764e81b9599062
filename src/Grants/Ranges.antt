-- ===== src/Grants/Ranges.antt =====
-- Which memory the live grants cover
-- (core/oskernel/src/memory_grant.cpp).
use enml.Base.{
  ℕ, zero, suc, ◌+◌, ◌-◌, ◌≤◌, ◌<◌, ltb, ◌==◌, true, false, ◌||◌, some, List, [], ◌∷◌, ◌≡◌, ◌≢◌,
  ◌⊎◌, inl, inr, refl, arith, Option-cases, Bool-cases, get_elem?, set, replicate,
}
use enml.Base.Arrays.{get_elem?-set}
use enml.Grants.{
  Authority, MemoryGrantIdentity, Slot, init, empty_slot, overlaps_any, create_at, create, revoke,
  vacate, max_address, max_generation, max_memory_grants,
}

pub data Call : Type 0 where
  creates : ℕ → ℕ → Call
  revokes : MemoryGrantIdentity → Call

unfoldable pub step : Authority → Call → Authority
step t (creates base size) = (create base size t).0
step t (revokes i) = (revoke i t).0

unfoldable pub run : Authority → List Call → Authority
run t [] = t
run t (c ∷ cs) = run (step t c) cs

-- A range that is not empty and ends within the address space.
abbrev pub IsRange : Slot → Type 0
IsRange a = (0 < a.length) × (a.physical_base + a.length ≤ max_address)

abbrev pub IsApart : Slot → Slot → Type 0
IsApart a b =
    (a.physical_base + a.length ≤ b.physical_base) ⊎ (b.physical_base + b.length ≤ a.physical_base)

pub record Inv (xs : List Slot) : Type 0 where
  pub ranges : (j : ℕ) (a : Slot) → get_elem? xs j ≡ some a → a.occupied ≡ true → IsRange a
  pub apart :
      (j k : ℕ) (a b : Slot)
      → get_elem? xs j ≡ some a
      → get_elem? xs k ≡ some b
      → j ≢ k
      → a.occupied ≡ true
      → b.occupied ≡ true
      → IsApart a b
  pub bounded : (j : ℕ) (a : Slot) → get_elem? xs j ≡ some a → a.generation ≤ max_generation

replicate-empty :
    (n j : ℕ) (a : Slot)
    → get_elem? (replicate n empty_slot) j ≡ some a
    → (a.occupied ≡ false) × (a.generation ≡ 0)
replicate-empty zero j a e = absurd (ground arith)
replicate-empty (suc n) zero a e = ground arith
replicate-empty (suc n) (suc j) a e = replicate-empty n j a e

init-Inv : Inv init.slots
unfolding init
init-Inv = record {
  ranges = λ j a e o. absurd (ground (arith, replicate-empty max_memory_grants j a e));
  apart = λ j k a b e f n o p. absurd (ground (arith, replicate-empty max_memory_grants j a e));
  bounded = λ j a e. ground (arith, replicate-empty max_memory_grants j a e);
}

-- A range that the first loop lets pass lies apart from every live one.
overlaps_any_sound :
    (base size j : ℕ) (xs : List Slot) (a : Slot)
    → get_elem? xs j ≡ some a
    → a.occupied ≡ true
    → IsRange a
    → 0 < size
    → base + size ≤ max_address
    → overlaps_any base size xs ≡ false
    → (a.physical_base + a.length ≤ base) ⊎ (base + size ≤ a.physical_base)
unfolding overlaps_any
overlaps_any_sound base size j [] a e o r s m h = absurd (ground arith)
overlaps_any_sound base size zero (x ∷ xs) a e o r s m h = ground arith
overlaps_any_sound base size (suc j) (x ∷ xs) a e o r s m h =
    overlaps_any_sound base size j xs a e o r s m (ground arith)

abbrev pub filled : ℕ → ℕ → Slot → Slot
filled base size a = record {
  physical_base = base;
  length = size;
  generation = suc a.generation;
  occupied = true;
}

-- The second loop leaves the table as it was, or fills one free slot.
pub create_at-cases :
    (base size i : ℕ) (xs : List Slot)
    → ((k : ℕ) (a : Slot) → get_elem? xs k ≡ some a → a.generation ≤ max_generation)
    → ((create_at base size i xs).0 ≡ xs)
      ⊎ ((m : ℕ) × (a : Slot) × (get_elem? xs m ≡ some a)
          × (a.occupied ≡ false)
          × (a.generation < max_generation)
          × ((create_at base size i xs).0 ≡ set xs m (filled base size a)))
unfolding create_at
create_at-cases base size i [] h = inl refl
create_at-cases base size i (x ∷ xs) h = elim (Bool-cases x.occupied) [
  | inr n ↦ elim (Bool-cases (x.generation == max_generation)) [
    | inl z ↦ inl (ground arith)
    | inr z ↦ inr (0, x, refl, ground arith, ground (arith, h 0 x refl), ground (arith, h 0 x refl))
  ]
  | inl t ↦ elim (create_at-cases base size (suc i) xs (λ k a. h (suc k) a)) [
    | inl e ↦ inl (ground arith)
    | inr (m, a, f, o, g, e) ↦ inr (suc m, a, f, o, g, ground arith)
  ]
]

-- One slot is overwritten, by a range apart from every other live one.
set-Inv :
    (m : ℕ) (b : Slot) (xs : List Slot)
    → (b.occupied ≡ true → IsRange b)
    → ((k : ℕ) (a : Slot)
        → get_elem? xs k ≡ some a
        → a.occupied ≡ true
        → b.occupied ≡ true
        → IsApart a b)
    → b.generation ≤ max_generation
    → Inv xs
    → Inv (set xs m b)
set-Inv m b xs r s g v = record {
  ranges = λ j a e o. elim (was j a e) [ inl q ↦ ground (arith, r) | inr q ↦ v.ranges j a q.1 o ];
  apart = λ j k a c e f n o p. elim (was j a e) [
    | inl q ↦ elim (was k c f) [
      | inl q' ↦ absurd (n (ground arith))
      | inr q' ↦ ground (arith, s k c q'.1)
    ]
    | inr q ↦ elim (was k c f) [
      | inl q' ↦ ground (arith, s j a q.1)
      | inr q' ↦ v.apart j k a c q.1 q'.1 n o p
    ]
  ];
  bounded = λ j a e. elim (was j a e) [ inl q ↦ ground arith | inr q ↦ v.bounded j a q.1 ];
}
  where
    was :
        (j : ℕ) (a : Slot)
        → get_elem? (set xs m b) j ≡ some a
        → ((j ≡ m) × (a ≡ b)) ⊎ ((j ≢ m) × (get_elem? xs j ≡ some a))
    was j a e = elim (Bool-cases (m == j)) [
      | inl t ↦ elim (Option-cases (get_elem? xs j)) [
        | inl q ↦ absurd (ground (arith, get_elem?-set xs m j b))
        | inr (c, q) ↦ inl (ground (arith, get_elem?-set xs m j b))
      ]
      | inr n ↦ inr ((λ z. ground arith), ground (arith, get_elem?-set xs m j b))
    ]

create-Inv : (base size : ℕ) (t : Authority) → Inv t.slots → Inv (create base size t).0.slots
create-Inv base size t v =
    elim (Bool-cases
      (size == 0 || ltb (max_address - base) size || overlaps_any base size t.slots)) [
        | inl y ↦ let q : (create base size t).0 ≡ t = unfold create in ground arith in rw q v
        | inr n ↦
            let q : (create base size t).0.slots ≡ (create_at base size 0 t.slots).0 =
              unfold create in ground arith in
            elim (create_at-cases base size 0 t.slots v.bounded) [
              | inl e ↦ rw (q, e) v
              | inr (m, a, f, o, g, e) ↦
                  rw (q, e)
                    (set-Inv m (filled base size a) t.slots (λ _. ground arith)
                      (λ k c h l _.
                        ground
                          (arith, v.ranges k c h l, overlaps_any_sound base size k t.slots c h l))
                      (omega arith) v)
            ]
      ]

pub revoke-Inv : (i : MemoryGrantIdentity) (t : Authority) → Inv t.slots → Inv (revoke i t).0.slots
unfolding revoke
revoke-Inv i t v = elim (Option-cases (get_elem? t.slots i.slot)) [
  | inl e ↦ ground arith
  | inr (a, e) ↦ ground (
    arith,
    set-Inv i.slot (vacate a) t.slots (λ o. absurd (ground arith))
        (λ k c h l o. absurd (ground arith)) (v.bounded i.slot a e) v,
  )
]

pub step-Inv : (t : Authority) (c : Call) → Inv t.slots → Inv (step t c).slots
unfolding step
step-Inv t (creates base size) v = create-Inv base size t v
step-Inv t (revokes i) v = revoke-Inv i t v

run-Inv : (t : Authority) (cs : List Call) → Inv t.slots → Inv (run t cs).slots
unfolding run
run-Inv t [] v = v
run-Inv t (c ∷ cs) v = run-Inv (step t c) cs (step-Inv t c v)

-- After any calls on a new table, every live grant is a range that is not empty and ends within the
-- 64-bit address space, and no two live grants share a byte, although the overlap test of the code
-- adds with wrap-around.
pub grants-Inv : (cs : List Call) → Inv (run init cs).slots
grants-Inv cs = run-Inv init cs init-Inv
