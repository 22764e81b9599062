-- ===== src/Capability/Invariant.antt =====
-- The invariant of the capability table (core/oskernel/src/capability.cpp), call by call.

use enml.Base.{
  ℕ, zero, suc, ◌+◌, ◌≤◌, ◌==◌, Bool, true, false, some, List, [], ◌∷◌, ◌≡◌, ◌⊎◌, inl, inr, refl,
  arith, Option-cases, Bool-cases, get_elem?, replicate,
}
use enml.Table.{find, first, place}
use enml.Capability.{
  CapabilityTable, Slot, slot_keyed, Claimant, empty_slot, parent_of, max_derivation_depth, mint,
  grant, init, new_slot, excess, index_of, max_capabilities,
}
use enml.Capability.Marking.{IsLinked, IsDerived, parent_of_sound}
use enml.Capability.Condemned.{IsShallow}

-- A capability that narrows its parent: it names its parent's object, with no right that its parent
-- lacks, and its parent may be passed on.
abbrev pub IsNarrower : Slot → Slot → Type 0
IsNarrower a p = (excess a.rights p.rights ≡ 0) × (a.object ≡ p.object) × (p.transferable ≡ true)

pub record Inv (xs : List Slot) : Type 0 where
  pub linked : IsLinked xs
  pub shallow : IsShallow xs
  pub unmarked : (j : ℕ) (a : Slot) → get_elem? xs j ≡ some a → a.occupied ≡ true → a.doomed ≡ false
  pub narrower :
      (j : ℕ) (a p : Slot)
      → get_elem? xs j ≡ some a
      → a.occupied ≡ true
      → parent_of a xs ≡ some p
      → IsNarrower a p

replicate-empty :
    (n j : ℕ) (a : Slot) → get_elem? (replicate n empty_slot) j ≡ some a → a.occupied ≡ false
replicate-empty zero j a e = ground arith
replicate-empty (suc n) zero a e = ground arith
replicate-empty (suc n) (suc j) a e = replicate-empty n j a e

pub init-Inv : Inv init.slots
unfolding init
init-Inv = record {
  linked = λ j a e o. absurd (ground (arith, replicate-empty max_capabilities j a e));
  shallow = λ j a e o. ground (arith, replicate-empty max_capabilities j a e);
  unmarked = λ j a e o. ground (arith, replicate-empty max_capabilities j a e);
  narrower = λ j a p e o f. absurd (ground (arith, replicate-empty max_capabilities j a e));
}

place_was :
    (a : Slot) (xs ys : List Slot) (j : ℕ) (b : Slot)
    → place a xs ≡ some ys
    → get_elem? ys j ≡ some b
    → (b ≡ a) ⊎ (get_elem? xs j ≡ some b)
unfolding place
place_was a [] ys j b e f = ground arith
place_was a (x ∷ xs) ys zero b e f = elim (Option-cases (place a xs)) [
  | inl q ↦ ground arith
  | inr (zs, q) ↦ ground arith
]
place_was a (x ∷ xs) ys (suc j) b e f = elim (Option-cases (place a xs)) [
  | inl q ↦ ground arith
  | inr (zs, q) ↦ ground (arith, place_was a xs zs j b q)
]

place_stays :
    (a : Slot) (xs ys : List Slot) (j : ℕ) (b : Slot)
    → place a xs ≡ some ys
    → get_elem? xs j ≡ some b
    → b.occupied ≡ true
    → get_elem? ys j ≡ some b
unfolding place
place_stays a [] ys j b e f o = ground arith
place_stays a (x ∷ xs) ys zero b e f o = elim (Option-cases (place a xs)) [
  | inl q ↦ ground arith
  | inr (zs, q) ↦ ground arith
]
place_stays a (x ∷ xs) ys (suc j) b e f o = elim (Option-cases (place a xs)) [
  | inl q ↦ ground arith
  | inr (zs, q) ↦ ground (arith, place_stays a xs zs j b q)
]

-- A slot's parent is looked up in the same way wherever the slots it can find are the same.
parent_of-stays :
    (xs ys : List Slot) (a p : Slot)
    → parent_of a xs ≡ some p
    → get_elem? ys a.parent_slot ≡ some p
    → parent_of a ys ≡ some p
unfolding parent_of
parent_of-stays xs ys a p e f = ground arith

-- A new slot is a root, or stands one level below a live parent whose authority it narrows.
place-Inv :
    (a : Slot) (xs ys : List Slot)
    → place a xs ≡ some ys
    → a.doomed ≡ false
    → a.depth ≤ max_derivation_depth
    → ((a.parent ≡ 0) × (a.depth ≡ 0))
      ⊎ ((p : Slot) × (parent_of a xs ≡ some p) × (a.depth ≡ suc p.depth) × IsNarrower a p)
    → Inv xs
    → Inv ys
place-Inv a xs ys e d h new v = record {
  linked = λ j b f o. elim (place_was a xs ys j b e f) [
    | inl same ↦ rw same (fresh new)
    | inr old ↦ kept b (v.linked j b old o)
  ];
  shallow = λ j b f o. ground (arith, place_was a xs ys j b e f, v.shallow j b);
  unmarked = λ j b f o. ground (arith, place_was a xs ys j b e f, v.unmarked j b);
  narrower = λ j b p f o g. elim (place_was a xs ys j b e f) [
    | inl same ↦ narrow b p same g new
    | inr old ↦ older j b p old o g (v.linked j b old o)
  ];
}
  where
    stays : (b p : Slot) → parent_of b xs ≡ some p → parent_of b ys ≡ some p
    stays b p g =
        let s = parent_of_sound xs b p g in
        parent_of-stays xs ys b p g (place_stays a xs ys b.parent_slot p e s.0 s.1)

    kept : (b : Slot) → IsDerived xs b → IsDerived ys b
    kept b (inl z) = inl z
    kept b (inr (p, g, k)) = inr (p, stays b p g, k)

    fresh :
        ((a.parent ≡ 0) × (a.depth ≡ 0))
          ⊎ ((p : Slot) × (parent_of a xs ≡ some p) × (a.depth ≡ suc p.depth) × IsNarrower a p)
        → IsDerived ys a
    fresh (inl z) = inl z
    fresh (inr (p, g, k, n)) = inr (p, stays a p g, k)

    narrow :
        (b p : Slot)
        → b ≡ a
        → parent_of b ys ≡ some p
        → ((a.parent ≡ 0) × (a.depth ≡ 0))
          ⊎ ((p : Slot) × (parent_of a xs ≡ some p) × (a.depth ≡ suc p.depth) × IsNarrower a p)
        → IsNarrower b p
    narrow b p same g (inl z) = absurd (ground (arith, parent_of_sound ys b p g))
    narrow b p same g (inr (q, k, m, n)) = ground (arith, stays a q k)

    older :
        (j : ℕ) (b p : Slot)
        → get_elem? xs j ≡ some b
        → b.occupied ≡ true
        → parent_of b ys ≡ some p
        → IsDerived xs b
        → IsNarrower b p
    older j b p f o g (inl z) = absurd (ground (arith, parent_of_sound ys b p g))
    older j b p f o g (inr (q, k, m)) = ground (arith, stays b q k, v.narrower j b q f o k)

pub mint-Inv :
    (holder : Claimant) (object rights : ℕ) (transferable : Bool) (t : CapabilityTable)
    → Inv t.slots
    → Inv (mint holder object rights transferable t).0.slots
unfolding mint
mint-Inv holder object rights transferable t v =
    let a = new_slot t.next_id 0 object rights holder 0 transferable 0 in
    elim (Option-cases (place a t.slots)) [
      | inl e ↦ ground arith
      | inr (ys, e) ↦
          ground (arith, place-Inv a t.slots ys e refl (omega arith) (inl (refl, refl)) v)
    ]

-- The index that `grant` records is that of the slot it found.
get_elem?-index_of :
    (k : ℕ) (xs : List Slot) (a : Slot)
    → first k xs ≡ some a
    → get_elem? xs (index_of k xs) ≡ some a
unfolding index_of first
get_elem?-index_of k [] a e = ground arith
get_elem?-index_of k (x ∷ xs) a e = ground (arith, get_elem?-index_of k xs a)

first_live :
    (k : ℕ) (xs : List Slot) (a : Slot) → first k xs ≡ some a → (a.occupied ≡ true) × (a.id ≡ k)
unfolding first
first_live k [] a e = ground arith
first_live k (x ∷ xs) a e = ground (arith, first_live k xs a)

pub grant-Inv :
    (granter : Claimant) (capability : ℕ) (recipient : Claimant) (rights : ℕ) (transferable : Bool)
    (t : CapabilityTable)
    → Inv t.slots
    → Inv (grant granter capability recipient rights transferable t).0.slots
unfolding grant find
grant-Inv granter capability recipient rights transferable t v =
    elim (Option-cases (first capability t.slots)) [
      | inl q ↦ ground arith
      | inr (p, q) ↦
          let a =
            new_slot t.next_id capability p.object rights recipient (index_of capability t.slots)
              transferable (p.depth + 1) in
          elim (Option-cases (place a t.slots)) [
            | inl e ↦ ground arith
            | inr (ys, e) ↦ elim (Bool-cases (capability == 0)) [
              | inl z ↦ ground arith
              | inr n ↦
                  let found : parent_of a t.slots ≡ some p =
                    unfold parent_of in
                    ground (
                      arith,
                      get_elem?-index_of capability t.slots p,
                      first_live capability t.slots p,
                    ) in
                  ground (
                    arith,
                    (λ (h : p.depth + 1 ≤ max_derivation_depth) (m : p.transferable ≡ true)
                          (x : excess rights p.rights ≡ 0).
                        place-Inv a t.slots ys e refl h (inr (p, found, omega arith, (x, refl, m)))
                          v),
                  )
            ]
          ]
    ]
