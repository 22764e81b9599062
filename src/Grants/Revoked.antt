-- ===== src/Grants/Revoked.antt =====
-- What became of a grant that was given up (core/oskernel/src/memory_grant.cpp).
use enml.Base.{
  ℕ, ◌+◌, ◌-◌, ◌≤◌, ◌<◌, ltb, ◌==◌, true, false, ◌&&◌, ◌||◌, some, List, [], ◌∷◌, ok, err, ◌≡◌, ◌⊎◌,
  ◌↔◌, inl, inr, refl, arith, Option-cases, Bool-cases, get_elem?,
}
use enml.Base.Arrays.{get_elem?-set}
use enml.Grants.{
  Authority, MemoryGrant, MemoryGrantIdentity, Slot, stale, init, overlaps_any, create_at, create,
  resolve, revoke, vacate, max_address, is_valid_identity, contains,
}
use enml.Grants.Ranges.{
  Call, creates, revokes, step, run, Inv, grants-Inv, step-Inv, revoke-Inv, filled, create_at-cases,
}

-- A grant whose generation its slot has left behind, or that was given up.
abbrev pub IsRevoked : ℕ → Slot → Type 0
IsRevoked g a = (g < a.generation) ⊎ ((g ≡ a.generation) × (a.occupied ≡ false))

step-IsRevoked :
    (t : Authority) (c : Call) (j g : ℕ) (a : Slot)
    → Inv t.slots
    → get_elem? t.slots j ≡ some a
    → IsRevoked g a
    → (b : Slot) × (get_elem? (step t c).slots j ≡ some b) × IsRevoked g b
unfolding step
step-IsRevoked t (creates base size) j g a v e d =
    elim (Bool-cases
      (size == 0 || ltb (max_address - base) size || overlaps_any base size t.slots)) [
        | inl y ↦ (a, unfold create in ground arith, d)
        | inr n ↦
            let q : (create base size t).0.slots ≡ (create_at base size 0 t.slots).0 =
              unfold create in ground arith in
            elim (create_at-cases base size 0 t.slots v.bounded) [
              | inl f ↦ (a, ground arith, d)
              | inr (m, c, f, o, h, k) ↦ elim (Bool-cases (m == j)) [
                | inl y ↦ (
                  filled base size c,
                  ground (arith, get_elem?-set t.slots m j (filled base size c)),
                  ground arith,
                )
                | inr z ↦ (a, ground (arith, get_elem?-set t.slots m j (filled base size c)), d)
              ]
            ]
      ]
step-IsRevoked t (revokes i) j g a v e d = elim (Option-cases (get_elem? t.slots i.slot)) [
  | inl q ↦ (a, unfold revoke in ground arith, d)
  | inr (c, q) ↦
      elim (Bool-cases
        (is_valid_identity i && c.occupied && c.generation == i.generation && i.slot == j)) [
          | inl y ↦ (
            vacate a,
            unfold revoke in ground (arith, get_elem?-set t.slots i.slot j (vacate c)),
            ground arith,
          )
          | inr n ↦
              (a, unfold revoke in ground (arith, get_elem?-set t.slots i.slot j (vacate c)), d)
        ]
]

run-IsRevoked :
    (cs : List Call) (t : Authority) (j g : ℕ) (a : Slot)
    → Inv t.slots
    → get_elem? t.slots j ≡ some a
    → IsRevoked g a
    → (b : Slot) × (get_elem? (run t cs).slots j ≡ some b) × IsRevoked g b
unfolding run
run-IsRevoked [] t j g a v e d = (a, e, d)
run-IsRevoked (c ∷ cs) t j g a v e d =
    let (b, f, k) = step-IsRevoked t c j g a v e d in
    run-IsRevoked cs (step t c) j g b (step-Inv t c v) f k

-- Once a grant is revoked, after any calls, its identity never resolves again, whatever is called
-- afterwards, also when its slot has been given to another grant.
pub revoked-stale :
    (before after : List Call) (i : MemoryGrantIdentity)
    → (revoke i (run init before)).1 ≡ ok tt
    → resolve i (run (revoke i (run init before)).0 after) ≡ err stale
revoked-stale before after i h = elim (Option-cases (get_elem? (run init before).slots i.slot)) [
  | inl q ↦ absurd (unfold revoke in ground arith)
  | inr (a, q) ↦
      let t = run init before in
      let now : get_elem? (revoke i t).0.slots i.slot ≡ some (vacate a) =
        unfold revoke in ground (arith, get_elem?-set t.slots i.slot i.slot (vacate a)) in
      let same : i.generation ≡ a.generation = unfold revoke in ground arith in
      let (b, f, d) =
        run-IsRevoked after (revoke i t).0 i.slot i.generation (vacate a)
          (revoke-Inv i t (grants-Inv before)) now (inr (same, refl)) in
      unfold resolve in ground arith
]

-- A grant covers exactly the ranges that are not empty, end within the address space, and lie
-- between its ends; for a valid grant that itself ends within the address space.
pub contains_iff :
    (g : MemoryGrant) (base size : ℕ)
    → is_valid_identity g.identity ≡ true
    → 0 < g.length
    → g.physical_base + g.length ≤ max_address
    → contains g base size ≡ true
      ↔ (0 < size)
        × (base + size ≤ max_address)
        × (g.physical_base ≤ base)
        × (base + size ≤ g.physical_base + g.length)
unfolding contains
contains_iff g base size v l m = ((λ h. ground arith), λ h. ground arith)
