-- ===== src/Spaces/Lifetimes.antt =====
-- The lifetime of one address space, call by call (core/oskernel/src/address_space_epoch.cpp).
use enml.Base.{
  ℕ, zero, suc, ◌≤◌, ◌<◌, ◌==◌, false, ◌&&◌, not, some, List, [], ◌∷◌, ok, err, ◌≡◌, ◌≢◌, ◌⊎◌, inl,
  inr, refl, arith, Option-cases, Bool-cases, get_elem?, replicate,
}
use enml.Base.Arrays.{get_elem?-set}
use enml.Capability.{max_address_space_epochs}
use enml.Spaces.{
  Authority, AddressSpaceEpoch, Slot, free, active, retiring, stale, is_free, is_active_state,
  is_valid_epoch, matches, max_generation, init, acquire_at, acquire, resolve, is_active,
  is_retiring, begin_retire, complete_retire,
}

pub data Call : Type 0 where
  acquires : Call
  begins completes : AddressSpaceEpoch → Call

unfoldable pub step : Authority → Call → Authority
step t acquires = (acquire t).0
step t (begins e) = (begin_retire e t).0
step t (completes e) = (complete_retire e t).0

unfoldable pub run : Authority → List Call → Authority
run t [] = t
run t (c ∷ cs) = run (step t c) cs

-- What a call does to one slot: nothing; or a free slot becomes active, one generation on; or an
-- active slot starts to retire; or a retiring one is freed.
abbrev pub IsAged : Slot → Slot → Type 0
IsAged a b =
    (b ≡ a)
    ⊎ ((a.state ≡ free)
        × (b.state ≡ active)
        × (b.generation ≡ suc a.generation)
        × (a.generation < max_generation))
    ⊎ ((a.state ≡ active) × (b ≡ record a { state = retiring }))
    ⊎ ((a.state ≡ retiring) × (b ≡ record a { state = free }))

-- The generations fit their type.
abbrev pub IsBounded : List Slot → Type 0
IsBounded xs = (j : ℕ) (a : Slot) → get_elem? xs j ≡ some a → a.generation ≤ max_generation

acquire_at-IsAged :
    (i : ℕ) (xs : List Slot) (j : ℕ) (a : Slot)
    → get_elem? xs j ≡ some a
    → a.generation ≤ max_generation
    → (b : Slot) × (get_elem? (acquire_at i xs).0 j ≡ some b) × IsAged a b
unfolding acquire_at
acquire_at-IsAged i [] j a e h = absurd (ground arith)
acquire_at-IsAged i (x ∷ xs) zero a e h =
    elim (Bool-cases (is_free x.state && not (x.generation == max_generation))) [
      | inl t ↦ (
        record { generation = suc a.generation; state = active },
        ground arith,
        inr (inl (ground arith)),
      )
      | inr n ↦ (a, ground arith, inl refl)
    ]
acquire_at-IsAged i (x ∷ xs) (suc j) a e h = elim (Bool-cases (is_free x.state)) [
  | inl t ↦ (a, ground arith, inl refl)
  | inr n ↦ let (b, f, k) = acquire_at-IsAged (suc i) xs j a e h in (b, ground arith, k)
]

pub step-IsAged :
    (t : Authority) (c : Call) (j : ℕ) (a : Slot)
    → get_elem? t.slots j ≡ some a
    → a.generation ≤ max_generation
    → (b : Slot) × (get_elem? (step t c).slots j ≡ some b) × IsAged a b
unfolding step acquire begin_retire complete_retire is_retiring
step-IsAged t acquires j a e h =
    let (b, f, k) = acquire_at-IsAged 0 t.slots j a e h in (b, ground arith, k)
step-IsAged t (begins x) j a e h =
    elim (Bool-cases (is_valid_epoch x && x.slot == j && matches x a && is_active_state a.state)) [
      | inl y ↦ (
        record a { state = retiring },
        ground (arith, get_elem?-set t.slots x.slot j (record a { state = retiring })),
        inr (inr (inl (ground arith))),
      )
      | inr n ↦ elim (Option-cases (get_elem? t.slots x.slot)) [
        | inl q ↦ (a, ground arith, inl refl)
        | inr (c, q) ↦ (
          a,
          ground (arith, get_elem?-set t.slots x.slot j (record c { state = retiring })),
          inl refl,
        )
      ]
    ]
step-IsAged t (completes x) j a e h = elim (Bool-cases (is_retiring x t && x.slot == j)) [
  | inl y ↦ (
    record a { state = free },
    ground (arith, get_elem?-set t.slots x.slot j (record a { state = free })),
    inr (inr (inr (ground arith))),
  )
  | inr n ↦ elim (Option-cases (get_elem? t.slots x.slot)) [
    | inl q ↦ (a, ground arith, inl refl)
    | inr (c, q) ↦
        (a, ground (arith, get_elem?-set t.slots x.slot j (record c { state = free })), inl refl)
  ]
]

-- A lifetime is over for a slot that has gone on to a later generation, or no longer stands for the
-- generation as an active space.
abbrev pub IsOver : ℕ → Slot → Type 0
IsOver generation a =
    (a.generation ≤ max_generation)
    × ((generation < a.generation) ⊎ ((generation ≡ a.generation) × (a.state ≢ active)))

IsAged-IsOver : (g : ℕ) (a b : Slot) → IsAged a b → IsOver g a → IsOver g b
IsAged-IsOver g a b h o = ground arith

run-IsOver :
    (cs : List Call) (t : Authority) (j g : ℕ) (a : Slot)
    → get_elem? t.slots j ≡ some a
    → IsOver g a
    → (b : Slot) × (get_elem? (run t cs).slots j ≡ some b) × IsOver g b
unfolding run
run-IsOver [] t j g a e o = (a, e, o)
run-IsOver (c ∷ cs) t j g a e o =
    let (b, f, k) = step-IsAged t c j a e o.0 in
    run-IsOver cs (step t c) j g b f (IsAged-IsOver g a b k o)

pub begin_retire-stale :
    (e : AddressSpaceEpoch) (t : Authority) (cs : List Call)
    → IsBounded t.slots
    → (begin_retire e t).1 ≡ ok e
    → (resolve (record { slot = e.slot; generation = e.generation }) (run (begin_retire e t).0 cs)
        ≡ err stale)
      × (is_active e (run (begin_retire e t).0 cs) ≡ false)
begin_retire-stale e t cs h r = elim (Option-cases (get_elem? t.slots e.slot)) [
  | inl q ↦ absurd (unfold begin_retire in ground arith)
  | inr (a, q) ↦
      let now : get_elem? (begin_retire e t).0.slots e.slot ≡ some (record a { state = retiring }) =
        unfold begin_retire in
        ground (arith, get_elem?-set t.slots e.slot e.slot (record a { state = retiring })) in
      let same : e.generation ≡ a.generation = unfold begin_retire in ground arith in
      let (b, f, o) =
        run-IsOver cs (begin_retire e t).0 e.slot e.generation (record a { state = retiring }) now
          (h e.slot a q, inr (same, λ w. ground arith)) in
      (unfold resolve in ground arith, unfold is_active in ground arith)
]

pub init-IsBounded : IsBounded init.slots
unfolding init
init-IsBounded j a e = go max_address_space_epochs j a e
  where
    go :
        (n j : ℕ) (a : Slot)
        → get_elem? (replicate n (record { generation = 0; state = free })) j ≡ some a
        → a.generation ≤ max_generation
    go zero j a e = ground arith
    go (suc n) zero a e = ground arith
    go (suc n) (suc j) a e = go n j a e
