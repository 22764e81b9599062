-- ===== src/Spaces/Exclusive.antt =====
-- Who holds a hardware tag (core/oskernel/src/address_space_epoch.cpp).
use enml.Base.{
  ℕ, zero, suc, ◌+◌, ◌<◌, true, false, some, List, [], ◌∷◌, ok, err, ◌≡◌, ◌≢◌, inl, inr, refl,
  arith, Option-cases, Bool-cases, get_elem?, u32_mod, length, ◌%◌,
}
use enml.Base.Arrays.{length-set}
use enml.Capability.{max_address_space_epochs}
use enml.Spaces.{
  Authority, AddressSpaceEpoch, Slot, free, active, retiring, stale, is_free, init, acquire_at,
  acquire, resolve, is_active, is_retiring, begin_retire, complete_retire, asid_for_slot,
}
use enml.Spaces.Lifetimes.{
  Call, acquires, begins, completes, step, run, step-IsAged, IsBounded, init-IsBounded,
  begin_retire-stale,
}

length-acquire_at : (i : ℕ) (xs : List Slot) → length (acquire_at i xs).0 ≡ length xs
unfolding acquire_at
length-acquire_at i [] = refl
length-acquire_at i (x ∷ xs) = ground (arith, length-acquire_at (suc i) xs)

length-step : (t : Authority) (c : Call) → length (step t c).slots ≡ length t.slots
unfolding step acquire begin_retire complete_retire
length-step t acquires = ground (arith, length-acquire_at 0 t.slots)
length-step t (begins e) = elim (Option-cases (get_elem? t.slots e.slot)) [
  | inl q ↦ ground arith
  | inr (a, q) ↦ ground (arith, length-set t.slots e.slot (record a { state = retiring }))
]
length-step t (completes e) = elim (Option-cases (get_elem? t.slots e.slot)) [
  | inl q ↦ ground arith
  | inr (a, q) ↦ ground (arith, length-set t.slots e.slot (record a { state = free }))
]

present_lt : (xs : List Slot) (j : ℕ) → j < length xs → (a : Slot) × (get_elem? xs j ≡ some a)
present_lt [] j h = absurd (omega arith)
present_lt (x ∷ xs) zero h = (x, refl)
present_lt (x ∷ xs) (suc j) h = present_lt xs j (omega arith)

lt_present : (xs : List Slot) (j : ℕ) (a : Slot) → get_elem? xs j ≡ some a → j < length xs
lt_present [] j a e = absurd (ground arith)
lt_present (x ∷ xs) zero a e = omega arith
lt_present (x ∷ xs) (suc j) a e = omega (arith, lt_present xs j a e)

step-IsBounded : (t : Authority) (c : Call) → IsBounded t.slots → IsBounded (step t c).slots
step-IsBounded t c h j b e =
    let (a, f) =
      present_lt t.slots j (omega (arith, lt_present (step t c).slots j b e, length-step t c)) in
    let (b', g, k) = step-IsAged t c j a f (h j a f) in ground (arith, h j a f)

run-IsBounded : (t : Authority) (cs : List Call) → IsBounded t.slots → IsBounded (run t cs).slots
unfolding run
run-IsBounded t [] h = h
run-IsBounded t (c ∷ cs) h = run-IsBounded (step t c) cs (step-IsBounded t c h)

acquire_at_ok :
    (i : ℕ) (xs : List Slot) (e : AddressSpaceEpoch)
    → (acquire_at i xs).1 ≡ ok e
    → (j : ℕ) × (a : Slot) × (get_elem? xs j ≡ some a)
      × (a.state ≡ free)
      × (e ≡ record {
        slot = i + j;
        generation = (a.generation + 1) % u32_mod;
        asid = asid_for_slot (i + j);
      })
      × (e.generation ≢ 0)
      × (get_elem? (acquire_at i xs).0 j
          ≡ some (record { generation = e.generation; state = active }))
unfolding acquire_at
acquire_at_ok i [] e h = absurd (ground arith)
acquire_at_ok i (x ∷ xs) e h = elim (Bool-cases (is_free x.state)) [
  | inl t ↦ (0, x, refl, ground arith, ground arith, ground arith, ground arith)
  | inr n ↦
      let (j, a, f, s, k, z, g) = acquire_at_ok (suc i) xs e (ground arith) in
      (suc j, a, f, s, ground arith, z, ground arith)
]

acquire-exclusive_from :
    (t : Authority) (e other : AddressSpaceEpoch)
    → length t.slots ≡ max_address_space_epochs
    → (acquire t).1 ≡ ok e
    → other.asid ≡ e.asid
    → (resolve (record { slot = e.slot; generation = e.generation }) (acquire t).0 ≡ ok e)
      × (is_active e (acquire t).0 ≡ true)
      × (is_active other t ≡ false)
      × (is_retiring other t ≡ false)
unfolding acquire
acquire-exclusive_from t e other size h same =
    let (j, a, f, s, k, z, g) = acquire_at_ok 0 t.slots e (ground arith) in
    let room = lt_present t.slots j a f in
    let at : e.slot ≡ j = ground arith in
    (
      unfold resolve in ground arith,
      unfold is_active in ground arith,
      unfold is_active in ground arith,
      unfold is_retiring in ground arith,
    )

-- Two epochs that are active at once under the same hardware tag are the same epoch.
pub is_active-asid :
    (t : Authority) (e f : AddressSpaceEpoch)
    → is_active e t ≡ true
    → is_active f t ≡ true
    → e.asid ≡ f.asid
    → e ≡ f
unfolding is_active
is_active-asid t e f h k same = elim (Option-cases (get_elem? t.slots e.slot)) [
  | inl q ↦ absurd (ground arith)
  | inr (a, q) ↦ let at : e.slot ≡ f.slot = ground arith in ground arith
]

run-length : (t : Authority) (cs : List Call) → length (run t cs).slots ≡ length t.slots
unfolding run
run-length t [] = refl
run-length t (c ∷ cs) = omega (arith, run-length (step t c) cs, length-step t c)

-- Once an epoch begins to retire, after any calls, its identity never resolves again and the epoch
-- is never active again, whatever is called afterwards: not when the slot is free, and not when it
-- has been given to another address space.
pub retired-stale :
    (before after : List Call) (e : AddressSpaceEpoch)
    → (begin_retire e (run init before)).1 ≡ ok e
    → let t = run (begin_retire e (run init before)).0 after in
      (resolve (record { slot = e.slot; generation = e.generation }) t ≡ err stale)
      × (is_active e t ≡ false)
retired-stale before after e h =
    begin_retire-stale e (run init before) after (run-IsBounded init before init-IsBounded) h

-- An epoch that is acquired after any calls is the live one of its slot, and its identity resolves
-- to it; and before that, no epoch with the same hardware tag was active or still retiring.
pub acquire-exclusive :
    (before : List Call) (e other : AddressSpaceEpoch)
    → (acquire (run init before)).1 ≡ ok e
    → other.asid ≡ e.asid
    → let t = run init before in
      (resolve (record { slot = e.slot; generation = e.generation }) (acquire t).0 ≡ ok e)
      × (is_active e (acquire t).0 ≡ true)
      × (is_active other t ≡ false)
      × (is_retiring other t ≡ false)
acquire-exclusive before e other h same =
    acquire-exclusive_from (run init before) e other
      (unfold init in omega (arith, run-length init before)) h same
