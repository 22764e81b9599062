-- ===== src/Translations/Bound.antt =====
-- Which thread runs under which address space (core/oskernel/src/process_translation.cpp).
use enml.Base.{
  ℕ, ◌==◌, if◌then◌else◌, true, false, none, List, [], ◌∷◌, ok, ◌≡◌, inl, inr, refl, arith,
  Option-cases, All,
}
use enml.Table.{first, find, place}
use enml.Table.Laws.{find-place}
use enml.Spaces.{AddressSpaceEpoch, is_active}
use enml.Spaces
use enml.Translations.{
  Slot, slot_keyed, Binding, SealedTranslationRoot, ProcessTranslationTable, conflict, same_epoch,
  bind, resolve,
}

-- A live binding of another address space.
abbrev pub IsElsewhere : AddressSpaceEpoch → Slot → Type 0
IsElsewhere e a = a.occupied ≡ true → same_epoch a.binding.epoch e ≡ false

conflict-none :
    (thread : ℕ) (e : AddressSpaceEpoch) (xs : List Slot)
    → conflict thread e xs ≡ none
    → (first thread xs ≡ none) × All (IsElsewhere e) xs
unfolding conflict first
conflict-none thread e [] h = (refl, tt)
conflict-none thread e (a ∷ xs) h =
    let (f, g) = conflict-none thread e xs (ground (arith, h)) in
    (ground (arith, h, f), ((λ o. ground (arith, h, o)), g))

-- A thread that is bound runs under the epoch and the root it was bound to; the address space was active and no
-- other thread's; every other thread runs under what it ran under before.
pub bind-resolve :
    (thread j : ℕ) (e : AddressSpaceEpoch) (root : SealedTranslationRoot)
    (epochs : Spaces.Authority) (t : ProcessTranslationTable)
    → (bind thread e root epochs t).1 ≡ ok tt
    → let t' = (bind thread e root epochs t).0 in
      let b : Binding = record { thread = thread; epoch = e; root_physical = root.root_physical } in
      (resolve j epochs t' ≡ (if j == thread then ok b else resolve j epochs t))
      × (is_active e epochs ≡ true)
      × All (IsElsewhere e) t.slots
unfolding bind resolve find
bind-resolve thread j e root epochs t h =
    let a : Slot = record {
      occupied = true;
      binding = record { thread = thread; epoch = e; root_physical = root.root_physical };
    } in
    elim (Option-cases (conflict thread e t.slots)) [
      | inr (x, p) ↦ absurd (ground arith)
      | inl p ↦ elim (Option-cases (place a t.slots)) [
        | inl q ↦ absurd (ground arith)
        | inr (ys, q) ↦
            let (f, g) = conflict-none thread e t.slots p in
            (ground (arith, f, find-place a refl j t.slots ys), ground arith, g)
      ]
    ]
