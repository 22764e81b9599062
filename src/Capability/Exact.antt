-- ===== src/Capability/Exact.antt =====
-- What revocation leaves of the capability table: `revoke` and `revoke_all_held_by`
-- (core/oskernel/src/capability.cpp).
use mathlib.Core.Option
use enml.Base.{
  ℕ, zero, suc, ◌==◌, if◌then◌else◌, Bool, true, false, ◌&&◌, some, List, [], ◌∷◌, map, ◌≡◌, ◌≢◌,
  ◌⊎◌, inl, inr, refl, arith, sym, ◌∙◌, Bool-cases, get_elem?, ok,
}
use enml.Table.{modify, clear_where, exists_where}
use enml.Capability.{CapabilityTable, Slot, slot_keyed, Claimant, empty_slot, max_derivation_depth}
use enml.Capability.Revoke.{doom, doom_held, passes, sweep_doomed, revoke, revoke_all_held_by}
use enml.Capability.Marking.{IsLinked, IsDerived}
use enml.Capability.Condemned.{
  Condemned, clean, origin, parent_of_origin, IsShallow, passes-IsReached, passes_exact,
}

pub map-clean-modify : (k : ℕ) (xs : List Slot) → map clean (modify k doom xs) ≡ map clean xs
unfolding modify
map-clean-modify k [] = refl
map-clean-modify k (a ∷ xs) = ground (arith, map-clean-modify k xs)

pub map-clean-held : (k : ℕ) (xs : List Slot) → map clean (map (doom_held k) xs) ≡ map clean xs
map-clean-held k [] = refl
map-clean-held k (a ∷ xs) = ground (arith, map-clean-held k xs)

-- Links and depths do not read the marks.
marks-IsLinked : (xs ys : List Slot) → map clean ys ≡ map clean xs → IsLinked xs → IsLinked ys
marks-IsLinked xs ys s l j b e o =
    let (a, f, c) = origin xs ys j b s e in linked a c (l j a f (ground arith))
  where
    linked : (a : Slot) → clean a ≡ clean b → IsDerived xs a → IsDerived ys b
    linked a c (inl z) = inl (ground arith)
    linked a c (inr (p, f, d)) =
        let (q, g, h) = parent_of_origin ys xs b a p (sym s) (sym c) f in inr (q, g, ground arith)

marks-IsShallow : (xs ys : List Slot) → map clean ys ≡ map clean xs → IsShallow xs → IsShallow ys
marks-IsShallow xs ys s h j b e o = let (a, f, c) = origin xs ys j b s e in ground (arith, h j a f)

pub get_elem?-clear :
    (p : Slot → Bool) (xs : List Slot) (j : ℕ)
    → get_elem? (clear_where p empty_slot xs) j
      ≡ Option.map (λ a. if a.occupied && p a then empty_slot else a) (get_elem? xs j)
unfolding clear_where
get_elem?-clear p [] j = refl
get_elem?-clear p (x ∷ xs) zero = refl
get_elem?-clear p (x ∷ xs) (suc j) = get_elem?-clear p xs j

-- What becomes of each capability when the marked ones are swept away.
abbrev pub IsSwept : List Slot → List Slot → List Slot → Type 0
IsSwept xs ys zs =
    (j : ℕ) (a : Slot)
    → get_elem? xs j ≡ some a
    → a.occupied ≡ true
    → a.doomed ≡ false
    → ((get_elem? zs j ≡ some a) × ¬ Condemned ys j)
      ⊎ ((get_elem? zs j ≡ some empty_slot) × Condemned ys j)

pub sweep_doomed-IsSwept :
    (t : CapabilityTable) (xs : List Slot)
    → map clean t.slots ≡ map clean xs
    → IsLinked xs
    → IsShallow xs
    → IsSwept xs t.slots (sweep_doomed t).0.slots
unfolding sweep_doomed
sweep_doomed-IsSwept t xs s l h j a e o d =
    let r = passes-IsReached max_derivation_depth t.slots in
    let (b, f, c) = origin final xs j a (sym (r.same ∙ s)) e in
    let exact =
      passes_exact t.slots (marks-IsLinked xs t.slots s l) (marks-IsShallow xs t.slots s h) j b f
        (ground arith) in
    elim (Bool-cases b.doomed) [
      | inl t' ↦ inr (ground (arith, get_elem?-clear (λ x. x.doomed) final j), exact.0 t')
      | inr n ↦
          inl (
            ground (arith, get_elem?-clear (λ x. x.doomed) final j),
            λ k. ground (arith, exact.1 k),
          )
    ]
  where
    final : List Slot
    final = passes max_derivation_depth t.slots

-- A successful `revoke` on a table in which every derived capability stands one level below a live
-- parent, none deeper than the limit: it empties the slots of the named capability and of
-- everything derived from it at any depth, and leaves every other capability exactly as it was; said of
-- the capabilities that carry no mark before the call.
pub revoke-exact :
    (revoker : Claimant) (capability n : ℕ) (t : CapabilityTable)
    → IsLinked t.slots
    → IsShallow t.slots
    → (revoke revoker capability t).1 ≡ ok n
    → IsSwept t.slots (modify capability doom t.slots) (revoke revoker capability t).0.slots
revoke-exact revoker capability n t l h e =
    let q : (revoke revoker capability t).0
        ≡ (sweep_doomed (record t { slots = modify capability doom t.slots })).0 =
      unfold revoke in ground arith in
    rw q (
      sweep_doomed-IsSwept (record t { slots = modify capability doom t.slots }) t.slots
        (map-clean-modify capability t.slots) l h)

-- When a thread is gone, `revoke_all_held_by` empties the slots of what it held and of everything
-- derived from that at any depth, and leaves every other capability exactly as it was; said of the
-- capabilities that carry no mark before the call, on a table in which every derived capability
-- stands one level below a live parent, none deeper than the limit, for a valid thread that holds
-- something.
pub revoke_all_held_by-exact :
    (holder : ℕ) (t : CapabilityTable)
    → IsLinked t.slots
    → IsShallow t.slots
    → holder ≢ 0
    → exists_where (λ a. a.holder == holder) t.slots ≡ true
    → IsSwept t.slots (map (doom_held holder) t.slots) (revoke_all_held_by holder t).0.slots
revoke_all_held_by-exact holder t l h n e =
    let q : (revoke_all_held_by holder t).0
        ≡ (sweep_doomed (record t { slots = map (doom_held holder) t.slots })).0 =
      unfold revoke_all_held_by in ground arith in
    rw q (
      sweep_doomed-IsSwept (record t { slots = map (doom_held holder) t.slots }) t.slots
        (map-clean-held holder t.slots) l h)
