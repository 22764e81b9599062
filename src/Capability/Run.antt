-- ===== src/Capability/Run.antt =====
-- Histories of calls on the capability table, and what each leaves
-- (core/oskernel/src/capability.cpp).

use enml.Base.{
  ℕ, ◌+◌, ◌≤◌, Bool, true, false, some, List, [], ◌∷◌, map, ◌≡◌, ◌≢◌, ◌↔◌, inl, inr, arith, sym,
  subst, ◌∙◌, Option-cases, get_elem?, ok,
}
use enml.Table.{find, modify, place}
use enml.Capability.{
  CapabilityTable, Slot, ExecutionAuthority, is_valid_authority, holds, legacy, bound, slot_keyed,
  Claimant, parent_of, max_derivation_depth, mint, grant, init, new_slot, excess, index_of, held_by,
  thread_of,
}
use enml.Capability.Revoke.{doom, doom_held, passes, sweep_doomed, revoke, revoke_all_held_by}
use enml.Capability.Marking.{IsDerived, parent_of_sound}
use enml.Capability.Condemned.{
  Condemned, derived, clean, origin, parent_of_origin, passes-IsReached,
}
use enml.Capability.Exact.{
  IsSwept, sweep_doomed-IsSwept, map-clean-modify, map-clean-held, get_elem?-clear,
}
use enml.Capability.Invariant.{Inv, IsNarrower, mint-Inv, grant-Inv, init-Inv}

-- A parent that is swept away takes what was derived from it along.
swept-Inv :
    (xs ys zs : List Slot)
    → map clean ys ≡ map clean xs
    → IsSwept xs ys zs
    → ((j : ℕ) (b : Slot) → get_elem? zs j ≡ some b → b.occupied ≡ true → get_elem? xs j ≡ some b)
    → Inv xs
    → Inv zs
swept-Inv xs ys zs s w old v = record {
  linked = λ j b e o. kept j b e o (v.linked j b (old j b e o) o);
  shallow = λ j b e o. v.shallow j b (old j b e o) o;
  unmarked = λ j b e o. v.unmarked j b (old j b e o) o;
  narrower = λ j b p e o f. narrow j b p e o f;
}
  where
    -- The parent of a survivor survives.
    parent_stays :
        (j : ℕ) (b p : Slot)
        → get_elem? zs j ≡ some b
        → b.occupied ≡ true
        → parent_of b xs ≡ some p
        → get_elem? zs b.parent_slot ≡ some p
    parent_stays j b p e o f =
        let r = parent_of_sound xs b p f in
        let (b', g, c) = origin ys xs j b (sym s) (old j b e o) in
        let (p', g', c') = parent_of_origin ys xs b' b p (sym s) c f in
        elim (w b.parent_slot p r.0 r.1 (v.unmarked b.parent_slot p r.0 r.1)) [
          | inl (here, k) ↦ here
          | inr (gone, k) ↦
              let same : b.parent_slot ≡ b'.parent_slot = ground arith in
              let doomed : Condemned ys j =
                derived g (ground arith) g' (subst (Condemned ys) same k) in
              elim (w j b (old j b e o) o (v.unmarked j b (old j b e o) o)) [
                | inl (here, safe) ↦ absurd (safe doomed)
                | inr (gone', k') ↦ absurd (ground arith)
              ]
        ]

    stays :
        (j : ℕ) (b p : Slot)
        → get_elem? zs j ≡ some b
        → b.occupied ≡ true
        → parent_of b xs ≡ some p
        → parent_of b zs ≡ some p
    stays j b p e o f =
        let here = parent_stays j b p e o f in
        unfold parent_of in ground (arith, parent_of_sound xs b p f)

    kept :
        (j : ℕ) (b : Slot)
        → get_elem? zs j ≡ some b
        → b.occupied ≡ true
        → IsDerived xs b
        → IsDerived zs b
    kept j b e o (inl z) = inl z
    kept j b e o (inr (p, f, d)) = inr (p, stays j b p e o f, d)

    narrow :
        (j : ℕ) (b p : Slot)
        → get_elem? zs j ≡ some b
        → b.occupied ≡ true
        → parent_of b zs ≡ some p
        → IsNarrower b p
    narrow j b p e o f =
        let r = parent_of_sound zs b p f in
        let was = old b.parent_slot p r.0 r.1 in
        let f' : parent_of b xs ≡ some p = unfold parent_of in ground arith in
        v.narrower j b p (old j b e o) o f'

sweep-Inv :
    (t : CapabilityTable) (xs : List Slot)
    → map clean t.slots ≡ map clean xs
    → Inv xs
    → Inv (sweep_doomed t).0.slots
sweep-Inv t xs s v =
    swept-Inv xs t.slots (sweep_doomed t).0.slots s (sweep_doomed-IsSwept t xs s v.linked v.shallow)
      old v
  where
    old :
        (j : ℕ) (b : Slot)
        → get_elem? (sweep_doomed t).0.slots j ≡ some b
        → b.occupied ≡ true
        → get_elem? xs j ≡ some b
    old j b e o =
        let r = passes-IsReached max_derivation_depth t.slots in
        let final = passes max_derivation_depth t.slots in
        let here : (get_elem? final j ≡ some b) × (b.doomed ≡ false) =
          unfold sweep_doomed in ground (arith, get_elem?-clear (λ x. x.doomed) final j) in
        let (a, f, c) = origin xs final j b (r.same ∙ s) here.0 in ground (arith, v.unmarked j a f)

pub revoke-Inv :
    (revoker : Claimant) (capability : ℕ) (t : CapabilityTable)
    → Inv t.slots
    → Inv (revoke revoker capability t).0.slots
unfolding revoke
revoke-Inv revoker capability t v = ground (
  arith,
  sweep-Inv (record t { slots = modify capability doom t.slots }) t.slots
      (map-clean-modify capability t.slots) v,
)

pub revoke_all_held_by-Inv :
    (holder : ℕ) (t : CapabilityTable) → Inv t.slots → Inv (revoke_all_held_by holder t).0.slots
unfolding revoke_all_held_by
revoke_all_held_by-Inv holder t v = ground (
  arith,
  sweep-Inv (record t { slots = map (doom_held holder) t.slots }) t.slots
      (map-clean-held holder t.slots) v,
)

pub data Call : Type 0 where
  mints : Claimant → ℕ → ℕ → Bool → Call
  grants : Claimant → ℕ → Claimant → ℕ → Bool → Call
  revokes : Claimant → ℕ → Call
  revokes_all : ℕ → Call

unfoldable pub step : CapabilityTable → Call → CapabilityTable
step t (mints holder object rights transferable) = (mint holder object rights transferable t).0
step t (grants granter capability recipient rights transferable) =
    (grant granter capability recipient rights transferable t).0
step t (revokes revoker capability) = (revoke revoker capability t).0
step t (revokes_all holder) = (revoke_all_held_by holder t).0

unfoldable pub run : CapabilityTable → List Call → CapabilityTable
run t [] = t
run t (c ∷ cs) = run (step t c) cs

step-Inv : (t : CapabilityTable) (c : Call) → Inv t.slots → Inv (step t c).slots
unfolding step
step-Inv t (mints h o r x) v = mint-Inv h o r x t v
step-Inv t (grants g c h r x) v = grant-Inv g c h r x t v
step-Inv t (revokes h c) v = revoke-Inv h c t v
step-Inv t (revokes_all h) v = revoke_all_held_by-Inv h t v

run-Inv : (t : CapabilityTable) (cs : List Call) → Inv t.slots → Inv (run t cs).slots
unfolding run
run-Inv t [] v = v
run-Inv t (c ∷ cs) v = run-Inv (step t c) cs (step-Inv t c v)

-- After any calls on a new table: every derived capability stands one level below a live parent
-- and at most eight levels down, names its parent's object, has no right that its parent lacks, and
-- its parent may be passed on; and no mark is left over.
pub capabilities-Inv : (cs : List Call) → Inv (run init cs).slots
capabilities-Inv cs = run-Inv init cs init-Inv

-- A grant that succeeds was made by the holder of a capability that may be passed on, to another
-- thread, within the limit of depth, and adds no right: every right it carries its source carries.
-- The new capability goes into the first free slot, and no other slot changes.
pub grant-outcome :
    (granter : Claimant) (capability : ℕ) (recipient : Claimant) (rights : ℕ) (transferable : Bool)
    (t : CapabilityTable) (id : ℕ)
    → (grant granter capability recipient rights transferable t).1 ≡ ok id
    → (p : Slot) × (find capability t.slots ≡ some p)
      × (held_by p granter ≡ true)
      × (p.transferable ≡ true)
      × (excess rights p.rights ≡ 0)
      × (p.depth + 1 ≤ max_derivation_depth)
      × (thread_of granter ≢ thread_of recipient)
      × (id ≡ t.next_id)
      × (place
            (new_slot id capability p.object rights recipient
              (index_of capability t.slots)
              transferable
              (p.depth + 1))
            t.slots
          ≡ some (grant granter capability recipient rights transferable t).0.slots)
unfolding grant
grant-outcome granter capability recipient rights transferable t id h =
    elim (Option-cases (find capability t.slots)) [
      | inl q ↦ absurd (ground arith)
      | inr (p, q) ↦
          let a =
            new_slot t.next_id capability p.object rights recipient (index_of capability t.slots)
              transferable (p.depth + 1) in
          elim (Option-cases (place a t.slots)) [
            | inl e ↦ absurd (ground arith)
            | inr (ys, e) ↦ (
              p,
              q,
              ground arith,
              ground arith,
              ground arith,
              ground arith,
              ground arith,
              ground arith,
              ground arith,
            )
          ]
    ]

-- A capability that is bound to a generation of an address space answers to no thread number, and
-- to a well-formed authority exactly when that is its own thread, address space and generation.
pub holds-bound :
    (x : ExecutionAuthority) (thread capability : ℕ) (t : CapabilityTable) (a : Slot)
    → is_valid_authority x ≡ true
    → find capability t.slots ≡ some a
    → a.context_bound ≡ true
    → (holds (legacy thread) capability t ≡ false)
      × (holds (bound x) capability t ≡ true
          ↔ (x.thread ≡ a.holder)
            × (x.address_space.slot ≡ a.holder_address_space.slot)
            × (x.address_space.generation ≡ a.holder_address_space.generation))
unfolding holds
holds-bound x thread capability t a w e h = (ground arith, ((λ k. ground arith), λ k. ground arith))
