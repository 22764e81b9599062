-- ===== src/Capability/Revoke.antt =====
-- Revocation: `sweep_doomed`, both `revoke` and `revoke_all_held_by`
-- (core/oskernel/src/capability.cpp).
use enml.Base.{
  ℕ, zero, suc, ◌==◌, if◌then◌else◌, Bool, true, false, ◌&&◌, ◌||◌, not, Option, none, some, List,
  Result, ok, err, sub64, get_elem?, set, length, map,
}
use enml.Table.{find, modify, clear_where, count_where, exists_where}
use enml.Capability.{
  CapabilityTable, CapabilityError, Slot, slot_keyed, Claimant, empty_slot, is_claimant, held_by,
  parent_of, max_derivation_depth, invalid_holder, invalid_capability_id, unknown_capability,
  not_revocable,
}

abbrev pub doom : Slot → Slot
doom a = record a { doomed = true }

abbrev pub is_doomed : Option Slot → Bool
is_doomed none = false
is_doomed (some p) = p.doomed

-- The body of the marking loop at one index: a slot whose parent is doomed is doomed. The slots
-- are changed in place, so a later index sees what an earlier one marked.
abbrev pub is_marked : List Slot → Slot → Bool
is_marked slots a = a.occupied && not a.doomed && is_doomed (parent_of a slots)

unfoldable pub visit : ℕ → List Slot → List Slot × Bool
visit i slots = elim (get_elem? slots i) [
  | none ↦ (slots, false)
  | some a ↦ if is_marked slots a then (set slots i (doom a), true) else (slots, false)
]

-- One pass over the indices from `i`, `n` of them, and whether it marked any slot.
unfoldable pub pass_from : ℕ → ℕ → List Slot → List Slot × Bool
pass_from zero i slots = (slots, false)
pass_from (suc n) i slots =
    let (slots', spread) = visit i slots in
    let (slots'', spread') = pass_from n (suc i) slots' in (slots'', spread || spread')

unfoldable pub pass : List Slot → List Slot × Bool
pass slots = pass_from (length slots) 0 slots

-- Passes until one marks nothing, or as many as there are.
unfoldable pub passes : ℕ → List Slot → List Slot
passes zero slots = slots
passes (suc n) slots =
    let (slots', spread) = pass slots in elim spread [ true ↦ passes n slots' | false ↦ slots' ]

unfoldable pub sweep_doomed : CapabilityTable → CapabilityTable × ℕ
sweep_doomed t =
    let slots = passes max_derivation_depth t.slots in
    let removed = count_where (λ a. a.doomed) slots in
    (
      record t {
        slots = clear_where (λ a. a.doomed) empty_slot slots;
        occupied = sub64 t.occupied removed;
      },
      removed,
    )

abbrev pub holds_parent : Claimant → Option Slot → Bool
holds_parent claimant none = false
holds_parent claimant (some p) = held_by p claimant

unfoldable pub revoke : Claimant → ℕ → CapabilityTable → CapabilityTable × Result CapabilityError ℕ
unfolding sweep_doomed
revoke revoker capability t =
    if not (is_claimant revoker)
    then (t, err invalid_holder)
    else if capability == 0
    then (t, err invalid_capability_id)
    else elim (find capability t.slots) [
      | none ↦ (t, err unknown_capability)
      | some a ↦
          if not (held_by a revoker) && not (holds_parent revoker (parent_of a t.slots))
          then (t, err not_revocable)
          else let (t', removed) =
              sweep_doomed (record t { slots = modify capability doom t.slots }) in
            (t', ok removed)
    ]

-- The first loop of `revoke_all_held_by`.
abbrev pub doom_held : ℕ → Slot → Slot
doom_held holder a = if a.occupied && a.holder == holder then doom a else a

unfoldable pub revoke_all_held_by : ℕ → CapabilityTable → CapabilityTable × ℕ
unfolding sweep_doomed
revoke_all_held_by holder t =
    if holder == 0
    then (t, 0)
    else if exists_where (λ a. a.holder == holder) t.slots
    then sweep_doomed (record t { slots = map (doom_held holder) t.slots })
    else (t, 0)
