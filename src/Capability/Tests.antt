-- ===== src/Capability/Tests.antt =====
-- Concrete capability tables (core/oskernel/src/capability.cpp).
use enml.Base.{true, false, some, List, [], ◌∷◌, ok, ◌≡◌, ◌≢◌, refl, arith, ◌+◌, ◌≤◌, ◌==◌, map}
use enml.Table.{first, find, modify, place, exists_where, count_where}
use enml.Capability.{
  CapabilityTable, Slot, slot_keyed, ExecutionAuthority, legacy, bound, init, mint, grant, held_by,
  thread_of, excess, max_derivation_depth, new_slot, index_of, parent_of,
}
use enml.Capability.Revoke.{
  doom, doom_held, revoke, revoke_all_held_by, sweep_doomed, visit, pass, pass_from, passes,
}
use enml.Capability.Exact.{IsSwept, revoke-exact, revoke_all_held_by-exact}
use enml.Capability.Invariant.{Inv}
use enml.Capability.Run.{Call, mints, grants, step, run, capabilities-Inv, grant-outcome}

-- Thread 5 holds capability 1 on object 77, and granted thread 6 capability 2, derived from it.
abbrev history : List Call
history = mints (legacy 5) 77 3 true ∷ grants (legacy 5) 1 (legacy 6) 1 true ∷ []

abbrev shared : CapabilityTable
shared = run init history

abbrev authority : ExecutionAuthority
authority = record { thread = 5; address_space = record { slot = 2; generation = 4 } }

abbrev single : CapabilityTable
single = run init (mints (bound authority) 77 3 true ∷ [])

abbrev bound_slot : Slot
bound_slot = new_slot 1 0 77 3 (bound authority) 0 true 0

revoked : (revoke (legacy 5) 1 shared).1 ≡ ok 2
unfolding find first run init step mint grant place revoke sweep_doomed modify passes pass pass_from
    visit parent_of index_of count_where
revoked = refl

held : exists_where (λ a. a.holder == 5) shared.slots ≡ true
unfolding find first run init step mint grant place exists_where
held = refl

granted : (grant (legacy 6) 2 (legacy 7) 1 false shared).1 ≡ ok 3
unfolding find first run init step mint grant place
granted = refl

find-bound : find 1 single.slots ≡ some bound_slot
unfolding find first run init step mint grant place
find-bound = refl

capabilities-Inv_example : Inv (run init history).slots
capabilities-Inv_example = capabilities-Inv history

revoke-exact_example :
    IsSwept shared.slots (modify 1 doom shared.slots) (revoke (legacy 5) 1 shared).0.slots
revoke-exact_example =
    revoke-exact (legacy 5) 1 2 shared (capabilities-Inv history).linked
      (capabilities-Inv history).shallow revoked

revoke_all_held_by-exact_example :
    IsSwept shared.slots (map (doom_held 5) shared.slots) (revoke_all_held_by 5 shared).0.slots
revoke_all_held_by-exact_example =
    revoke_all_held_by-exact 5 shared (capabilities-Inv history).linked
      (capabilities-Inv history).shallow (λ e. omega arith) held

grant-outcome_example :
    (p : Slot) × (find 2 shared.slots ≡ some p)
    × (held_by p (legacy 6) ≡ true)
    × (p.transferable ≡ true)
    × (excess 1 p.rights ≡ 0)
    × (p.depth + 1 ≤ max_derivation_depth)
    × (thread_of (legacy 6) ≢ thread_of (legacy 7))
    × (3 ≡ shared.next_id)
    × (place
          (new_slot 3 2 p.object 1 (legacy 7) (index_of 2 shared.slots) false (p.depth + 1))
          shared.slots
        ≡ some (grant (legacy 6) 2 (legacy 7) 1 false shared).0.slots)
grant-outcome_example = grant-outcome (legacy 6) 2 (legacy 7) 1 false shared 3 granted
