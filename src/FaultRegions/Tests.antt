-- ===== src/FaultRegions/Tests.antt =====
-- Tests of the fault regions (core/oskernel/src/fault_region.cpp).
use enml.Base.{◌≤◌, true, false, List, [], ◌∷◌}
use enml.FaultRegions.{paged, backed_shared, backed_private, init}
use enml.FaultRegions.Budget.{Call, declares, backs, faults, reports, reports-at_most_two}

-- A region at 0x40000 whose first read is announced, is backed, and is written to twice.
abbrev history : List Call
history =
    declares 0x40000 0x2000 paged
    ∷ faults 0x40010 false
    ∷ faults 0x40020 false
    ∷ backs 1 backed_shared
    ∷ faults 0x40010 true
    ∷ faults 0x41000 true
    ∷ backs 1 backed_private
    ∷ faults 0x40000 true
    ∷ []

reports-at_most_two_example : reports 1 init history ≤ 2
reports-at_most_two_example = reports-at_most_two 1 history
