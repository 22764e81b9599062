-- ===== src/Grants/Tests.antt =====
-- Concrete tables of memory grants (core/oskernel/src/memory_grant.cpp).
use enml.Base.{true, List, [], ◌∷◌, ok, err, ◌≡◌, ◌↔◌, ◌+◌, ◌≤◌, ◌<◌, refl, arith}
use enml.Grants.{
  MemoryGrant, MemoryGrantIdentity, stale, max_address, init, create_at, create, overlaps_any,
  resolve, revoke, contains,
}
use enml.Grants.Ranges.{Call, creates, step, run, Inv, grants-Inv}
use enml.Grants.Revoked.{revoked-stale, contains_iff}

abbrev history : List Call
history = creates 4096 8192 ∷ creates 0 4096 ∷ creates 4095 2 ∷ []

abbrev name : MemoryGrantIdentity
name = record { slot = 0; generation = 1 }

abbrev large : MemoryGrant
large = record { identity = name; physical_base = 4096; length = 8192 }

revokable : (revoke name (run init history)).1 ≡ ok tt
unfolding run init step create create_at overlaps_any revoke
revokable = refl

grants-Inv_example : Inv (run init history).slots
grants-Inv_example = grants-Inv history

revoked-stale_example :
    resolve name (run (revoke name (run init history)).0 (creates 4096 4096 ∷ [])) ≡ err stale
revoked-stale_example = revoked-stale history (creates 4096 4096 ∷ []) name revokable

contains_iff_example :
    contains large 8192 4096 ≡ true
    ↔ (0 < 4096) × (8192 + 4096 ≤ max_address) × (4096 ≤ 8192) × (8192 + 4096 ≤ 4096 + 8192)
contains_iff_example = contains_iff large 8192 4096 refl (omega arith) (omega arith)
