-- ===== src/Grants.antt =====
-- Authority over physical memory: core/oskernel/src/memory_grant.cpp and
-- include/os/kernel/memory_grant.hpp. Addresses and lengths are 64-bit, generations 32-bit.
pub mod Ranges
pub mod Revoked
mod Tests
use enml.Base.{
  ℕ, zero, suc, ◌+◌, ◌-◌, ltb, leb, ◌==◌, if◌then◌else◌, Bool, true, false, ◌&&◌, ◌||◌, not, Option,
  none, some, List, [], ◌∷◌, Result, ok, err, replicate, inc64, dec64, get_elem?, set, u32_mod,
  u64_mod, ◌%◌,
}

pub data GrantError : Type 0 where
  exhausted stale invalid_range generation_exhausted overlapping : GrantError

abbrev pub max_memory_grants : ℕ
max_memory_grants = 64

pub record MemoryGrantIdentity : Type 0 where
  pub slot : ℕ
  pub generation : ℕ

abbrev pub is_valid_identity : MemoryGrantIdentity → Bool
is_valid_identity i = ltb i.slot max_memory_grants && not (i.generation == 0)

pub record MemoryGrant : Type 0 where
  pub identity : MemoryGrantIdentity
  pub physical_base : ℕ
  pub length : ℕ

abbrev pub max_address : ℕ
max_address = 0xFFFF_FFFF_FFFF_FFFF

abbrev pub is_valid_grant : MemoryGrant → Bool
is_valid_grant g = is_valid_identity g.identity && not (g.length == 0)

-- Whether a grant covers a range.
unfoldable pub contains : MemoryGrant → ℕ → ℕ → Bool
contains g range_base range_length =
    if not (is_valid_grant g) || range_length == 0
    then false
    else if ltb range_base g.physical_base
    then false
    else if ltb (max_address - range_base) range_length
    then false
    else if ltb (max_address - g.physical_base) g.length
    then false
    else leb ((range_base + range_length) % u64_mod) ((g.physical_base + g.length) % u64_mod)

pub record Slot : Type 0 where
  pub physical_base : ℕ
  pub length : ℕ
  pub generation : ℕ
  pub occupied : Bool

pub record Authority : Type 0 where
  pub slots : List Slot
  pub live : ℕ

abbrev pub empty_slot : Slot
empty_slot = record { physical_base = 0; length = 0; generation = 0; occupied = false }

unfoldable pub init : Authority
init = record { slots = replicate max_memory_grants empty_slot; live = 0 }

-- The sums wrap at 64 bits.
abbrev pub overlaps : ℕ → ℕ → ℕ → ℕ → Bool
overlaps a_base a_length b_base b_length =
    ltb a_base ((b_base + b_length) % u64_mod) && ltb b_base ((a_base + a_length) % u64_mod)

-- The first loop of `create`.
unfoldable pub overlaps_any : ℕ → ℕ → List Slot → Bool
overlaps_any base size [] = false
overlaps_any base size (a ∷ rest) =
    if a.occupied && overlaps a.physical_base a.length base size
    then true
    else overlaps_any base size rest

abbrev pub max_generation : ℕ
max_generation = 0xFFFF_FFFF

-- The second loop of `create`, from the index `i` on.
unfoldable pub create_at : ℕ → ℕ → ℕ → List Slot → List Slot × Result GrantError MemoryGrant
create_at base size i [] = ([], err exhausted)
create_at base size i (a ∷ rest) =
    let (rest', result) = create_at base size (suc i) rest in
    let next = (a.generation + 1) % u32_mod in
    if a.occupied
    then (a ∷ rest', result)
    else if a.generation == max_generation
    then (a ∷ rest, err generation_exhausted)
    else if next == 0
    then (record a { generation = next } ∷ rest, err generation_exhausted)
    else (
      record { physical_base = base; length = size; generation = next; occupied = true } ∷ rest,
      ok (record {
        identity = record { slot = i; generation = next };
        physical_base = base;
        length = size;
      }),
    )

unfoldable pub create : ℕ → ℕ → Authority → Authority × Result GrantError MemoryGrant
create base size t =
    if size == 0 || ltb (max_address - base) size
    then (t, err invalid_range)
    else if overlaps_any base size t.slots
    then (t, err overlapping)
    else let (slots, result) = create_at base size 0 t.slots in
      elim result [
        | err e ↦ (record t { slots = slots }, err e)
        | ok g ↦ (record { slots = slots; live = inc64 t.live }, ok g)
      ]

unfoldable pub resolve : MemoryGrantIdentity → Authority → Result GrantError MemoryGrant
resolve i t = if not (is_valid_identity i) then err stale else elim (get_elem? t.slots i.slot) [
  | none ↦ err stale
  | some a ↦
      if not a.occupied || not (a.generation == i.generation)
      then err stale
      else ok (record { identity = i; physical_base = a.physical_base; length = a.length })
]

abbrev pub vacate : Slot → Slot
vacate a = record a { occupied = false; physical_base = 0; length = 0 }

unfoldable pub revoke : MemoryGrantIdentity → Authority → Authority × Result GrantError (Unit {0})
revoke i t = if not (is_valid_identity i) then (t, err stale) else elim (get_elem? t.slots i.slot) [
  | none ↦ (t, err stale)
  | some a ↦
      if not a.occupied || not (a.generation == i.generation)
      then (t, err stale)
      else (record { slots = set t.slots i.slot (vacate a); live = dec64 t.live }, ok tt)
]
