-- ===== src/Capability.antt =====
-- The capability table: core/oskernel/src/capability.cpp, include/os/kernel/capability.hpp,
-- execution_authority.hpp and address_space_epoch.hpp. An operation takes the table and returns the
-- new one with its result. Rights are 32-bit words, `~x` is the difference from all ones.
pub mod Revoke
pub mod Marking
pub mod Condemned
pub mod Exact
pub mod Invariant
pub mod Run
pub mod Emptied
mod Tests
use Prim.Native.Nat.{bit_and}
use enml.Base.{
  ℕ, zero, suc, ◌+◌, ◌-◌, ltb, leb, ◌==◌, if◌then◌else◌, Bool, true, false, ◌&&◌, ◌||◌, not, Option,
  none, some, List, [], ◌∷◌, map, Result, ok, err, replicate, inc64, sub64, get_elem?, set, length,
}
use enml.Table.{Keyed, hits, find, modify, place, clear_where, count_where, exists_where}

pub data CapabilityError : Type 0 where
  invalid_capability_id unknown_capability capability_limit not_holder : CapabilityError
  not_transferable rights_escalation derivation_too_deep self_addressed : CapabilityError
  invalid_object_id not_revocable identifier_exhausted invalid_holder : CapabilityError

abbrev pub max_capabilities : ℕ
max_capabilities = 256

abbrev pub max_derivation_depth : ℕ
max_derivation_depth = 8

abbrev pub all_rights : ℕ
all_rights = 0xFFFF_FFFF

abbrev pub max_address_space_epochs : ℕ
max_address_space_epochs = 63

pub record AddressSpaceIdentity : Type 0 where
  pub slot : ℕ
  pub generation : ℕ

abbrev pub is_valid_identity : AddressSpaceIdentity → Bool
is_valid_identity i = ltb i.slot max_address_space_epochs && not (i.generation == 0)

abbrev pub same_identity : AddressSpaceIdentity → AddressSpaceIdentity → Bool
same_identity i j = i.slot == j.slot && i.generation == j.generation

pub record ExecutionAuthority : Type 0 where
  pub thread : ℕ
  pub address_space : AddressSpaceIdentity

abbrev pub is_valid_authority : ExecutionAuthority → Bool
is_valid_authority x = not (x.thread == 0) && is_valid_identity x.address_space

pub record Slot : Type 0 where
  pub id : ℕ
  pub parent : ℕ
  pub object : ℕ
  pub rights : ℕ
  pub holder : ℕ
  pub parent_slot : ℕ
  pub transferable : Bool
  pub depth : ℕ
  pub occupied : Bool
  pub doomed : Bool
  pub holder_address_space : AddressSpaceIdentity
  pub context_bound : Bool

instance abbrev pub slot_keyed : Keyed Slot
slot_keyed = record { live = λ a. a.occupied; key = λ a. a.id }

pub record CapabilityTable : Type 0 where
  pub slots : List Slot
  pub occupied : ℕ
  pub next_id : ℕ

abbrev pub no_identity : AddressSpaceIdentity
no_identity = record { slot = 0; generation = 0 }

abbrev pub empty_slot : Slot
empty_slot = record {
  id = 0;
  parent = 0;
  object = 0;
  rights = 0;
  holder = 0;
  parent_slot = 0;
  transferable = false;
  depth = 0;
  occupied = false;
  doomed = false;
  holder_address_space = no_identity;
  context_bound = false;
}

unfoldable pub init : CapabilityTable
init = record { slots = replicate max_capabilities empty_slot; occupied = 0; next_id = 1 }

-- Who exercises a capability: a thread by its number (the older calls), or a thread with the exact
-- generation of its address space.
pub data Claimant : Type 0 where
  legacy : ℕ → Claimant
  bound : ExecutionAuthority → Claimant

-- Whether the claimant is well-formed.
abbrev pub is_claimant : Claimant → Bool
is_claimant (legacy thread) = not (thread == 0)
is_claimant (bound x) = is_valid_authority x

abbrev pub thread_of : Claimant → ℕ
thread_of (legacy thread) = thread
thread_of (bound x) = x.thread

-- `held_by`, and its counterpart for a thread number.
abbrev pub held_by : Slot → Claimant → Bool
held_by a (legacy thread) = not a.context_bound && a.holder == thread
held_by a (bound x) =
    a.context_bound
    && is_valid_authority x
    && a.holder == x.thread
    && same_identity a.holder_address_space x.address_space

unfoldable pub holds : Claimant → ℕ → CapabilityTable → Bool
holds claimant capability t =
    is_claimant claimant
    && elim (find capability t.slots) [ none ↦ false | some a ↦ held_by a claimant ]

-- The slot that a capability is derived from, by its index; none where the slot was reused.
unfoldable pub parent_of : Slot → List Slot → Option Slot
parent_of a slots = if a.parent == 0 then none else elim (get_elem? slots a.parent_slot) [
  | none ↦ none
  | some p ↦ if not p.occupied || not (p.id == a.parent) then none else some p
]

-- The new slot of `mint` and of `grant`.
abbrev pub address_space_of : Claimant → AddressSpaceIdentity
address_space_of (legacy thread) = no_identity
address_space_of (bound x) = x.address_space

abbrev pub is_bound : Claimant → Bool
is_bound (legacy thread) = false
is_bound (bound x) = true

abbrev pub new_slot : ℕ → ℕ → ℕ → ℕ → Claimant → ℕ → Bool → ℕ → Slot
new_slot id parent object rights holder parent_slot transferable depth = record {
  id = id;
  parent = parent;
  object = object;
  rights = rights;
  holder = thread_of holder;
  parent_slot = parent_slot;
  transferable = transferable;
  depth = depth;
  occupied = true;
  doomed = false;
  holder_address_space = address_space_of holder;
  context_bound = is_bound holder;
}

-- The loop that both `mint` and both `grant` end in.
abbrev pub allocate : Slot → CapabilityTable → CapabilityTable × Result CapabilityError ℕ
allocate a t = elim (place a t.slots) [
  | none ↦ (t, err capability_limit)
  | some slots ↦
      (record { slots = slots; occupied = inc64 t.occupied; next_id = inc64 t.next_id }, ok a.id)
]

unfoldable pub mint :
    Claimant → ℕ → ℕ → Bool → CapabilityTable → CapabilityTable × Result CapabilityError ℕ
mint holder object rights transferable t =
    if not (is_claimant holder)
    then (t, err invalid_holder)
    else if object == 0
    then (t, err invalid_object_id)
    else if t.next_id == 0
    then (t, err identifier_exhausted)
    else allocate (new_slot t.next_id 0 object rights holder 0 transferable 0) t

-- `rights & ~held`, which is no right where nothing is added.
abbrev pub excess : ℕ → ℕ → ℕ
excess rights held = bit_and rights (all_rights - held)

-- The index of the slot that the search found: `parent - slots_.data()`.
unfoldable pub index_of : ℕ → List Slot → ℕ
index_of k [] = 0
index_of k (a ∷ rest) = if hits k a then 0 else suc (index_of k rest)

unfoldable pub grant :
    Claimant
    → ℕ
    → Claimant
    → ℕ
    → Bool
    → CapabilityTable
    → CapabilityTable × Result CapabilityError ℕ
grant granter capability recipient rights transferable t =
    if not (is_claimant granter) || not (is_claimant recipient)
    then (t, err invalid_holder)
    else if thread_of granter == thread_of recipient
    then (t, err self_addressed)
    else if capability == 0
    then (t, err invalid_capability_id)
    else elim (find capability t.slots) [
      | none ↦ (t, err unknown_capability)
      | some p ↦
          if not (held_by p granter)
          then (t, err not_holder)
          else if not p.transferable
          then (t, err not_transferable)
          else if not (excess rights p.rights == 0)
          then (t, err rights_escalation)
          else if ltb max_derivation_depth (p.depth + 1)
          then (t, err derivation_too_deep)
          else if t.next_id == 0
          then (t, err identifier_exhausted)
          else allocate
              (new_slot t.next_id capability p.object rights recipient (index_of capability t.slots)
                transferable (p.depth + 1))
              t
    ]

pub record CapabilityInfo : Type 0 where
  pub id : ℕ
  pub parent : ℕ
  pub object : ℕ
  pub rights : ℕ
  pub holder : ℕ
  pub transferable : Bool
  pub depth : ℕ
  pub holder_address_space : AddressSpaceIdentity
  pub context_bound : Bool

unfoldable pub describe : ℕ → CapabilityTable → Result CapabilityError CapabilityInfo
describe capability t =
    if capability == 0 then err invalid_capability_id else elim (find capability t.slots) [
      | none ↦ err unknown_capability
      | some a ↦ ok (record {
        id = a.id;
        parent = a.parent;
        object = a.object;
        rights = a.rights;
        holder = a.holder;
        transferable = a.transferable;
        depth = a.depth;
        holder_address_space = a.holder_address_space;
        context_bound = a.context_bound;
      })
    ]

unfoldable pub count_held_by : ℕ → CapabilityTable → ℕ
count_held_by holder t = if holder == 0 then 0 else count_where (λ a. a.holder == holder) t.slots
