-- ===== src/Objects/Kinds.antt =====
-- A capability over an object of one kind is never taken for one of another kind, and the identity
-- of a space or a grant is read back from its identifier (core/oskernel/src/kernel.cpp).
use Prim.Native.Nat.{bit_and, bit_or}
use enml.Base.{ℕ, ◌+◌, ◌*◌, ◌^◌, ◌<◌, true, ◌≡◌, ◌≢◌, refl, arith}
use enml.Capability.{AddressSpaceIdentity, is_valid_identity}
use enml.Grants.{MemoryGrantIdentity}
use enml.Grants
use enml.Objects.{
  tag_of, slot_of, generation_of, interrupt_object_id, address_space_object_id,
  memory_grant_object_id, interrupt_object_tag, address_space_object_tag, memory_grant_object_tag,
}
use enml.Base.Bits.{shifted_or, masked_high}
use enml.Objects.Fields.{built_layout, slot_of-layout, generation_of-layout, tag_of-layout}

-- The identifier has the tag and gives back the slot and the generation.
abbrev pub IsRead : ℕ → ℕ → ℕ → ℕ → Type 0
IsRead object tag slot generation =
    (tag_of object ≡ tag) × (slot_of object ≡ slot) × (generation_of object ≡ generation)

layout-IsRead :
    (tag generation slot : ℕ)
    → tag < 0x1_0000
    → generation < 2 ^ 32
    → slot < 0x1_0000
    → IsRead
        (bit_or (bit_or (tag * 0x1_0000_0000_0000) (generation * 2 ^ 16)) slot)
        (bit_and tag 0xFFFF * 0x1_0000_0000_0000)
        slot
        generation
layout-IsRead tag generation slot t g s =
    let e = built_layout tag generation slot g s in
    (
      ground (arith, e, tag_of-layout tag generation slot g s),
      ground (arith, e, slot_of-layout tag generation slot g s),
      ground (arith, e, generation_of-layout tag generation slot g s),
    )

-- The identity of a valid space is read back from its identifier, under the tag of spaces, and that
-- of a valid grant under the tag of grants.
pub object_ids-IsRead :
    (i : AddressSpaceIdentity) (g : MemoryGrantIdentity)
    → is_valid_identity i ≡ true
    → i.generation < 2 ^ 32
    → Grants.is_valid_identity g ≡ true
    → g.generation < 2 ^ 32
    → IsRead (address_space_object_id i) address_space_object_tag i.slot i.generation
      × IsRead (memory_grant_object_id g) memory_grant_object_tag g.slot g.generation
unfolding address_space_object_id memory_grant_object_id
object_ids-IsRead i g v a w b = (
  ground (arith, layout-IsRead 0xADD5 i.generation i.slot (omega arith) a (ground arith)),
  ground (arith, layout-IsRead 0x0E1F g.generation g.slot (omega arith) b (ground arith)),
)

interrupt_tagged :
    (source : ℕ)
    → source ≢ 0
    → source < 2 ^ 32
    → tag_of (interrupt_object_id source) ≡ interrupt_object_tag
unfolding interrupt_object_id
interrupt_tagged source n s = ground (
  arith,
  shifted_or 48 0x1EC0 source 0x1EC0_0000_0000_0000 refl (omega arith),
  masked_high 48 0x1EC0 source 0xFFFF (0x1EC0_0000_0000_0000 + source) 0xFFFF_0000_0000_0000 refl
      refl (omega arith),
)

-- The identifiers of a valid interrupt source, a valid space and a valid grant are all different.
pub object_ids_apart :
    (source : ℕ) (i : AddressSpaceIdentity) (g : MemoryGrantIdentity)
    → source ≢ 0
    → source < 2 ^ 32
    → is_valid_identity i ≡ true
    → i.generation < 2 ^ 32
    → Grants.is_valid_identity g ≡ true
    → g.generation < 2 ^ 32
    → (interrupt_object_id source ≢ address_space_object_id i)
      × (interrupt_object_id source ≢ memory_grant_object_id g)
      × (address_space_object_id i ≢ memory_grant_object_id g)
object_ids_apart source i g n s v a w b =
    let t = interrupt_tagged source n s in
    let r = object_ids-IsRead i g v a w b in ground (arith, t, r.0.0, r.1.0)
