-- ===== src/Objects/Fields.antt =====
-- The layout that the object identifiers share: a tag of 16 bits, a generation of 32 and a slot of
-- 16 (include/os/kernel/ipc_endpoint.hpp, address_space_syscall.hpp, memory_grant.hpp).
use Prim.Native.Nat.{bit_and, bit_or}
use enml.Base.{ℕ, ◌+◌, ◌*◌, ◌/◌, ◌^◌, ◌<◌, ◌≡◌, refl, arith}
use enml.Base.Bits.{shifted_or, masked_high, masked_low}
use enml.Objects.{tag_of, slot_of, generation_of}

abbrev pub layout : ℕ → ℕ → ℕ → ℕ
layout tag generation slot = (tag * 0x1_0000_0000 + generation) * 0x1_0000 + slot

module _ (tag generation slot : ℕ) (g : generation < 2 ^ 32) (s : slot < 0x1_0000) where
  pub built_layout :
      bit_or (bit_or (tag * 0x1_0000_0000_0000) (generation * 2 ^ 16)) slot
      ≡ layout tag generation slot
  built_layout =
      let upper : bit_or (tag * 0x1_0000_0000_0000) (generation * 2 ^ 16)
          ≡ (tag * 0x1_0000_0000 + generation) * 0x1_0000 =
        omega (
          arith,
          shifted_or 48 tag (generation * 2 ^ 16) (tag * 0x1_0000_0000_0000) refl (omega arith),
        ) in
      ground (
        arith,
        upper,
        shifted_or 16 (tag * 0x1_0000_0000 + generation) slot
            ((tag * 0x1_0000_0000 + generation) * 0x1_0000) refl s,
      )

  pub slot_of-layout : slot_of (layout tag generation slot) ≡ slot
  slot_of-layout =
      masked_low 16 (tag * 0x1_0000_0000 + generation) slot (layout tag generation slot) 0xFFFF refl
        refl s

  pub generation_of-layout : generation_of (layout tag generation slot) ≡ generation
  generation_of-layout =
      masked_low 32 tag generation (layout tag generation slot / 2 ^ 16) 0xFFFF_FFFF (omega arith)
        refl g

  pub tag_of-layout : tag_of (layout tag generation slot) ≡ bit_and tag 0xFFFF * 0x1_0000_0000_0000
  tag_of-layout =
      masked_high 48 tag (generation * 0x1_0000 + slot) 0xFFFF (layout tag generation slot)
        0xFFFF_0000_0000_0000 (omega arith) refl (omega arith)
