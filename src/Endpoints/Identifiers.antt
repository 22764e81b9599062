-- ===== src/Endpoints/Identifiers.antt =====
-- The identifiers of endpoints, and the messages that go through them
-- (include/os/kernel/ipc_endpoint.hpp, core/oskernel/src/ipc_endpoint.cpp).
use Prim.Native.Nat.{bit_and}
use enml.Base.{
  ℕ, ◌+◌, ◌-◌, ◌*◌, ◌/◌, ◌^◌, ◌≤◌, ◌<◌, List, [], ◌∷◌, ◌++◌, length, replicate, ok, ◌≡◌, ◌≢◌, refl,
  arith,
}
use enml.Base.Bits.{masked_high, masked_low}
use enml.Objects.Fields.{layout, built_layout, slot_of-layout, tag_of-layout}
use enml.Endpoints.{
  IpcEndpoint, IpcEnvelope, ipc_object_id, decode_endpoint_object, envelope_from, view, take_bytes,
  max_ipc_inline_bytes,
}

generation-layout :
    (generation slot : ℕ)
    → generation < 2 ^ 32
    → slot < 0x1_0000
    → bit_and (layout 0xC1C0 generation slot) 0x0000_FFFF_FFFF_0000 / 2 ^ 16 ≡ generation
generation-layout generation slot g s = omega (
  arith,
  masked_high 16 (0xC1C0 * 0x1_0000_0000 + generation) slot 0xFFFF_FFFF
      (layout 0xC1C0 generation slot) 0x0000_FFFF_FFFF_0000 refl refl s,
  masked_low 32 0xC1C0 generation (0xC1C0 * 0x1_0000_0000 + generation) 0xFFFF_FFFF refl refl g,
)

-- An endpoint whose slot is one of the 64 and whose generation is a nonzero number of 32 bits is read
-- back from its identifier.
pub decode_endpoint_object-ipc_object_id :
    (e : IpcEndpoint)
    → e.slot < 64
    → e.generation ≢ 0
    → e.generation < 2 ^ 32
    → decode_endpoint_object (ipc_object_id e) ≡ ok e
unfolding decode_endpoint_object ipc_object_id
decode_endpoint_object-ipc_object_id e s n g =
    let built = built_layout 0xC1C0 e.generation (e.slot + 1) g (omega arith) in
    ground (
      arith,
      built,
      slot_of-layout 0xC1C0 e.generation (e.slot + 1) g (omega arith),
      tag_of-layout 0xC1C0 e.generation (e.slot + 1) g (omega arith),
      generation-layout e.generation (e.slot + 1) g (omega arith),
    )

take_bytes-append : (bytes rest : List ℕ) → take_bytes (length bytes) (bytes ++ rest) ≡ bytes
take_bytes-append [] rest = refl
take_bytes-append (b ∷ bytes) rest = ground (arith, take_bytes-append bytes rest)

-- Bytes that fit an envelope are read back from it, and there are at most 64 of them.
pub view-envelope_from :
    (bytes : List ℕ) (e : IpcEnvelope)
    → envelope_from bytes ≡ ok e
    → (view e ≡ bytes) × (length bytes ≤ max_ipc_inline_bytes)
unfolding envelope_from view
view-envelope_from bytes e h =
    ground (arith, take_bytes-append bytes (replicate (max_ipc_inline_bytes - length bytes) 0))
