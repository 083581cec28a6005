-- ===== src/Protobuf/Skip.antt =====
-- `skip` of src/protobuf.rs, and the fields of a message that a reader may meet and not know.
use timberfs.Prelude.{ℕ, ◌≤◌, ◌<◌, ◌≡◌, List, [], ◌∷◌, ◌++◌, length, All}
use timberfs.Bytes.{IsU64}
use timberfs.Protobuf.{put_varint, wire_varint, wire_64bit, wire_len, wire_32bit}

-- The body of a field in the four shapes of the format, from whichever encoder: a varint as the bytes
-- that announce another one and then the last byte, eight bytes, four bytes, or bytes behind their
-- length.
pub data Unknown : Type 0 where
  varint : List ℕ → ℕ → Unknown
  fixed64 fixed32 blob : List ℕ → Unknown

abbrev pub wire_of : Unknown → ℕ
wire_of (varint more last) = wire_varint
wire_of (fixed64 b) = wire_64bit
wire_of (fixed32 b) = wire_32bit
wire_of (blob b) = wire_len

unfoldable pub body_of : Unknown → List ℕ
unfolding put_varint
body_of (varint more last) = more ++ (last ∷ [])
body_of (fixed64 b) = b
body_of (fixed32 b) = b
body_of (blob b) = put_varint (length b) ++ b

-- A varint has ten bytes at most. Nothing is asked of its value, which may not fit in 64 bits, nor
-- that it is written in as few bytes as it could be.
abbrev pub IsUnknown : Unknown → Type 0
IsUnknown (varint more last) = All (λ b. 128 ≤ b) more × (length more ≤ 9) × (last < 128)
IsUnknown (fixed64 b) = length b ≡ 8
IsUnknown (fixed32 b) = length b ≡ 4
IsUnknown (blob b) = IsU64 (length b)
