-- ===== src/Protobuf.antt =====
-- src/protobuf.rs: the protobuf wire codec. A `Reader` is the bytes from its position on, and a
-- `Writer` method gives the bytes that it adds.
pub mod Varint
pub mod Field
pub mod Skip
mod Tests
use timberfs.Prelude.{
  ℕ, zero, suc, ◌+◌, ◌-◌, ◌*◌, ◌/◌, ◌%◌, ◌^◌, List, [], ◌∷◌, ◌++◌, length, take, drop,
}
use timberfs.Prelude.{Result, ok, err, ltb, leb, ◌==◌, if◌then◌else◌, ◌>>=◌}
use timberfs.Bytes.{to_le, from_le}

pub data Error : Type 0 where
  truncated_varint overflow zero_field past_message truncated_fixed : Error
  unsupported_wire : ℕ → Error

abbrev pub wire_varint : ℕ
wire_varint = 0

abbrev pub wire_64bit : ℕ
wire_64bit = 1

abbrev pub wire_len : ℕ
wire_len = 2

abbrev pub wire_32bit : ℕ
wire_32bit = 5

-- The loop of `Reader::varint` with `out` and `shift`. The shifted bits of `out` are zero, so `|=` is
-- `+`; bits that are shifted past the 64th are lost. `shift` grows by 7 and stops the loop at 64.
unfoldable pub varint_loop : ℕ → ℕ → List ℕ → Result Error (ℕ × List ℕ)
varint_loop out shift [] = err truncated_varint
varint_loop out shift (b ∷ rest) =
    let out' = (out + (b % 128) * 2 ^ shift) % 2 ^ 64 in
    let later = varint_loop out' (shift + 7) rest in
    if ltb b 128 then ok (out', rest) else if leb 64 (shift + 7) then err overflow else later

unfoldable pub read_varint : List ℕ → Result Error (ℕ × List ℕ)
unfolding varint_loop
read_varint buf = varint_loop 0 0 buf

-- Field number and wire type of the next field; `as u32` cuts the number.
unfoldable pub read_key : List ℕ → Result Error ((ℕ × ℕ) × List ℕ)
unfolding read_varint
read_key buf = do
  (k, rest) ← read_varint buf
  if (k / 8) % 2 ^ 32 == 0 then err zero_field else ok (((k / 8) % 2 ^ 32, k % 8), rest)

unfoldable pub read_bytes : List ℕ → Result Error (List ℕ × List ℕ)
unfolding read_varint
read_bytes buf = do
  (len, rest) ← read_varint buf
  if ltb (length rest) len then err past_message else ok (take len rest, drop len rest)

-- `fixed64` and `fixed32`, of 8 and 4 bytes.
unfoldable pub read_fixed : ℕ → List ℕ → Result Error (ℕ × List ℕ)
read_fixed n buf =
    if ltb (length buf) n then err truncated_fixed else ok (from_le (take n buf), drop n buf)

-- `skip` by the wire type; the result is what follows the field.
unfoldable pub skip : ℕ → List ℕ → Result Error (List ℕ)
unfolding read_varint read_fixed read_bytes
skip wire buf =
    if wire == wire_varint
    then (read_varint buf >>= λ p. ok p.1)
    else if wire == wire_64bit
    then (read_fixed 8 buf >>= λ p. ok p.1)
    else if wire == wire_len
    then (read_bytes buf >>= λ p. ok p.1)
    else if wire == wire_32bit
    then (read_fixed 4 buf >>= λ p. ok p.1)
    else err (unsupported_wire wire)

-- The loop of `put_varint`; ten rounds are enough for 64 bits.
unfoldable pub varint_rounds : ℕ → ℕ → List ℕ
varint_rounds zero v = []
varint_rounds (suc fuel) v =
    let rest = varint_rounds fuel (v / 128) in
    if v / 128 == 0 then v % 128 ∷ [] else (v % 128 + 128) ∷ rest

unfoldable pub put_varint : ℕ → List ℕ
unfolding varint_rounds
put_varint v = varint_rounds 10 v

-- `(field << 3) | wire`, for a wire type below 8.
unfoldable pub put_key : ℕ → ℕ → List ℕ
unfolding put_varint
put_key field wire = put_varint (field * 8 + wire)

unfoldable pub varint_field : ℕ → ℕ → List ℕ
unfolding put_key put_varint
varint_field field v = put_key field wire_varint ++ put_varint v

unfoldable pub fixed64_field : ℕ → ℕ → List ℕ
unfolding put_key to_le
fixed64_field field v = put_key field wire_64bit ++ to_le 8 v

unfoldable pub bytes_field : ℕ → List ℕ → List ℕ
unfolding put_key put_varint
bytes_field field b = put_key field wire_len ++ (put_varint (length b) ++ b)

-- A nested message is built into its own buffer first.
unfoldable pub message_field : ℕ → List ℕ → List ℕ
unfolding bytes_field
message_field field inner = bytes_field field inner
