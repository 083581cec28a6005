-- ===== src/Protobuf/Field.antt =====
-- Fields: the key and the value that a `Writer` method writes, and how they are read.
use timberfs.Prelude.{
  ℕ, ◌+◌, ◌*◌, ◌/◌, ◌%◌, ◌^◌, ◌<◌, ◌≡◌, refl, List, ◌++◌, length, arith, ok, Result, ◌>>=◌, le→ltb,
  append_assoc, length-append, take-append_eq, drop-append_eq,
}
use timberfs.Bytes.{IsU64, to_le}
use timberfs.Bytes.LittleEndian.{from_le-u64}
use timberfs.Protobuf.{
  Error, read_varint, read_key, read_bytes, read_fixed, put_varint, put_key, varint_field,
  fixed64_field, bytes_field, wire_varint, wire_64bit, wire_len,
}
use timberfs.Protobuf.Varint.{read_varint-put_varint}

-- What a field holds, as the three methods of `Writer` that are not built on another take it.
pub data Payload : Type 0 where
  number fixed : ℕ → Payload
  blob : List ℕ → Payload

abbrev pub IsPayload : Payload → Type 0
IsPayload (number v) = IsU64 v
IsPayload (fixed v) = IsU64 v
IsPayload (blob b) = IsU64 (length b)

unfoldable pub write : ℕ → Payload → List ℕ
unfolding varint_field fixed64_field bytes_field
write field (number v) = varint_field field v
write field (fixed v) = fixed64_field field v
write field (blob b) = bytes_field field b

abbrev pub wire_of : Payload → ℕ
wire_of (number v) = wire_varint
wire_of (fixed v) = wire_64bit
wire_of (blob b) = wire_len

-- The bytes of the field behind its key.
unfoldable pub body : Payload → List ℕ
unfolding put_varint to_le
body (number v) = put_varint v
body (fixed v) = to_le 8 v
body (blob b) = put_varint (length b) ++ b

-- The field as the method of `Reader` for its shape reads it.
unfoldable pub read : Payload → List ℕ → Result Error (Payload × List ℕ)
unfolding read_varint read_fixed read_bytes
read (number v) buf = read_varint buf >>= λ p. ok (number p.0, p.1)
read (fixed v) buf = read_fixed 8 buf >>= λ p. ok (fixed p.0, p.1)
read (blob b) buf = read_bytes buf >>= λ p. ok (blob p.0, p.1)

pub read_key-put_key :
    (field wire : ℕ) (rest : List ℕ)
    → 0 < field
    → field < 2 ^ 32
    → wire < 8
    → read_key (put_key field wire ++ rest) ≡ ok ((field, wire), rest)
unfolding read_key put_key
read_key-put_key field wire rest h k w =
    rw (read_varint-put_varint (field * 8 + wire) rest (omega (arith, h, k, w)), number, kind)
      (ground (arith, h))
  where
    number : ((field * 8 + wire) / 8) % 2 ^ 32 ≡ field
    number = omega (arith, k, w)

    kind : (field * 8 + wire) % 8 ≡ wire
    kind = omega (arith, w)

pub read_bytes-body :
    (b rest : List ℕ)
    → IsU64 (length b)
    → read_bytes ((put_varint (length b) ++ b) ++ rest) ≡ ok (b, rest)
unfolding read_bytes
read_bytes-body b rest h = rw (
  append_assoc (put_varint (length b)) b rest,
  read_varint-put_varint (length b) (b ++ rest) h,
  le→ltb (length (b ++ rest)) (length b) (omega (arith, length-append b rest)),
  take-append_eq (length b) b rest refl,
  drop-append_eq (length b) b rest refl,
)

read_fixed-to_le :
    (v : ℕ) (rest : List ℕ) → IsU64 v → read_fixed 8 (to_le 8 v ++ rest) ≡ ok (v, rest)
unfolding read_fixed to_le
read_fixed-to_le v rest h = ground (arith, from_le-u64 v h)

split_key : (field : ℕ) (p : Payload) → write field p ≡ put_key field (wire_of p) ++ body p
unfolding write body
split_key field (number v) = refl
split_key field (fixed v) = refl
split_key field (blob b) = refl

module _ (field : ℕ) (p : Payload) (rest : List ℕ) (h : 0 < field) (k : field < 2 ^ 32)
    (valid : IsPayload p) where
  key : read_key (write field p ++ rest) ≡ ok ((field, wire_of p), body p ++ rest)
  key =
      rw (split_key field p, append_assoc (put_key field (wire_of p)) (body p) rest)
        (read_key-put_key field (wire_of p) (body p ++ rest) h k (small p))
    where
      small : (q : Payload) → wire_of q < 8
      small (number v) = omega arith
      small (fixed v) = omega arith
      small (blob b) = omega arith

  -- A field that a `Writer` wrote is read back: its key gives the number and the wire type, and the
  -- method for its shape gives its value and leaves what follows the field.
  pub read-write :
      (read_key (write field p ++ rest) ≡ ok ((field, wire_of p), body p ++ rest))
      × (read p (body p ++ rest) ≡ ok (p, rest))
  unfolding read body
  read-write = (key, go p valid)
    where
      go : (q : Payload) → IsPayload q → read q (body q ++ rest) ≡ ok (q, rest)
      go (number v) u = rw (read_varint-put_varint v rest u)
      go (fixed v) u = rw (read_fixed-to_le v rest u)
      go (blob b) u = rw (read_bytes-body b rest u)
