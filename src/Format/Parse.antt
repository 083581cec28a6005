-- ===== src/Format/Parse.antt =====
-- A whole `.rings` file: any header that declares its own length, then the records, then a torn
-- record that a crash left.
use timberfs.Prelude.{ℕ, ◌+◌, ◌-◌, ◌/◌, ◌<◌, ◌≤◌, ◌≡◌, ap, List, [], ◌++◌, length, All, arith}
use timberfs.Prelude.{length-append, sym, ok, err, ◌≢◌, Option}
use timberfs.Bytes.{IsU64, to_le}
use timberfs.Bytes.LittleEndian.{from_le-u64}
use timberfs.Format.{
  ChunkRecord, Dropped, unsupported, rings_magic, rings_header, record_len, index_layout, v2,
  records_loop, parse_index_versioned, id_field,
}
use timberfs.Format.Record.{IsRecord}
use timberfs.Format.Index.{encode, length-encode, records_loop-encode}
use timberfs.Format.Header.{IsHeader, length-rings_header}

-- A v2 header with the given flag bits that declares `24 + length pad` bytes.
abbrev pub header_of : ℕ → List ℕ → List ℕ
header_of flags pad = rings_magic ++ (to_le 8 (24 + length pad) ++ (to_le 8 flags ++ pad))

pub index_layout-header_of :
    (pad rest : List ℕ)
    → 8 ≤ length pad
    → IsU64 (24 + length pad)
    → index_layout (header_of 0 pad ++ rest) (length (header_of 0 pad ++ rest))
      ≡ ok (record { version = v2; header = 24 + length pad; rec_len = record_len })
unfolding index_layout to_le
index_layout-header_of pad rest h k =
    ground
      (arith, length-append pad rest, from_le-u64 (24 + length pad) k, from_le-u64 0 (omega arith))

index_layout-rings_header :
    (n : ℕ) (d : Dropped) (id : Option (List ℕ)) (rest : List ℕ)
    → IsHeader n d id
    → index_layout (rings_header n d id ++ rest) (length (rings_header n d id ++ rest))
      ≡ ok (record { version = v2; header = 64; rec_len = record_len })
unfolding index_layout rings_header to_le
index_layout-rings_header n d id rest h = ground (
  arith,
  length-append (id_field id) rest,
  h.id_len,
  from_le-u64 64 (omega arith),
  from_le-u64 0 (omega arith),
)

parse_index-layout :
    (head : List ℕ) (len : ℕ) (rs : List ChunkRecord) (torn : List ℕ)
    → len ≡ length head
    → All IsRecord rs
    → length torn < record_len
    → index_layout (head ++ (encode rs ++ torn)) (length (head ++ (encode rs ++ torn)))
      ≡ ok (record { version = v2; header = len; rec_len = record_len })
    → parse_index_versioned (head ++ (encode rs ++ torn)) ≡ ok (rs, v2)
unfolding parse_index_versioned
parse_index-layout head len rs torn hl h short e = rw e (ap (λ t. ok (t, v2)) whole)
  where
    count : (length (head ++ (encode rs ++ torn)) - len) / record_len ≡ length rs
    count = omega (
      arith,
      length-append head (encode rs ++ torn),
      length-append (encode rs) torn,
      length-encode rs,
      short,
      hl,
    )

    whole :
        records_loop v2 record_len
          ((length (head ++ (encode rs ++ torn)) - len) / record_len)
          0
          len
          (head ++ (encode rs ++ torn))
        ≡ rs
    whole = rw count (records_loop-encode rs 0 len head torn h hl)

-- A `.rings` file with a header this version writes and any records, followed by fewer than 56
-- bytes of a record that a crash cut short, parses to exactly those records, in the v2 layout.
pub parse_index-encode :
    (n : ℕ) (d : Dropped) (id : Option (List ℕ)) (rs : List ChunkRecord) (torn : List ℕ)
    → IsHeader n d id
    → All IsRecord rs
    → length torn < record_len
    → parse_index_versioned (rings_header n d id ++ (encode rs ++ torn)) ≡ ok (rs, v2)
parse_index-encode n d id rs torn hh h short =
    parse_index-layout (rings_header n d id) 64 rs torn (sym (length-rings_header n d id hh [])) h
      short (index_layout-rings_header n d id (encode rs ++ torn) hh)

-- A header of a later version that declares a greater length, with no incompatible flag, is read
-- past at its own length: the records behind it, and no others, are returned.
pub parse_index-longer_header :
    (pad : List ℕ) (rs : List ChunkRecord) (torn : List ℕ)
    → 8 ≤ length pad
    → IsU64 (24 + length pad)
    → All IsRecord rs
    → length torn < record_len
    → parse_index_versioned (header_of 0 pad ++ (encode rs ++ torn)) ≡ ok (rs, v2)
unfolding to_le
parse_index-longer_header pad rs torn h k hr short =
    parse_index-layout (header_of 0 pad) (24 + length pad) rs torn (omega arith) hr short
      (index_layout-header_of pad (encode rs ++ torn) h k)

-- A v2 header that is long enough and declares a possible length, but sets any incompatible flag,
-- is refused with those flags, whatever follows it.
pub parse_index-incompat :
    (flags : ℕ) (pad rest : List ℕ)
    → 8 ≤ length pad
    → IsU64 (24 + length pad)
    → IsU64 flags
    → flags ≢ 0
    → parse_index_versioned (header_of flags pad ++ rest) ≡ err (unsupported flags)
unfolding parse_index_versioned to_le
parse_index-incompat flags pad rest h k hf ne =
    ground
      (arith, length-append pad rest, from_le-u64 (24 + length pad) k, from_le-u64 flags hf, ne)
