-- ===== src/Format.antt =====
-- src/format.rs: the `.rings` index. A 64-byte header, then a fixed-stride record for each chunk.
-- `add_u64` is `+` on `u64` in a release build; a file's bytes are the list that `Bytes` reads.
pub mod Record
pub mod Header
pub mod Index
pub mod Parse
pub mod Tail
pub mod Last
pub mod Migrate
pub mod Chunk
mod Tests
use timberfs.Prelude.{ℕ, zero, suc, ◌+◌, ◌-◌, ◌*◌, ◌/◌, ◌%◌, ◌^◌, Bool, true, false}
use timberfs.Prelude.{List, [], ◌∷◌, ◌++◌, Option, none, some, length, take, drop, replicate}
use timberfs.Prelude.{ltb, leb, ◌==◌, if◌then◌else◌, not, ◌||◌, min, Result, ok, err, ◌>>=◌}
use timberfs.Bytes.{slice, to_le, from_le, u64_at, bytes_eq}

abbrev pub add_u64 : ℕ → ℕ → ℕ
add_u64 a b = (a + b) % 2 ^ 64

-- "RING0002" and "RING0001"
abbrev pub rings_magic : List ℕ
rings_magic = b'R' ∷ b'I' ∷ b'N' ∷ b'G' ∷ b'0' ∷ b'0' ∷ b'0' ∷ b'2' ∷ []

abbrev pub rings_magic_v1 : List ℕ
rings_magic_v1 = b'R' ∷ b'I' ∷ b'N' ∷ b'G' ∷ b'0' ∷ b'0' ∷ b'0' ∷ b'1' ∷ []

abbrev pub rings_header_len : ℕ
rings_header_len = 64

abbrev pub rings_header_min : ℕ
rings_header_min = 32

abbrev pub record_len : ℕ
record_len = 56

abbrev pub rings_header_len_v1 : ℕ
rings_header_len_v1 = 8

abbrev pub record_len_v1 : ℕ
record_len_v1 = 48

abbrev pub store_id_off : ℕ
store_id_off = 48

pub data RingsVersion : Type 0 where
  v1 v2 : RingsVersion

pub record ChunkRecord : Type 0 where
  pub uncomp_start : ℕ
  pub uncomp_len : ℕ
  pub comp_start : ℕ
  pub comp_len : ℕ
  pub first_write_ms : ℕ
  pub last_write_ms : ℕ
  pub seq : ℕ

unfoldable pub uncomp_end : ChunkRecord → ℕ
uncomp_end c = add_u64 c.uncomp_start c.uncomp_len

unfoldable pub comp_end : ChunkRecord → ℕ
comp_end c = add_u64 c.comp_start c.comp_len

unfoldable pub to_bytes : ChunkRecord → List ℕ
to_bytes c =
    to_le 8 c.uncomp_start
    ++ (to_le 8 c.uncomp_len
        ++ (to_le 8 c.comp_start
            ++ (to_le 8 c.comp_len
                ++ (to_le 8 c.first_write_ms ++ (to_le 8 c.last_write_ms ++ to_le 8 c.seq)))))

unfoldable pub from_bytes : List ℕ → ChunkRecord
from_bytes b = record {
  uncomp_start = u64_at 0 b;
  uncomp_len = u64_at 8 b;
  comp_start = u64_at 16 b;
  comp_len = u64_at 24 b;
  first_write_ms = u64_at 32 b;
  last_write_ms = u64_at 40 b;
  seq = u64_at 48 b;
}

unfoldable pub from_bytes_v1 : List ℕ → ℕ → ChunkRecord
from_bytes_v1 b n = record {
  uncomp_start = u64_at 0 b;
  uncomp_len = u64_at 8 b;
  comp_start = u64_at 16 b;
  comp_len = u64_at 24 b;
  first_write_ms = u64_at 32 b;
  last_write_ms = u64_at 40 b;
  seq = n;
}

-- What has left the store over its whole life; the default is all zero.
pub record Dropped : Type 0 where
  pub uncomp_bytes : ℕ
  pub comp_bytes : ℕ

abbrev pub no_drops : Dropped
no_drops = record { uncomp_bytes = 0; comp_bytes = 0 }

-- The 16 bytes of the id, zeros where there is none.
abbrev pub id_field : Option (List ℕ) → List ℕ
id_field none = replicate 16 0
id_field (some id) = id

unfoldable pub rings_header : ℕ → Dropped → Option (List ℕ) → List ℕ
rings_header next_seq dropped id =
    rings_magic
    ++ (to_le 8 rings_header_len
        ++ (to_le 8 0
            ++ (to_le 8 next_seq
                ++ (to_le 8 dropped.uncomp_bytes ++ (to_le 8 dropped.comp_bytes ++ id_field id)))))

-- Shared by the header readers: shorter than `needed`, or another magic.
abbrev not_header : ℕ → List ℕ → Bool
not_header needed buf = ltb (length buf) needed || not (bytes_eq (take 8 buf) rings_magic)

unfoldable pub header_store_id : List ℕ → Option (List ℕ)
unfolding bytes_eq
header_store_id buf =
    let id = slice store_id_off 16 buf in
    if not_header (store_id_off + 16) buf
    then none
    else if ltb (u64_at 8 buf) (store_id_off + 16)
    then none
    else if bytes_eq id (replicate 16 0)
    then none
    else some id

unfoldable pub header_dropped : List ℕ → Dropped
unfolding bytes_eq
header_dropped buf =
    if not_header 48 buf
    then no_drops
    else if ltb (u64_at 8 buf) 48
    then no_drops
    else record { uncomp_bytes = u64_at 32 buf; comp_bytes = u64_at 40 buf }

unfoldable pub header_next_seq : List ℕ → ℕ
unfolding bytes_eq
header_next_seq buf = if not_header rings_header_min buf then 0 else u64_at 24 buf

-- `io::ErrorKind::InvalidData` with its three messages
pub data Error : Type 0 where
  bad_magic : Error
  impossible_header : ℕ → Error
  unsupported : ℕ → Error

pub record Layout : Type 0 where
  pub version : RingsVersion
  pub header : ℕ
  pub rec_len : ℕ

-- The v2 arm of the match in `index_layout`.
unfoldable pub layout_v2 : List ℕ → ℕ → Result Error Layout
layout_v2 prefix total_len =
    let declared = u64_at 8 prefix in
    let incompat = u64_at 16 prefix in
    if ltb (length prefix) rings_header_min
    then err bad_magic
    else if ltb declared rings_header_min || ltb total_len declared
    then err (impossible_header declared)
    else if not (incompat == 0)
    then err (unsupported incompat)
    else ok (record { version = v2; header = declared; rec_len = record_len })

abbrev layout_v1 : Layout
layout_v1 = record { version = v1; header = rings_header_len_v1; rec_len = record_len_v1 }

unfoldable pub index_layout : List ℕ → ℕ → Result Error Layout
unfolding layout_v2 bytes_eq
index_layout prefix total_len =
    if ltb (length prefix) rings_header_len_v1
    then err bad_magic
    else if bytes_eq (take 8 prefix) rings_magic
    then layout_v2 prefix total_len
    else if bytes_eq (take 8 prefix) rings_magic_v1
    then ok layout_v1
    else err bad_magic

unfoldable pub decode_record : RingsVersion → List ℕ → ℕ → ChunkRecord
unfolding from_bytes from_bytes_v1
decode_record v2 b i = from_bytes b
decode_record v1 b i = from_bytes_v1 b i

-- `for i in i..i + n`: record `i` stands at `off`.
unfoldable pub records_loop : RingsVersion → ℕ → ℕ → ℕ → ℕ → List ℕ → List ChunkRecord
unfolding decode_record
records_loop version rec_len zero i off buf = []
records_loop version rec_len (suc n) i off buf =
    decode_record version (slice off rec_len buf) i
    ∷ records_loop version rec_len n (i + 1) (off + rec_len) buf

unfoldable pub parse_index_versioned : List ℕ → Result Error (List ChunkRecord × RingsVersion)
unfolding index_layout records_loop
parse_index_versioned buf = do
  l ← index_layout buf (length buf)
  let n = (length buf - l.header) / l.rec_len
  ok (records_loop l.version l.rec_len n 0 l.header buf, l.version)

-- The tail of `index_from`, once the layout and the count are known: nothing is read where the start
-- is past the end, and otherwise one slice of the file.
unfoldable pub read_tail : Layout → List ℕ → ℕ → ℕ → ℕ × List ChunkRecord
unfolding records_loop
read_tail l file n from =
    let buf = slice (l.header + from * l.rec_len) ((n - from) * l.rec_len) file in
    if leb n from then (n, []) else (n, records_loop l.version l.rec_len (n - from) from 0 buf)

-- The file is read in two parts, its first 64 bytes at most and the tail of the records.
unfoldable pub index_from : List ℕ → (ℕ → ℕ) → Result Error (ℕ × List ChunkRecord)
unfolding index_layout read_tail
index_from file start = do
  let total = length file
  l ← index_layout (take (min total rings_header_len) file) total
  let n = (total - l.header) / l.rec_len
  ok (read_tail l file n (start n))
