-- ===== src/Sap.antt =====
-- src/sap.rs: the write-ahead sidecar. A 24-byte header, then a checksummed record for each entry.
pub mod Record
pub mod Crash
pub mod Segment
pub mod Resume
pub mod Found
pub mod Sound
mod Tests
use timberfs.Prelude.{ℕ, zero, suc, ◌+◌, ◌-◌, ◌/◌, ◌%◌, ◌^◌, bit_and, bit_xor, Bool, true, false}
use timberfs.Prelude.{List, [], ◌∷◌, ◌++◌, Option, none, some, length, take, drop, concat, map}
use timberfs.Prelude.{ltb, ◌==◌, if◌then◌else◌, not, ◌||◌, get_elem?}
use timberfs.Bytes.{slice, to_le, from_le, u64_at, u32_at, bytes_eq, write_at, set_len}

-- "SAP00001"
abbrev pub sap_magic : List ℕ
sap_magic = b'S' ∷ b'A' ∷ b'P' ∷ b'0' ∷ b'0' ∷ b'0' ∷ b'0' ∷ b'1' ∷ []

abbrev pub header_len : ℕ
header_len = 24

abbrev pub record_header_len : ℕ
record_header_len = 20

-- The inner loop of `build_crc32_table`, `j` rounds.
crc32_round : ℕ → ℕ → ℕ
crc32_round zero c = c
crc32_round (suc j) c =
    crc32_round j (if bit_and c 1 == 0 then c / 2 else bit_xor 0xEDB88320 (c / 2))

-- Entries `i` to `i + n - 1` of the table.
table_from : ℕ → ℕ → List ℕ
unfolding crc32_round
table_from zero i = []
table_from (suc n) i = crc32_round 8 i ∷ table_from n (i + 1)

build_crc32_table : List ℕ
unfolding table_from
build_crc32_table = table_from 256 0

-- `CRC32_TABLE[idx]`; the index is at most 255.
table_entry : ℕ → ℕ
unfolding build_crc32_table
table_entry idx = elim (get_elem? build_crc32_table idx) [ none ↦ 0 | some v ↦ v ]

crc32_loop : ℕ → List ℕ → ℕ
unfolding table_entry
crc32_loop crc [] = crc
crc32_loop crc (b ∷ bs) =
    crc32_loop (bit_xor (table_entry (bit_and (bit_xor crc b) 0xFF)) (crc / 256)) bs

-- `!crc` of a `u32`
unfoldable pub crc32 : List ℕ → ℕ
unfolding crc32_loop
crc32 bytes = 0xFFFFFFFF - crc32_loop 0xFFFFFFFF bytes

pub record SapEntry : Type 0 where
  pub wf : ℕ
  pub wl : ℕ
  pub payload : List ℕ

unfoldable pub header_bytes : ℕ → ℕ → List ℕ
header_bytes base uncomp_base = sap_magic ++ (to_le 8 base ++ to_le 8 uncomp_base)

-- The record's header and payload, which the checksum covers.
unfoldable pub record_body : SapEntry → List ℕ
record_body e = to_le 4 (length e.payload % 2 ^ 32) ++ (to_le 8 e.wf ++ (to_le 8 e.wl ++ e.payload))

unfoldable pub encode_record : SapEntry → List ℕ
unfolding record_body
encode_record e = record_body e ++ to_le 4 (crc32 (record_body e))

-- The loop of `parse_records`, from the offset `off`; each round takes 24 bytes at least. It returns
-- the entries and the offset where it stopped.
unfoldable pub parse_loop : ℕ → ℕ → List ℕ → List SapEntry × ℕ
parse_loop zero off buf = ([], off)
parse_loop (suc fuel) off buf =
    let len = u32_at off buf in
    let total = record_header_len + len + 4 in
    let head_and_payload = slice off (record_header_len + len) buf in
    let stored_crc = u32_at (off + record_header_len + len) buf in
    let entry : SapEntry = record {
      wf = u64_at (off + 4) buf;
      wl = u64_at (off + 12) buf;
      payload = slice (off + record_header_len) len buf;
    } in
    let later = parse_loop fuel (off + total) buf in
    if ltb (length buf) (off + 4)
    then ([], off)
    else if ltb (length buf) (off + total)
    then ([], off)
    else if not (crc32 head_and_payload == stored_crc)
    then ([], off)
    else (entry ∷ later.0, later.1)

unfoldable pub parse_records : List ℕ → List SapEntry × ℕ
unfolding parse_loop
parse_records buf = parse_loop (length buf) 0 buf

pub record SapReplay : Type 0 where
  pub base : ℕ
  pub uncomp_base : ℕ
  pub entries : List SapEntry
  pub valid_len : ℕ

-- `replay` of a path: `none` for a file that does not exist. A file with no valid header is removed.
-- The result is what was recovered, and the file as it is afterwards.
unfoldable pub replay : Option (List ℕ) → Option SapReplay × Option (List ℕ)
unfolding parse_records bytes_eq
replay none = (none, none)
replay (some buf) =
    let parsed = parse_records (drop header_len buf) in
    if ltb (length buf) header_len || not (bytes_eq (take 8 buf) sap_magic) then (none, none) else (
      some (record {
        base = u64_at 8 buf;
        uncomp_base = u64_at 16 buf;
        entries = parsed.0;
        valid_len = header_len + parsed.1;
      }),
      some buf,
    )

-- A live segment: all bytes written to it, how many of them have left the `BufWriter` for the file
-- and how many are on disk, and its two bases.
pub record Sap : Type 0 where
  pub bytes : List ℕ
  pub flushed : ℕ
  pub synced : ℕ
  pub base : ℕ
  pub uncomp_base : ℕ

unfoldable pub create : ℕ → ℕ → Sap
unfolding header_bytes
create base uncomp_base = record {
  bytes = header_bytes base uncomp_base;
  flushed = header_len;
  synced = 0;
  base = base;
  uncomp_base = uncomp_base;
}

-- `resume` of a file that holds `file`.
unfoldable pub resume : List ℕ → ℕ → ℕ → ℕ → Sap
unfolding set_len
resume file base uncomp_base valid_len = record {
  bytes = set_len valid_len file;
  flushed = valid_len;
  synced = 0;
  base = base;
  uncomp_base = uncomp_base;
}

unfoldable pub append : SapEntry → Sap → Sap
unfolding encode_record
append e s = record s { bytes = s.bytes ++ encode_record e }

unfoldable pub flush : Sap → Sap
flush s = record s { flushed = length s.bytes }

unfoldable pub sync : Sap → Sap
sync s = record s { flushed = length s.bytes; synced = length s.bytes }

-- The bases are written in place; `sync_all` makes durable what has left the `BufWriter`.
unfoldable pub refresh_base : ℕ → ℕ → Sap → Sap
unfolding write_at
refresh_base new_base new_uncomp s = record s {
  bytes = write_at s.bytes 8 (to_le 8 new_base ++ to_le 8 new_uncomp);
  synced = s.flushed;
  base = new_base;
  uncomp_base = new_uncomp;
}
