-- ===== src/Format/Record.antt =====
-- One index record: 56 bytes that read back to it.
use timberfs.Prelude.{◌≡◌, refl, length}
use timberfs.Bytes.{IsU64, to_le}
use timberfs.Bytes.LittleEndian.{from_le-u64}
use timberfs.Format.{ChunkRecord, to_bytes, from_bytes, record_len}

-- Every field fits its `u64`.
pub record IsRecord (c : ChunkRecord) : Type 0 where
  pub uncomp_start : IsU64 c.uncomp_start
  pub uncomp_len : IsU64 c.uncomp_len
  pub comp_start : IsU64 c.comp_start
  pub comp_len : IsU64 c.comp_len
  pub first_write_ms : IsU64 c.first_write_ms
  pub last_write_ms : IsU64 c.last_write_ms
  pub seq : IsU64 c.seq

pub length-to_bytes : (c : ChunkRecord) → length (to_bytes c) ≡ record_len
unfolding to_bytes to_le
length-to_bytes c = refl

-- A record whose seven fields fit their `u64` is read back from its 56 bytes.
pub from_bytes-to_bytes : (c : ChunkRecord) → IsRecord c → from_bytes (to_bytes c) ≡ c
unfolding to_bytes from_bytes to_le
from_bytes-to_bytes c h = λ i. record {
  uncomp_start = from_le-u64 c.uncomp_start h.uncomp_start i;
  uncomp_len = from_le-u64 c.uncomp_len h.uncomp_len i;
  comp_start = from_le-u64 c.comp_start h.comp_start i;
  comp_len = from_le-u64 c.comp_len h.comp_len i;
  first_write_ms = from_le-u64 c.first_write_ms h.first_write_ms i;
  last_write_ms = from_le-u64 c.last_write_ms h.last_write_ms i;
  seq = from_le-u64 c.seq h.seq i;
}
