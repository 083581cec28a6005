-- ===== src/Store/Receive.antt =====
-- `append_wire_frame` of src/store.rs: one compressed frame that arrived from elsewhere.
pub mod WireFrame
use timberfs.Prelude.{
  ℕ, ◌+◌, List, [], ◌∷◌, ◌++◌, Option, none, some, length, get_last?, Bool, true, false,
}
use timberfs.Prelude.{Result, ok, err, ltb, ◌==◌, if◌then◌else◌}
use timberfs.Bytes.{write_at}
use timberfs.Format.{ChunkRecord, add_u64, to_bytes}
use timberfs.Format.Chunk.{Zstd}
use timberfs.Sap
use timberfs.Store.{Config, FileStore, is_empty, map_option, rec_off, flush_chunk}

-- `io::ErrorKind::InvalidInput` with its two messages
pub data ReceiveError : Type 0 where
  newer_data : ReceiveError
  wrong_number : ℕ → ReceiveError

unfoldable pub last_write_ms : FileStore → Option ℕ
last_write_ms s =
    if is_empty s.buffer
    then map_option (λ (c : ChunkRecord). c.last_write_ms) (get_last? s.chunks)
    else some s.buffer_last_ms

-- The target holds data that is newer than what arrives.
abbrev pub is_newer : Option ℕ → ℕ → Bool
is_newer none first_ms = false
is_newer (some last_ms) first_ms = ltb first_ms last_ms

-- The number that the chunk gets; a claimed one has to continue the numbering.
unfoldable pub wire_seq : Option ℕ → ℕ → Result ReceiveError ℕ
wire_seq none next_seq = ok next_seq
wire_seq (some n) next_seq = if n == next_seq then ok n else err (wrong_number n)

abbrev wire_record : FileStore → ℕ → ℕ → ℕ → ℕ → ℕ → ChunkRecord
wire_record s comp_len uncomp_len first_write_ms last_write_ms seq = record {
  uncomp_start = s.buffer_start;
  uncomp_len = uncomp_len;
  comp_start = s.comp_size;
  comp_len = comp_len;
  first_write_ms = first_write_ms;
  last_write_ms = last_write_ms;
  seq = seq;
}

-- The frame and its record are written, and the segment's bases follow.
unfoldable pub write_frame : List ℕ → ChunkRecord → FileStore → FileStore
unfolding write_at to_bytes Sap.refresh_base
write_frame comp rec s =
    let comp_size = add_u64 s.comp_size rec.comp_len in
    let buffer_start = add_u64 s.buffer_start rec.uncomp_len in
    record s {
      trunk = write_at s.trunk s.comp_size comp;
      rings = write_at s.rings (rec_off (length s.chunks)) (to_bytes rec);
      comp_size = comp_size;
      buffer_start = buffer_start;
      next_seq = add_u64 rec.seq 1;
      chunks = s.chunks ++ (rec ∷ []);
      cache = none;
      wal = map_option (Sap.refresh_base comp_size buffer_start) s.wal;
    }

-- The outcome, and the store: what the flush did stays where the frame is refused.
abbrev numbered :
    FileStore → List ℕ → ℕ → ℕ → ℕ → Result ReceiveError ℕ → Option ReceiveError × FileStore
numbered s comp uncomp_len first_write_ms last_write_ms (err e) = (some e, s)
numbered s comp uncomp_len first_write_ms last_write_ms (ok seq) = (
  none,
  write_frame comp (wire_record s (length comp) uncomp_len first_write_ms last_write_ms seq) s,
)

unfoldable pub append_wire_frame :
    Zstd → Config → List ℕ → ℕ → ℕ → ℕ → Option ℕ → FileStore → Option ReceiveError × FileStore
unfolding flush_chunk last_write_ms wire_seq write_frame
append_wire_frame z cfg comp uncomp_len first_write_ms last_ms seq s =
    let f = flush_chunk z cfg s in
    if is_newer (last_write_ms f) first_write_ms
    then (some newer_data, f)
    else numbered f comp uncomp_len first_write_ms last_ms (wire_seq seq f.next_seq)
