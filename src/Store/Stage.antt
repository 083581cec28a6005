-- ===== src/Store/Stage.antt =====
-- Atomic delivery of src/store.rs: `stage`, `commit_stage` and `abort_stage`. Between them the
-- records of new chunks are held back, so that no reader sees them.
pub mod Rollback
pub mod Commit
use timberfs.Prelude.{ℕ, ◌+◌, List, [], ◌∷◌, Option, none, some, length, take, drop}
use timberfs.Bytes.{write_at, set_len}
use timberfs.Format.{ChunkRecord, to_bytes}
use timberfs.Format.Chunk.{Zstd}
use timberfs.Store.{Config, StageBaseline, FileStore, rec_off, flush_chunk}

unfoldable pub stage : FileStore → FileStore
stage s = record s {
  staged =
      some (record {
        chunks = length s.chunks;
        comp_size = s.comp_size;
        buffer_start = s.buffer_start;
      });
}

-- The held records, written one after the other from the `i`-th place.
unfoldable pub write_records : ℕ → List ChunkRecord → List ℕ → List ℕ
unfolding write_at to_bytes
write_records i [] rings = rings
write_records i (r ∷ rs) rings = write_records (i + 1) rs (write_at rings (rec_off i) (to_bytes r))

abbrev commit_held : FileStore → Option StageBaseline → FileStore
commit_held s none = s
commit_held s (some b) = record s {
  staged = none;
  rings = write_records b.chunks (drop b.chunks s.chunks) s.rings;
}

unfoldable pub commit_stage : Zstd → Config → FileStore → FileStore
unfolding flush_chunk write_records
commit_stage z cfg s = let f = flush_chunk z cfg s in commit_held f f.staged

abbrev roll_back : FileStore → Option StageBaseline → FileStore
roll_back s none = s
roll_back s (some b) = record s {
  staged = none;
  trunk = set_len b.comp_size s.trunk;
  comp_size = b.comp_size;
  buffer_start = b.buffer_start;
  chunks = take b.chunks s.chunks;
  buffer = [];
  buffer_first_ms = none;
  buffer_opened_ms = none;
}

unfoldable pub abort_stage : FileStore → FileStore
unfolding set_len
abort_stage s = roll_back s s.staged
