-- ===== src/Store.antt =====
-- src/store.rs: `FileStore`, the chunked file behind one log. A method returns the new store; the
-- clock is an argument, the zstd library a parameter, and reads and writes of the files succeed.
pub mod Inv
pub mod Flush
pub mod Append
pub mod Read
pub mod Open
pub mod Head
pub mod Stage
pub mod Receive
pub mod Frames
pub mod Retain
pub mod Upkeep
mod Tests
mod Changes
mod Settings
use timberfs.Prelude.{ℕ, ℤ, zero, suc, ◌+◌, ◌-◌, ◌*◌, ◌%◌, ◌^◌, Bool, true, false, ◌&&◌, min, max}
use timberfs.Prelude.{
  List, [], ◌∷◌, ◌++◌, Option, none, some, length, take, drop, get_elem?, get_last?,
}
use timberfs.Prelude.{Result, ok, err, ltb, leb, ◌==◌, if◌then◌else◌, not}
use timberfs.Bytes.{slice, write_at, set_len}
use timberfs.Format.{ChunkRecord, Dropped, add_u64, uncomp_end, comp_end, to_bytes}
use timberfs.Format.{record_len, rings_header_len, rings_header}
use timberfs.Format.Chunk.{Zstd, ChunkError, load_chunk, saturating_add}
use timberfs.Sap
use timberfs.Sap.{Sap, SapEntry}

pub record Config : Type 0 where
  pub chunk_size : ℕ
  pub level : ℤ
  pub flush_age_ms : ℕ

pub record StageBaseline : Type 0 where
  pub chunks : ℕ
  pub comp_size : ℕ
  pub buffer_start : ℕ

-- The two files of the pair are their bytes. `seal` is the `.sap.seal` file, and `wal` holds the
-- bytes of the `.sap` file.
pub record FileStore : Type 0 where
  pub trunk : List ℕ
  pub rings : List ℕ
  pub store_id : Option (List ℕ)
  pub staged : Option StageBaseline
  pub chunks : List ChunkRecord
  pub comp_size : ℕ
  pub buffer : List ℕ
  pub buffer_start : ℕ
  pub buffer_first_ms : Option ℕ
  pub buffer_last_ms : ℕ
  pub buffer_opened_ms : Option ℕ
  pub cache : Option (ℕ × List ℕ)
  pub wal : Option Sap
  pub seal : Option (List ℕ)
  pub next_seq : ℕ
  pub dropped : Dropped

abbrev pub is_none {ℓ} : {A : Type ℓ} → Option A → Bool
is_none none = true
is_none (some a) = false

abbrev pub is_some {ℓ} : {A : Type ℓ} → Option A → Bool
is_some none = false
is_some (some a) = true

abbrev pub unwrap_or {ℓ} : {A : Type ℓ} → Option A → A → A
unwrap_or none d = d
unwrap_or (some a) d = a

abbrev pub is_empty {ℓ} : {A : Type ℓ} → List A → Bool
is_empty [] = true
is_empty (x ∷ xs) = false

abbrev pub map_option {ℓ κ} : {A : Type ℓ} {B : Type κ} → (A → B) → Option A → Option B
map_option f none = none
map_option f (some a) = some (f a)

-- `slice.partition_point(pred)`. The library documents it for slices in which the elements that
-- satisfy the test come first, where the point between them and the others is the only possible
-- result. What it returns for a slice that is not so is not modelled.
unfoldable pub partition_point {ℓ} : {A : Type ℓ} → (A → Bool) → List A → ℕ
partition_point p [] = 0
partition_point p (x ∷ xs) = let later = partition_point p xs in if p x then suc later else 0

unfoldable pub size : FileStore → ℕ
size s = add_u64 s.buffer_start (length s.buffer)

unfoldable pub tape_start : FileStore → ℕ
tape_start s = s.dropped.uncomp_bytes

unfoldable pub tape_end : FileStore → ℕ
unfolding tape_start size
tape_end s = add_u64 (tape_start s) (size s)

-- `RINGS_HEADER_LEN + (i * RECORD_LEN)`
abbrev pub rec_off : ℕ → ℕ
rec_off i = rings_header_len + i * record_len

-- The record of the chunk that the buffer becomes, as a frame of `comp_len` bytes.
abbrev pub buffer_record : FileStore → ℕ → ChunkRecord
buffer_record s comp_len = record {
  uncomp_start = s.buffer_start;
  uncomp_len = length s.buffer;
  comp_start = s.comp_size;
  comp_len = comp_len;
  first_write_ms = unwrap_or s.buffer_first_ms s.buffer_last_ms;
  last_write_ms = s.buffer_last_ms;
  seq = s.next_seq;
}

abbrev pub sealing : FileStore → Bool
sealing s = is_none s.staged && is_some s.wal

-- `flush_chunk` in its four steps on disk. First the segment is synced and renamed to `.sap.seal`.
unfoldable pub flush_seal : FileStore → FileStore
unfolding Sap.sync
flush_seal s =
    if sealing s then record s { seal = map_option (λ w. (Sap.sync w).bytes) s.wal } else s

-- Then the frame is written to the trunk.
unfoldable pub flush_frame : List ℕ → FileStore → FileStore
unfolding write_at
flush_frame comp s = record s { trunk = write_at s.trunk s.comp_size comp }

-- Then the record is written to the index, unless it is held back, and the state in memory moves on.
unfoldable pub flush_index : ℕ → FileStore → FileStore
unfolding write_at to_bytes
flush_index comp_len s =
    let rec = buffer_record s comp_len in
    record s {
      rings =
          (if is_none s.staged
            then write_at s.rings (rec_off (length s.chunks)) (to_bytes rec)
            else s.rings);
      chunks = s.chunks ++ (rec ∷ []);
      comp_size = add_u64 s.comp_size comp_len;
      buffer = [];
      buffer_start = add_u64 s.buffer_start (length s.buffer);
      buffer_first_ms = none;
      buffer_opened_ms = none;
      next_seq = add_u64 s.next_seq 1;
    }

-- Then both files are synced, a fresh segment is started and the seal is removed.
unfoldable pub flush_unseal : FileStore → FileStore
unfolding Sap.create
flush_unseal s =
    if sealing s
    then record s { wal = some (Sap.create s.comp_size s.buffer_start); seal = none }
    else s

-- The write window of the buffer, and the entry's own.
abbrev pub widen : ℕ → ℕ → ℕ → FileStore → FileStore
widen now first_ms last_ms s =
    if is_empty s.buffer
    then record s {
      buffer_first_ms = some first_ms;
      buffer_last_ms = last_ms;
      buffer_opened_ms = some now;
    }
    else record s {
      buffer_first_ms = some (min (unwrap_or s.buffer_first_ms first_ms) first_ms);
      buffer_last_ms = max s.buffer_last_ms last_ms;
    }

-- The bytes enter the buffer and, unless staged, the segment.
unfoldable pub append_buffer : ℕ → ℕ → ℕ → List ℕ → FileStore → FileStore
unfolding Sap.append
append_buffer now first_ms last_ms bytes s =
    let w = widen now first_ms last_ms s in
    let entry : SapEntry = record { wf = first_ms; wl = last_ms; payload = bytes } in
    record w {
      buffer = w.buffer ++ bytes;
      wal = (if is_none w.staged then map_option (Sap.append entry) w.wal else w.wal);
    }

module _ (z : Zstd) (cfg : Config) where
  unfoldable pub flush_chunk : FileStore → FileStore
  unfolding flush_seal flush_frame flush_index flush_unseal
  flush_chunk s =
      let comp = z.encode cfg.level s.buffer in
      if is_empty s.buffer
      then s
      else flush_unseal (flush_index (length comp) (flush_frame comp (flush_seal s)))

  unfoldable pub append_windowed : ℕ → ℕ → ℕ → List ℕ → FileStore → FileStore
  unfolding append_buffer flush_chunk
  append_windowed now first_ms last_ms bytes s =
      let a = append_buffer now first_ms last_ms bytes s in
      if leb cfg.chunk_size (length a.buffer) then flush_chunk a else a

  unfoldable pub append_stamped : ℕ → ℕ → List ℕ → FileStore → FileStore
  unfolding append_windowed
  append_stamped now ts_ms bytes s = append_windowed now ts_ms ts_ms bytes s

  -- `now` is the clock, which `append` and `append_windowed` each read.
  unfoldable pub append : ℕ → List ℕ → FileStore → FileStore
  unfolding append_stamped
  append now bytes s = append_stamped now now bytes s
