-- ===== src/Store/Frames.antt =====
-- `append_frames` of src/store.rs: a run of another store's chunks, copied without recompression.
pub mod Index
use timberfs.Prelude.{
  ℕ, ◌+◌, List, [], ◌∷◌, ◌++◌, Option, none, some, length, get_last?, Bool, true, false,
}
use timberfs.Prelude.{Result, ok, err, if◌then◌else◌}
use timberfs.Bytes.{write_at}
use timberfs.Format.{ChunkRecord, add_u64, uncomp_end, comp_end, to_bytes}
use timberfs.Format.Chunk.{Zstd}
use timberfs.Sap
use timberfs.Store.{Config, FileStore, map_option, rec_off, flush_chunk}
use timberfs.Store.Read.{sub_u64}
use timberfs.Store.Head.{HeadError, copy_range}
use timberfs.Store.Receive.{is_newer, last_write_ms}

-- Newer data in the target, and a copy that reads past the source's end.
pub data FramesError : Type 0 where
  newer_data : FramesError
  copy : HeadError → FramesError

-- An incoming record in the store's offset spaces, under the store's next number.
abbrev pub moved : ℕ → ℕ → ℕ → ℕ → ℕ → ChunkRecord → ChunkRecord
moved uncomp_base src_uncomp comp_base src_comp seq c = record c {
  uncomp_start = add_u64 uncomp_base (sub_u64 c.uncomp_start src_uncomp);
  comp_start = add_u64 comp_base (sub_u64 c.comp_start src_comp);
  seq = seq;
}

-- The loop `for c in records`, with its four bases.
unfoldable pub push_records : ℕ → ℕ → ℕ → ℕ → List ChunkRecord → FileStore → FileStore
unfolding write_at to_bytes
push_records uncomp_base src_uncomp comp_base src_comp [] s = s
push_records uncomp_base src_uncomp comp_base src_comp (c ∷ cs) s =
    let rec = moved uncomp_base src_uncomp comp_base src_comp s.next_seq c in
    push_records uncomp_base src_uncomp comp_base src_comp cs (record s {
      next_seq = add_u64 s.next_seq 1;
      rings = write_at s.rings (rec_off (length s.chunks)) (to_bytes rec);
      chunks = s.chunks ++ (rec ∷ []);
    })

-- The bases once all records are in, from the first of them and the last.
abbrev finish : ℕ → ℕ → FileStore → FileStore
finish comp_size buffer_start s = record s {
  comp_size = comp_size;
  buffer_start = buffer_start;
  cache = none;
  wal = map_option (Sap.refresh_base comp_size buffer_start) s.wal;
}

abbrev copy_run :
    List ℕ
    → ChunkRecord
    → ChunkRecord
    → List ChunkRecord
    → FileStore
    → Option FramesError × FileStore
copy_run src first last records f =
    let total_comp = sub_u64 (comp_end last) first.comp_start in
    elim (copy_range src first.comp_start total_comp) [
      | err e ↦ (some (copy e), f)
      | ok bytes ↦ (
        none,
        finish (add_u64 f.comp_size total_comp)
            (add_u64 f.buffer_start (sub_u64 (uncomp_end last) first.uncomp_start))
            (push_records f.buffer_start first.uncomp_start f.comp_size first.comp_start records
              (record f { trunk = write_at f.trunk f.comp_size bytes })),
      )
    ]

-- `records.last().unwrap()` of a list that is not empty
abbrev last_of : ChunkRecord → Option ChunkRecord → ChunkRecord
last_of c none = c
last_of c (some l) = l

unfoldable pub append_frames :
    Zstd → Config → List ℕ → List ChunkRecord → FileStore → Option FramesError × FileStore
unfolding flush_chunk last_write_ms push_records copy_range write_at uncomp_end comp_end
    Sap.refresh_base
append_frames z cfg src [] s = (none, s)
append_frames z cfg src (c ∷ cs) s =
    let f = flush_chunk z cfg s in
    if is_newer (last_write_ms f) c.first_write_ms
    then (some newer_data, f)
    else copy_run src c (last_of c (get_last? (c ∷ cs))) (c ∷ cs) f
