-- ===== src/Store/Changes.antt =====
-- Tests of head drops, atomic delivery and frames from elsewhere, and their theorems at concrete inputs.
use timberfs.Prelude.{◌≡◌, refl, [], ◌∷◌, ◌++◌, none, some, length, drop, ok, arith}
use timberfs.Format.{
  v2, no_drops, rings_header, header_next_seq, header_dropped, parse_index_versioned, add_u64,
}
use timberfs.Format.Index.{encode}
use timberfs.Store.{StageBaseline, FileStore, flush_chunk, tape_end}
use timberfs.Store.Inv.{Inv, content}
use timberfs.Store.Flush.{flushed}
use timberfs.Store.Tests.{
  z, laws, cfg, id, store, contents, store-Inv, store-CanFlush, chunk-IsRecord,
}
use timberfs.Bytes.{to_le}
use timberfs.Store.Head.{remove_head}
use timberfs.Store.Head.Remove.{remove_head-Inv, parse_index-remove_head}
use timberfs.Store.Stage.{stage, commit_stage, abort_stage}
use timberfs.Store.Stage.Rollback.{Baseline, stage-Baseline, abort_stage-Inv}
use timberfs.Store.Stage.Commit.{commit_stage-index}
use timberfs.Store.Receive.{newer_data, append_wire_frame, last_write_ms, wire_seq}
use timberfs.Store.Receive.WireFrame.{
  Refuses, Arrives, append_wire_frame-Inv, append_wire_frame-refused,
}

remove_head-Inv_example :
    (t : FileStore) × (remove_head 1 store ≡ ok t)
    × Inv z 0 t []
    × (content [] t ≡ drop 4 (1 ∷ 2 ∷ 3 ∷ 4 ∷ 5 ∷ 6 ∷ []))
    × (tape_end t ≡ tape_end store)
    × (t.next_seq ≡ 1)
remove_head-Inv_example = remove_head-Inv z 0 0 store contents store-Inv (omega arith)

parse_index-remove_head_example :
    (t : FileStore) × (remove_head 1 store ≡ ok t)
    × (parse_index_versioned t.rings ≡ ok (t.chunks, v2))
    × (header_next_seq t.rings ≡ t.next_seq)
    × (header_dropped t.rings ≡ t.dropped)
parse_index-remove_head_example =
    parse_index-remove_head z 0 0 store contents store-Inv (omega arith) (omega arith) refl
      (chunk-IsRecord, tt)

abbrev baseline : StageBaseline
baseline = record { chunks = 1; comp_size = 5; buffer_start = 4 }

staged-Baseline : Baseline z 0 baseline (stage store) contents
staged-Baseline = stage-Baseline z 0 store contents store-Inv

abort_stage-Inv_example :
    Inv z 0 (abort_stage (stage store)) contents
    × ((abort_stage (stage store)).staged ≡ none)
    × (length (abort_stage (stage store)).trunk ≡ 5)
    × (content contents (abort_stage (stage store)) ≡ 1 ∷ 2 ∷ 3 ∷ 4 ∷ [])
unfolding stage
abort_stage-Inv_example =
    abort_stage-Inv z 0 baseline (stage store) contents (omega arith) (omega arith) staged-Baseline

commit_stage-index_example :
    ((commit_stage z cfg (stage store)).rings
      ≡ rings_header 0 no_drops id ++ encode (commit_stage z cfg (stage store)).chunks)
    × ((commit_stage z cfg (stage store)).chunks ≡ (flush_chunk z cfg (stage store)).chunks)
    × ((commit_stage z cfg (stage store)).staged ≡ none)
unfolding stage rings_header to_le
commit_stage-index_example =
    commit_stage-index z cfg (stage store) baseline (rings_header 0 no_drops id) refl refl
      (omega arith) refl

arrives : Arrives z (flush_chunk z cfg store) (0xFD ∷ 8 ∷ 9 ∷ []) (8 ∷ 9 ∷ [])
unfolding flush_chunk
arrives = record {
  decoded = refl;
  nonempty = omega arith;
  chunk_len = omega arith;
  frame_len = omega arith;
  trunk_fits = omega arith;
  fits = omega arith;
}

append_wire_frame-Inv_example :
    (t : FileStore) × (append_wire_frame z cfg (0xFD ∷ 8 ∷ 9 ∷ []) 2 90 95 (some 2) store
      ≡ (none, t))
    × Inv z 0 t (flushed contents (5 ∷ 6 ∷ []) ++ ((8 ∷ 9 ∷ []) ∷ []))
    × (content (flushed contents (5 ∷ 6 ∷ []) ++ ((8 ∷ 9 ∷ []) ∷ [])) t
        ≡ content contents store ++ (8 ∷ 9 ∷ []))
    × (t.next_seq ≡ add_u64 (flush_chunk z cfg store).next_seq 1)
unfolding flush_chunk last_write_ms wire_seq
append_wire_frame-Inv_example =
    append_wire_frame-Inv z laws cfg 0 store contents (0xFD ∷ 8 ∷ 9 ∷ []) 90 95 (some 2)
      (8 ∷ 9 ∷ []) store-CanFlush store-Inv arrives refl refl

older_chunk : Refuses (flush_chunk z cfg store).chunks 2 30 none newer_data
unfolding flush_chunk
older_chunk = (_, refl, omega arith)

append_wire_frame-refused_example :
    (append_wire_frame z cfg (0xFD ∷ 8 ∷ 9 ∷ []) 2 30 35 none store
      ≡ (some newer_data, flush_chunk z cfg store))
    × Inv z 0 (flush_chunk z cfg store) (flushed contents (5 ∷ 6 ∷ []))
    × (content (flushed contents (5 ∷ 6 ∷ [])) (flush_chunk z cfg store) ≡ content contents store)
append_wire_frame-refused_example =
    append_wire_frame-refused z laws cfg 0 store contents (0xFD ∷ 8 ∷ 9 ∷ []) 30 35 none 2
      newer_data store-CanFlush store-Inv older_chunk

-- After a read of a staged chunk and an abort, the cache still has it under the index that the next
-- chunk takes.
stale_cache :
    (abort_stage (record (flush_chunk z cfg (stage store)) { cache = some (1, 5 ∷ 6 ∷ []) })).cache
    ≡ some (1, 5 ∷ 6 ∷ [])
unfolding abort_stage flush_chunk stage
stale_cache = refl
