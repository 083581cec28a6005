-- ===== src/Store/Tests.antt =====
-- Tests of the store, and its theorems at concrete inputs. The zstd library of the tests stores the
-- bytes as they are, behind one byte.
use timberfs.Prelude.{
  ℕ, pos, ◌≡◌, refl, List, [], ◌∷◌, ◌++◌, Option, none, some, replicate, ok, max, arith, true,
  get_last?,
}
use timberfs.Bytes.{bytes_eq}
use timberfs.Format.{ChunkRecord, rings_header, no_drops}
use timberfs.Format.Record.{IsRecord}
use timberfs.Format.Index.{encode}
use timberfs.Format.Header.{IsHeader}
use timberfs.Format.Migrate.{number_after}
use timberfs.Format.Chunk.{Zstd, RoundTrips, IsFrame}
use timberfs.Sap.{Sap, SapEntry}
use timberfs.Sap.Segment.{segment}
use timberfs.Store.{Config, FileStore, append_buffer, append_windowed, flush_chunk}
use timberfs.Store.Inv.{Inv, content}
use timberfs.Store.Flush.{CanFlush, flushed, flush_chunk-Inv}
use timberfs.Store.Append.{appended, append_windowed-Inv}
use timberfs.Store.Read.{read}
use timberfs.Store.Read.Cache.{Reads}
use timberfs.Store.Read.Slice.{read-Reads}
use timberfs.Store.Open.{open_index, open_store}
use timberfs.Store.Open.Index.{open_index-encode}
use timberfs.Store.Open.Crash.{Ready, crashed}
use timberfs.Store.Open.Reopen.{Kept, crashed-Kept}

abbrev decode_behind : List ℕ → Option (List ℕ)
decode_behind [] = none
decode_behind (b ∷ bs) = some bs

abbrev pub z : Zstd
z = record { encode = λ level bytes. 0xFD ∷ bytes; decode = decode_behind }

pub laws : RoundTrips z
laws = record { decode-encode = λ level bytes. refl }

abbrev pub cfg : Config
cfg = record { chunk_size = 4; level = pos 3; flush_age_ms = 1000 }

abbrev pub id : Option (List ℕ)
id = some (replicate 16 171)

abbrev pub chunk : ChunkRecord
chunk = record {
  uncomp_start = 0;
  uncomp_len = 4;
  comp_start = 0;
  comp_len = 5;
  first_write_ms = 10;
  last_write_ms = 20;
  seq = 0;
}

abbrev entry : SapEntry
entry = record { wf = 30; wl = 40; payload = 5 ∷ 6 ∷ [] }

abbrev wal : Sap
wal = record {
  bytes = segment 5 4 (entry ∷ []);
  flushed = 24;
  synced = 24;
  base = 5;
  uncomp_base = 4;
}

-- One chunk of four bytes, and two bytes in the buffer.
abbrev pub store : FileStore
store = record {
  trunk = 0xFD ∷ 1 ∷ 2 ∷ 3 ∷ 4 ∷ [];
  rings = rings_header 0 no_drops id ++ encode (chunk ∷ []);
  store_id = id;
  staged = none;
  chunks = chunk ∷ [];
  comp_size = 5;
  buffer = 5 ∷ 6 ∷ [];
  buffer_start = 4;
  buffer_first_ms = some 30;
  buffer_last_ms = 40;
  buffer_opened_ms = some 30;
  cache = none;
  wal = some wal;
  seal = none;
  next_seq = 1;
  dropped = no_drops;
}

abbrev pub contents : List (List ℕ)
contents = (1 ∷ 2 ∷ 3 ∷ 4 ∷ []) ∷ []

chunk-IsFrame : IsFrame z store.trunk 0 0 chunk (1 ∷ 2 ∷ 3 ∷ 4 ∷ [])
chunk-IsFrame = record {
  uncomp_start = refl;
  uncomp_len = refl;
  comp_start = refl;
  inside = omega arith;
  frame_len = omega arith;
  chunk_len = omega arith;
  nonempty = omega arith;
  fits = omega arith;
  decoded = refl;
}

pub store-Inv : Inv z 0 store contents
store-Inv = record {
  frames = (chunk-IsFrame, (refl, refl));
  inside = omega arith;
  trunk_fits = omega arith;
  fits = omega arith;
  cached = λ i d e. cc;
}

pub store-CanFlush : CanFlush z laws cfg store
store-CanFlush = record {
  chunk_len = omega arith;
  frame_len = omega arith;
  trunk_fits = omega arith;
}

grown-CanFlush : CanFlush z laws cfg (append_buffer 50 50 60 (7 ∷ 8 ∷ []) store)
unfolding append_buffer
grown-CanFlush = record {
  chunk_len = omega arith;
  frame_len = omega arith;
  trunk_fits = omega arith;
}

pub chunk-IsRecord : IsRecord chunk
chunk-IsRecord = record {
  uncomp_start = omega arith;
  uncomp_len = omega arith;
  comp_start = omega arith;
  comp_len = omega arith;
  first_write_ms = omega arith;
  last_write_ms = omega arith;
  seq = omega arith;
}

fields-IsHeader : IsHeader 0 no_drops id
fields-IsHeader = record {
  next_seq = omega arith;
  uncomp_bytes = omega arith;
  comp_bytes = omega arith;
  id_len = refl;
}

store-Ready : Ready z laws cfg 0 0 no_drops id store contents wal (entry ∷ [])
unfolding bytes_eq
store-Ready = record {
  inv = store-Inv;
  lead_used = λ e. refl;
  no_orphans = refl;
  header = fields-IsHeader;
  is_id = refl;
  records = (chunk-IsRecord, tt);
  rings = refl;
  unstaged = refl;
  live = refl;
  segment_holds = refl;
  entries = (record { wf = omega arith; wl = omega arith; payload = omega arith }, tt);
  buffered = refl;
  nonempty = omega arith;
  frame_nonempty = omega arith;
  record_fits = record {
    uncomp_start = omega arith;
    uncomp_len = omega arith;
    comp_start = omega arith;
    comp_len = omega arith;
    first_write_ms = omega arith;
    last_write_ms = omega arith;
    seq = omega arith;
  };
  can_flush = store-CanFlush;
}

flush_chunk-Inv_example : Inv z 0 (flush_chunk z cfg store) (flushed contents (5 ∷ 6 ∷ []))
flush_chunk-Inv_example = flush_chunk-Inv z laws cfg 0 store contents store-CanFlush store-Inv

append_windowed-Inv_example :
    Inv z 0
      (append_windowed z cfg 50 50 60 (7 ∷ 8 ∷ []) store)
      (appended z laws cfg 50 50 60 (7 ∷ 8 ∷ []) contents store)
    × (content
          (appended z laws cfg 50 50 60 (7 ∷ 8 ∷ []) contents store)
          (append_windowed z cfg 50 50 60 (7 ∷ 8 ∷ []) store)
        ≡ 1 ∷ 2 ∷ 3 ∷ 4 ∷ 5 ∷ 6 ∷ 7 ∷ 8 ∷ [])
append_windowed-Inv_example =
    append_windowed-Inv z laws cfg 50 50 60 (7 ∷ 8 ∷ []) 0 store contents (omega arith)
      grown-CanFlush store-Inv

read-Reads_example : Reads (read z 2 3 store) (3 ∷ 4 ∷ 5 ∷ []) store contents
read-Reads_example = read-Reads z 0 contents 2 3 store store-Inv (omega arith)

open_index-encode_example :
    open_index id
      (replicate 16 9)
      (rings_header 0 no_drops id ++ (encode (chunk ∷ []) ++ (1 ∷ 2 ∷ [])))
    ≡ ok (record {
      rings = rings_header 0 no_drops id ++ (encode (chunk ∷ []) ++ (1 ∷ 2 ∷ []));
      chunks = chunk ∷ [];
      next_seq = max 0 (number_after (get_last? (chunk ∷ [])));
      dropped = no_drops;
      store_id = id;
    })
unfolding bytes_eq
open_index-encode_example =
    open_index-encode 0 no_drops id fields-IsHeader refl (replicate 16 9) (1 ∷ 2 ∷ []) (chunk ∷ [])
      (chunk-IsRecord, tt) (omega arith)

-- A crash after two of the frame's three bytes and the whole record.
crashed-Kept_example :
    (t : FileStore) × (open_store z cfg 99 true id (replicate 16 9) (crashed z cfg 2 56 store)
      ≡ ok t)
    × Kept z laws cfg 0 0 no_drops id store contents wal
        (entry ∷ [])
        store-Ready
        99
        true
        (replicate 16 9)
        t
crashed-Kept_example =
    crashed-Kept z laws cfg 0 0 no_drops id store contents wal (entry ∷ []) store-Ready 99 true
      (replicate 16 9) 2 56 (omega arith) (omega arith)
