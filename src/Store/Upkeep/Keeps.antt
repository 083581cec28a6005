-- ===== src/Store/Upkeep/Keeps.antt =====
-- Turning the segment on or off keeps the tape, and a reset empties it.
use timberfs.Prelude.{ℕ, ◌≡◌, refl, List, [], Option, none, some, length, ap, arith, true}
use timberfs.Bytes.File.{set_len_shorter}
use timberfs.Format.Chunk.{Zstd, RoundTrips}
use timberfs.Sap
use timberfs.Sap.{Sap}
use timberfs.Sap.Segment.{Holds, create-Holds}
use timberfs.Store.{Config, FileStore, is_some, map_option, flush_chunk}
use timberfs.Store.Inv.{Inv, Inv-same, content}
use timberfs.Store.Flush.{
  CanFlush, flushed, flush_chunk-Inv, content-flush_chunk, buffer-flush_chunk,
}
use timberfs.Store.Upkeep.{sync_wal_declaration, start_wal, reset}

-- A reset leaves a well-formed store with no chunks and an empty tape, whatever it held before; a
-- segment that was live is a new one that holds nothing.
pub reset-Inv :
    (z : Zstd) (s : FileStore)
    → Inv z 0 (reset s) [] × (content [] (reset s) ≡ []) × (is_some (reset s).wal ≡ is_some s.wal)
unfolding reset
reset-Inv z s = (
  record {
    frames = (refl, refl);
    inside = omega arith;
    trunk_fits = omega (arith, ap length (set_len_shorter 0 s.trunk (omega arith)));
    fits = omega arith;
    cached = λ i d e. cc;
  },
  refl,
  go s.wal,
)
  where
    go : (o : Option Sap) → is_some (map_option (λ w. Sap.create 0 0) o) ≡ is_some o
    go none = refl
    go (some w) = refl

module _ (z : Zstd) (laws : RoundTrips z) (cfg : Config) (lead : ℕ) (s : FileStore)
    (ds : List (List ℕ)) where
  -- Declaring the segment on a store that is not staged and has none flushes first: the store stays
  -- well formed with the same tape, its buffer is empty, and the new segment holds nothing and starts
  -- where the store's chunks end.
  pub sync_wal_declaration-on :
      CanFlush z laws cfg s
      → Inv z lead s ds
      → s.staged ≡ none
      → s.wal ≡ none
      → (t : FileStore) × (w : Sap) × (sync_wal_declaration z cfg true s ≡ (true, t))
        × Inv z lead t (flushed ds s.buffer)
        × (content (flushed ds s.buffer) t ≡ content ds s)
        × (t.buffer ≡ [])
        × (t.wal ≡ some w)
        × Holds w []
        × (w.base ≡ t.comp_size)
        × (w.uncomp_base ≡ t.buffer_start)
  unfolding sync_wal_declaration Sap.create
  sync_wal_declaration-on c v unstaged off = (
    start_wal (flush_chunk z cfg s),
    Sap.create (flush_chunk z cfg s).comp_size (flush_chunk z cfg s).buffer_start,
    rw (unstaged, off),
    Inv-same z lead (flush_chunk z cfg s) _ (flushed ds s.buffer) refl refl refl refl refl refl
        (flush_chunk-Inv z laws cfg lead s ds c v),
    content-flush_chunk z laws cfg s ds,
    buffer-flush_chunk z laws cfg s,
    refl,
    create-Holds (flush_chunk z cfg s).comp_size (flush_chunk z cfg s).buffer_start,
    refl,
    refl,
  )
