-- ===== src/Store/Settings.antt =====
-- Tests of retention, of the segment's declaration and of the reset, and their theorems at concrete
-- inputs.
use timberfs.Prelude.{ℕ, ◌+◌, ◌*◌, ◌≤◌, ◌<◌, ◌≡◌, refl, [], ◌∷◌, none, some, arith, true, ◌⊎◌}
use timberfs.Sap.{Sap}
use timberfs.Sap.Segment.{Holds}
use timberfs.Store.{FileStore}
use timberfs.Store.Inv.{Inv, Inv-same, content}
use timberfs.Store.Flush.{flushed}
use timberfs.Store.Tests.{z, laws, cfg, store, contents, store-Inv, store-CanFlush}
use timberfs.Prelude.{map, ◌++◌}
use timberfs.Bytes.{to_le}
use timberfs.Format.{rings_header, no_drops}
use timberfs.Format.Index.{encode}
use timberfs.Store.Tests.{id, chunk}
use timberfs.Store.Frames.{push_records}
use timberfs.Store.Frames.Index.{seq_of, push_records-index}
use timberfs.Store.Retain.{collapse_alignment}
use timberfs.Store.Retain.Cut.{collapse_alignment-sliver}
use timberfs.Store.Upkeep.{sync_wal_declaration}
use timberfs.Store.Upkeep.Keeps.{sync_wal_declaration-on}

-- Three bytes too many for a cut at 8192: one block fewer goes.
collapse_alignment-sliver_example :
    (◌≡◌ {A = ℕ} (4096 + 4099) 8195)
    × (0 < 4096)
    × ((blocks : ℕ) × (◌≡◌ {A = ℕ} 4096 (blocks * 4096)))
    × ((◌≡◌ {A = ℕ} 4099 0) ⊎ (8 ≤ 4099))
unfolding collapse_alignment
collapse_alignment-sliver_example = collapse_alignment-sliver 8195 4096 4096 4099 (omega arith) refl

abbrev bare : FileStore
bare = record store { wal = none }

sync_wal_declaration-on_example :
    (t : FileStore) × (w : Sap) × (sync_wal_declaration z cfg true bare ≡ (true, t))
    × Inv z 0 t (flushed contents (5 ∷ 6 ∷ []))
    × (content (flushed contents (5 ∷ 6 ∷ [])) t ≡ content contents bare)
    × (t.buffer ≡ [])
    × (t.wal ≡ some w)
    × Holds w []
    × (w.base ≡ t.comp_size)
    × (w.uncomp_base ≡ t.buffer_start)
sync_wal_declaration-on_example =
    sync_wal_declaration-on z laws cfg 0 bare contents
      (record {
        chunk_len = store-CanFlush.chunk_len;
        frame_len = store-CanFlush.frame_len;
        trunk_fits = store-CanFlush.trunk_fits;
      })
      (Inv-same z 0 store bare contents refl refl refl refl refl refl store-Inv) refl refl

push_records-index_example :
    ((push_records 4 0 5 0 (chunk ∷ []) store).rings
      ≡ rings_header 0 no_drops id ++ encode (push_records 4 0 5 0 (chunk ∷ []) store).chunks)
    × (map seq_of (push_records 4 0 5 0 (chunk ∷ []) store).chunks ≡ 0 ∷ 1 ∷ [])
    × ((push_records 4 0 5 0 (chunk ∷ []) store).next_seq ≡ 2)
unfolding rings_header to_le
push_records-index_example =
    push_records-index 4 0 5 0 (chunk ∷ []) store (rings_header 0 no_drops id) refl (omega arith)
      refl
