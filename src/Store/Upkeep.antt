-- ===== src/Store/Upkeep.antt =====
-- The smaller operations of src/store.rs on an open store: `sync`, `sap_sync`, `sap_flush`,
-- `sync_wal_declaration`, `reset`, `first_write_ms`, `buffer_age_ms` and `has_buffer_before`.
pub mod Keeps
use timberfs.Prelude.{ℕ, ◌+◌, ◌-◌, List, [], ◌∷◌, Option, none, some, Bool, true, false, ◌||◌}
use timberfs.Prelude.{ltb, if◌then◌else◌}
use timberfs.Bytes.{set_len}
use timberfs.Format.{ChunkRecord, rings_header_len}
use timberfs.Format.Chunk.{Zstd}
use timberfs.Sap
use timberfs.Store.{Config, FileStore, is_none, is_some, map_option, flush_chunk}

unfoldable pub sync : Zstd → Config → FileStore → FileStore
unfolding flush_chunk
sync z cfg s = flush_chunk z cfg s

unfoldable pub sap_sync : FileStore → FileStore
unfolding Sap.sync
sap_sync s = if is_some s.staged then s else record s { wal = map_option Sap.sync s.wal }

unfoldable pub sap_flush : FileStore → FileStore
unfolding Sap.flush
sap_flush s = if is_some s.staged then s else record s { wal = map_option Sap.flush s.wal }

abbrev same : Bool → Bool → Bool
same true b = b
same false true = false
same false false = true

abbrev start_wal : FileStore → FileStore
start_wal f = record f { wal = some (Sap.create f.comp_size f.buffer_start) }

-- Whether the declaration changed anything, and the store.
unfoldable pub sync_wal_declaration : Zstd → Config → Bool → FileStore → Bool × FileStore
unfolding flush_chunk Sap.create
sync_wal_declaration z cfg declared s =
    if is_some s.staged || same declared (is_some s.wal)
    then (false, s)
    else (true, (if declared then start_wal (flush_chunk z cfg s) else record s { wal = none }))

unfoldable pub reset : FileStore → FileStore
unfolding set_len Sap.create
reset s = record s {
  trunk = set_len 0 s.trunk;
  rings = set_len rings_header_len s.rings;
  chunks = [];
  comp_size = 0;
  buffer = [];
  buffer_start = 0;
  buffer_first_ms = none;
  buffer_opened_ms = none;
  cache = none;
  seal = none;
  wal = map_option (λ w. Sap.create 0 0) s.wal;
}

unfoldable pub first_write_ms : FileStore → Option ℕ
first_write_ms s = elim s.chunks [ [] ↦ s.buffer_first_ms | c ∷ cs ↦ some c.first_write_ms ]

unfoldable pub buffer_age_ms : ℕ → FileStore → Option ℕ
buffer_age_ms now s = map_option (λ (t : ℕ). now - t) s.buffer_opened_ms

abbrev before : ℕ → Option ℕ → Bool
before cutoff_ms none = false
before cutoff_ms (some t) = ltb t cutoff_ms

unfoldable pub has_buffer_before : ℕ → FileStore → Bool
has_buffer_before cutoff_ms s = before cutoff_ms s.buffer_first_ms
