-- ===== src/Store/Open.antt =====
-- `FileStore::open` of src/store.rs, behind `reconcile_trim` and `migrate_rings`: the index, the data
-- and the write-ahead sidecar are reconciled after a possible crash.
pub mod Index
pub mod Replay
pub mod Recover
pub mod Crash
pub mod Reopen
use timberfs.Prelude.{
  ℕ, ◌+◌, ◌*◌, ◌^◌, min, max, List, [], ◌∷◌, ◌++◌, Option, none, some, length, take, get_last?,
  Bool, true, false, ◌&&◌, ◌||◌, not,
}
use timberfs.Prelude.{Result, ok, err, ltb, ◌==◌, if◌then◌else◌, ◌>>=◌}
use timberfs.Bytes.{write_at, set_len, bytes_eq}
use timberfs.Format.{
  ChunkRecord, Dropped, RingsVersion, Error, no_drops, uncomp_end, comp_end, rings_header,
  rings_header_len, store_id_off, header_store_id, header_dropped, header_next_seq,
  parse_index_versioned,
}
use timberfs.Format.Migrate.{number_after}
use timberfs.Format.Chunk.{Zstd}
use timberfs.Sap
use timberfs.Sap.{Sap, SapEntry, SapReplay}
use timberfs.Store.{
  Config, FileStore, is_empty, is_none, unwrap_or, rec_off, flush_frame, flush_index,
}

-- The files of a store when it is opened.
pub record Disk : Type 0 where
  pub trunk : List ℕ
  pub rings : List ℕ
  pub sap : Option (List ℕ)
  pub seal : Option (List ℕ)

-- A refused index, and the manifest and the index naming different stores.
pub data OpenError : Type 0 where
  index : Error → OpenError
  two_identities : OpenError

-- What the index file gives: its bytes afterwards, and the fields that come from it.
pub record Opened : Type 0 where
  pub rings : List ℕ
  pub chunks : List ChunkRecord
  pub next_seq : ℕ
  pub dropped : Dropped
  pub store_id : Option (List ℕ)

-- `read_exact_at` of the 64 header bytes; a shorter file has none.
abbrev header_of_file : {A : Type 0} → A → (List ℕ → A) → List ℕ → A
header_of_file missing f rings =
    if ltb (length rings) rings_header_len then missing else f (take rings_header_len rings)

-- The id that the header is left with, and the store's, by what the manifest and the header carry.
abbrev settle_id :
    Option (List ℕ) → Option (List ℕ) → List ℕ → Result OpenError (List ℕ × Option (List ℕ))
settle_id none carried rings = ok (rings, carried)
settle_id (some mine) none rings = ok (write_at rings store_id_off mine, some mine)
settle_id (some mine) (some theirs) rings =
    if bytes_eq mine theirs then ok (rings, some mine) else err two_identities

abbrev index_error : {A : Type 0} → Result Error A → Result OpenError A
index_error (ok a) = ok a
index_error (err e) = err (index e)

-- The index file. `manifest` is the id that the manifest declares, `fresh` the one to mint.
unfoldable pub open_index : Option (List ℕ) → List ℕ → List ℕ → Result OpenError Opened
unfolding write_at bytes_eq
open_index manifest fresh rings =
    let id = some (unwrap_or manifest fresh) in
    if length rings == 0
    then ok (record {
      rings = write_at rings 0 (rings_header 0 no_drops id);
      chunks = [];
      next_seq = 0;
      dropped = no_drops;
      store_id = id;
    })
    else do
      (chunks, version) ← index_error (parse_index_versioned rings)
      (rings', store_id) ← settle_id manifest (header_of_file none header_store_id rings) rings
      ok (record {
        rings = rings';
        chunks = chunks;
        next_seq = max (header_of_file 0 header_next_seq rings) (number_after (get_last? chunks));
        dropped = header_of_file no_drops header_dropped rings;
        store_id = store_id;
      })

-- `while let Some(last)`: records are popped as long as the last one points past the trunk's end.
unfoldable pub drop_truncated : ℕ → List ChunkRecord → List ChunkRecord
unfolding comp_end
drop_truncated trunk_len [] = []
drop_truncated trunk_len (c ∷ cs) =
    let rest = drop_truncated trunk_len cs in
    if is_empty rest && ltb trunk_len (comp_end c) then [] else c ∷ rest

-- `chunks.last().map(..).unwrap_or(0)`
abbrev pub end_or_zero : (ChunkRecord → ℕ) → Option ChunkRecord → ℕ
end_or_zero f none = 0
end_or_zero f (some c) = f c

-- The store before the sidecar is looked at.
unfoldable pub from_index : Disk → Opened → FileStore
unfolding drop_truncated set_len uncomp_end
from_index disk o =
    let chunks = drop_truncated (length disk.trunk) o.chunks in
    record {
      trunk = disk.trunk;
      rings = set_len (rec_off (length chunks)) o.rings;
      store_id = o.store_id;
      staged = none;
      chunks = chunks;
      comp_size = end_or_zero comp_end (get_last? chunks);
      buffer = [];
      buffer_start = end_or_zero uncomp_end (get_last? chunks);
      buffer_first_ms = none;
      buffer_last_ms = 0;
      buffer_opened_ms = none;
      cache = none;
      wal = none;
      seal = disk.seal;
      next_seq = o.next_seq;
      dropped = o.dropped;
    }

-- `apply_entries`, one entry
abbrev apply_entry : SapEntry → FileStore → FileStore
apply_entry e s =
    if is_empty s.buffer
    then record s {
      buffer = s.buffer ++ e.payload;
      buffer_first_ms = some e.wf;
      buffer_last_ms = e.wl;
    }
    else record s {
      buffer = s.buffer ++ e.payload;
      buffer_first_ms = some (min (unwrap_or s.buffer_first_ms e.wf) e.wf);
      buffer_last_ms = max s.buffer_last_ms e.wl;
    }

unfoldable pub apply_entries : List SapEntry → FileStore → FileStore
apply_entries [] s = s
apply_entries (e ∷ es) s = apply_entries es (apply_entry e s)

module _ (z : Zstd) (cfg : Config) where
  -- The flush that the crash interrupted, completed where it would have landed.
  unfoldable pub complete_flush : FileStore → FileStore
  unfolding flush_frame flush_index
  complete_flush s =
      let comp = z.encode cfg.level s.buffer in
      if is_empty s.buffer
      then s
      else record (flush_index (length comp) (flush_frame comp s)) { buffer_last_ms = 0 }

  abbrev reconcile_seal : Option SapReplay × Option (List ℕ) → FileStore → FileStore
  reconcile_seal (none, left) s = record s { seal = left }
  reconcile_seal (some seal, left) s =
      if ltb seal.base s.comp_size
      then record s { seal = none }
      else record (complete_flush (apply_entries seal.entries s)) { seal = none }

  unfoldable pub open_seal : Option (List ℕ) → FileStore → FileStore
  unfolding complete_flush apply_entries
  open_seal seal s = reconcile_seal (Sap.replay seal) s

-- The live segment: its entries are the buffer again. Bases that disagree with the store are
-- written anew; a segment that is no longer declared is removed.
abbrev refreshed : ℕ → ℕ → Sap → Sap
refreshed comp_size buffer_start w =
    if not (w.base == comp_size) || not (w.uncomp_base == buffer_start)
    then Sap.refresh_base comp_size buffer_start w
    else w

abbrev reconcile_sap : Bool → Option SapReplay × Option (List ℕ) → FileStore → FileStore
reconcile_sap declared (none, left) s =
    if declared then record s { wal = some (Sap.create s.comp_size s.buffer_start) } else s
reconcile_sap declared (some live, left) s =
    let resumed = Sap.resume (unwrap_or left []) live.base live.uncomp_base live.valid_len in
    let a = apply_entries live.entries s in
    if declared
    then record a { wal = some (refreshed a.comp_size a.buffer_start resumed) }
    else record a { wal = none }

unfoldable pub open_sap : Bool → Option (List ℕ) → FileStore → FileStore
unfolding apply_entries
open_sap declared sap s = reconcile_sap declared (Sap.replay sap) s

-- The flush age restarts: `now` where anything is buffered.
abbrev restart_age : ℕ → FileStore → FileStore
restart_age now s = record s { buffer_opened_ms = (if is_empty s.buffer then none else some now) }

unfoldable pub open_store :
    Zstd → Config → ℕ → Bool → Option (List ℕ) → List ℕ → Disk → Result OpenError FileStore
unfolding open_index from_index open_seal open_sap
open_store z cfg now declared manifest fresh disk = do
  o ← open_index manifest fresh disk.rings
  ok (restart_age now (open_sap declared disk.sap (open_seal z cfg disk.seal (from_index disk o))))
