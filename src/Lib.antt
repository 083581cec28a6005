-- ===== src/Lib.antt =====
-- timberfs: append-only log stores of compressed chunks.
--
-- A store is a pair of files and a sidecar. The trunk holds one zstd frame per chunk, back to back; the
-- index (`.rings`) a 64-byte header and a 56-byte record per chunk; the write-ahead segment (`.sap`) the
-- entries that are only in the writer's buffer. An append fills the buffer and the segment; a full
-- buffer is flushed: the segment is sealed (renamed to `.sap.seal`), the frame is written, then the
-- record, then the seal goes. Reads take bytes out of the chunks and the buffer by logical offset. The
-- open after a crash reads the index, drops a last record that points past the trunk, and replays the
-- seal and the segment.
--
-- The files, and the code they are about:
--   Prelude, Prelude/*       shared names, Boolean tests, lists, results.
--   Bytes, Bytes/*           little-endian fields, slices, positioned writes: the standard library's
--                            calls on byte slices and files that the code makes.
--   Format                   src/format.rs: ChunkRecord, rings_header, header_*, index_layout,
--                            parse_index_versioned, index_from.
--   Format/Record, Header, Index, Parse, Tail
--                            the proofs about them.
--   Format/Last              read_index_tail, read_index_last of src/format.rs.
--   Format/Chunk             read_frame and decode_frame of src/format.rs, chunk_data's length test.
--   Format/Migrate           migrate_rings of src/store.rs.
--   Sap, Sap/*               src/sap.rs: the segment, its replay, and cuts of it.
--   Store                    src/store.rs: FileStore, size, append, append_stamped, append_windowed,
--                            flush_chunk.
--   Store/Inv, Flush, Append the invariant of a store, and that the appends and the flush keep it.
--   Store/Read, Store/Read/* read and chunk_data of src/store.rs.
--   Store/Open, Store/Open/* FileStore::open of src/store.rs and its crash recovery.
--   Store/Head, Store/Head/* remove_head, dropped_after, rotation_split of src/store.rs.
--   Store/Stage, Stage/*     stage, commit_stage, abort_stage of src/store.rs.
--   Store/Receive, Receive/* append_wire_frame and last_write_ms of src/store.rs.
--   Store/Frames, Frames/*   append_frames of src/store.rs.
--   Store/Retain, Retain/*   the choice of enforce_retention, and collapse_alignment, of src/store.rs.
--   Store/Upkeep, Upkeep/*   sync, sap_sync, sap_flush, sync_wal_declaration, reset of src/store.rs.
--   Grain                    src/grain.rs: header_bytes, stamp, walk, load_commit, save_commit, locate,
--                            load, may_contain_all.
--   Grain/Tokens, Tokens/*   tokenize of src/grain.rs; Grain/Bloom, Bloom/* its Bloom filter.
--   Grain/Pages, Header      what the readers of a grain see of its bytes.
--   Grain/Reads              read_pages and coverage of src/grain.rs.
--   Grain/Update, Update/*   build_grain, extend_grain, append_page, rebase_head of src/grain.rs.
--   Records, Records/*       Frames and Frame of src/records.rs: a record stream walked by record.
--   Wire, Wire/*             src/frame.rs: the replication frames, encode and decode.
--   Protobuf, Protobuf/*     src/protobuf.rs: the reader and the writer of the wire format.
--   Format/Tests, Sap/Tests, Store/Tests, Store/Changes, Store/Settings, Protobuf/Tests, Grain/Tests,
--   Records/Tests, Wire/Tests
--                            tests, and the theorems at concrete inputs.
--
-- How the model stands to the code: a file is the list of its bytes; a method takes the store and
-- returns the new one; a `u64` is a number below 2^64 and its additions wrap where the code adds in
-- `u64`; the clock, the manifest's id, a freshly minted id and the declaration of the wal are arguments.
-- The zstd library is a parameter (Format.Chunk.Zstd) with one law, that decoding what it encoded gives
-- the input back. A loop runs on fuel where it is not structural: parse_loop has the length of its buffer
-- and takes 24 bytes a round, varint_rounds has ten rounds for 64 bits, and read_loop has `end - pos`
-- and takes one byte a round at least; the loops over the records of a grain have the file's length
-- and take four bytes a round; the loop over the frames of a stream has one round more than it has
-- bytes; that these suffice is part of the theorems about them.
--
-- Not modelled: errors of the file system (a call on a file succeeds, and a crash is a cut between
-- or inside writes), locks, the directory of stores, the block-aligned collapse of a trunk, the text
-- of a grain's commit line, the result of a binary search in a list that its test does not
-- partition, queries, replication sockets, intakes and the command line.
pub mod Prelude
pub mod Bytes
pub mod Format
pub mod Sap
pub mod Protobuf
pub mod Records
pub mod Wire
pub mod Grain
pub mod Store
