-- ===== src/Store/Head.antt =====
-- `remove_head`, `dropped_after` and `rotation_split` of src/store.rs, and the choice of
-- `enforce_retention`: the oldest chunks leave the store. The token index and the seqlock counter,
-- which `remove_head` also renews, are files of their own and not part of this state.
pub mod Rebase
pub mod Remove
use timberfs.Prelude.{
  ℕ, zero, suc, ◌+◌, ◌-◌, ◌*◌, ◌/◌, ◌%◌, ◌^◌, max, min, List, [], ◌∷◌, ◌++◌, map, Option, none,
  some, length, take, drop, get_elem?, Bool, true, false, ◌&&◌,
}
use timberfs.Prelude.{Result, ok, err, ltb, leb, ◌==◌, if◌then◌else◌, ◌>>=◌}
use timberfs.Bytes.{slice}
use timberfs.Format.{ChunkRecord, Dropped, add_u64, uncomp_end, comp_end, rings_header}
use timberfs.Format.Index.{encode}
use timberfs.Sap
use timberfs.Store.{FileStore, map_option, is_empty, partition_point}
use timberfs.Store.Read.{sub_u64}

-- An index out of range, which panics, and a read past the end of the trunk.
pub data HeadError : Type 0 where
  out_of_range short_read : HeadError

abbrev pub uncomp_len_of : ChunkRecord → ℕ
uncomp_len_of c = c.uncomp_len

abbrev pub comp_len_of : ChunkRecord → ℕ
comp_len_of c = c.comp_len

-- `gone.iter().map(f).sum::<u64>()`
unfoldable pub sum_u64 : (ChunkRecord → ℕ) → List ChunkRecord → ℕ
sum_u64 f [] = 0
sum_u64 f (c ∷ cs) = add_u64 (f c) (sum_u64 f cs)

unfoldable pub dropped_after : ℕ → FileStore → Dropped
unfolding sum_u64
dropped_after k s = record {
  uncomp_bytes = add_u64 s.dropped.uncomp_bytes (sum_u64 uncomp_len_of (take k s.chunks));
  comp_bytes = add_u64 s.dropped.comp_bytes (sum_u64 comp_len_of (take k s.chunks));
}

-- The bytes that `copy_range` copies.
unfoldable pub copy_range : List ℕ → ℕ → ℕ → Result HeadError (List ℕ)
copy_range from from_off len =
    if len == 0
    then ok []
    else if ltb (length from) (from_off + len)
    then err short_read
    else ok (slice from_off len from)

unfoldable pub rebase : ℕ → ℕ → ChunkRecord → ChunkRecord
rebase uncomp_cut comp_cut c = record c {
  uncomp_start = sub_u64 c.uncomp_start uncomp_cut;
  comp_start = sub_u64 c.comp_start comp_cut;
}

-- The store without its first `k` chunks, of which `last` is the last, over the copied trunk.
unfoldable pub without_head : ℕ → ChunkRecord → List ℕ → FileStore → FileStore
unfolding dropped_after rebase Sap.refresh_base
without_head k last trunk s =
    let comp_cut = comp_end last in
    let uncomp_cut = uncomp_end last in
    let chunks = map (rebase uncomp_cut comp_cut) (drop k s.chunks) in
    let comp_size = sub_u64 s.comp_size comp_cut in
    let buffer_start = sub_u64 s.buffer_start uncomp_cut in
    record s {
      trunk = trunk;
      rings = rings_header s.next_seq (dropped_after k s) s.store_id ++ encode chunks;
      chunks = chunks;
      comp_size = comp_size;
      buffer_start = buffer_start;
      dropped = dropped_after k s;
      cache = none;
      wal = map_option (Sap.refresh_base comp_size buffer_start) s.wal;
    }

abbrev remove_behind : ℕ → FileStore → Option ChunkRecord → Result HeadError FileStore
remove_behind k s none = err out_of_range
remove_behind k s (some last) = do
  trunk ← copy_range s.trunk (comp_end last) (sub_u64 s.comp_size (comp_end last))
  ok (without_head k last trunk s)

unfoldable pub remove_head : ℕ → FileStore → Result HeadError FileStore
unfolding copy_range without_head
remove_head zero s = ok s
remove_head (suc j) s = remove_behind (suc j) s (get_elem? s.chunks j)

-- `take_while(..).count()`: a prefix scan.
unfoldable pub rotation_split : ℕ → FileStore → ℕ
unfolding partition_point
rotation_split cutoff_ms s = partition_point (λ c. ltb c.last_write_ms cutoff_ms) s.chunks
