-- ===== src/Store/Read.antt =====
-- `read` and `chunk_data` of src/store.rs: random access through the chunks, with a cache of one.
pub mod Locate
pub mod Cache
pub mod Rounds
pub mod Slice
use timberfs.Prelude.{
  ℕ, zero, suc, ◌+◌, ◌-◌, ◌%◌, ◌^◌, min, List, [], ◌∷◌, ◌++◌, Option, none, some, length, get_elem?,
  Bool, true, false,
}
use timberfs.Prelude.{Result, ok, err, map_ok, ltb, leb, ◌||◌, ◌==◌, if◌then◌else◌}
use timberfs.Bytes.{slice}
use timberfs.Format.{ChunkRecord, uncomp_end}
use timberfs.Format.Chunk.{Zstd, ChunkError, load_chunk, saturating_add}
use timberfs.Store.{FileStore, size, partition_point}

-- A chunk's error; an index out of range, which panics; and the loop out of fuel, which is no value
-- of the code.
pub data ReadError : Type 0 where
  chunk : ChunkError → ReadError
  out_of_range : ReadError
  stuck : ReadError

-- `a - b` on `u64` in a release build
abbrev pub sub_u64 : ℕ → ℕ → ℕ
sub_u64 a b = (a + 2 ^ 64 - b) % 2 ^ 64

abbrev with_cache :
    ℕ → FileStore → Result ChunkError (List ℕ) → Result ReadError (List ℕ) × FileStore
with_cache idx s (ok out) = (ok out, record s { cache = some (idx, out) })
with_cache idx s (err e) = (err (chunk e), s)

unfoldable pub load : Zstd → ℕ → ChunkRecord → FileStore → Result ReadError (List ℕ) × FileStore
load z idx c s = with_cache idx s (load_chunk z s.trunk c)

-- The cached chunk, or the one loaded, which takes its place.
abbrev cached_or :
    Zstd → ℕ → ChunkRecord → FileStore → Option (ℕ × List ℕ) → Result ReadError (List ℕ) × FileStore
cached_or z idx c s none = load z idx c s
cached_or z idx c s (some (i, d)) = if i == idx then (ok d, s) else load z idx c s

unfoldable pub chunk_data :
    Zstd → ℕ → ChunkRecord → FileStore → Result ReadError (List ℕ) × FileStore
unfolding load
chunk_data z idx c s = cached_or z idx c s s.cache

-- `&bytes[from..to]`, which panics out of range.
unfoldable pub range : ℕ → ℕ → List ℕ → Result ReadError (List ℕ)
range from to bytes =
    if ltb to from || ltb (length bytes) to
    then err out_of_range
    else ok (slice from (to - from) bytes)

-- `out.extend_from_slice`: a part in front of what the later rounds add.
abbrev extend :
    Result ReadError (List ℕ)
    → Result ReadError (List ℕ) × FileStore
    → Result ReadError (List ℕ) × FileStore
extend (ok part) later = (map_ok (λ rest. part ++ rest) later.0, later.1)
extend (err e) later = (err e, later.1)

-- The loop `while pos < end`. Each round moves `pos` by a byte at least, so `end - pos` rounds are
-- enough.
unfoldable pub read_loop : Zstd → ℕ → ℕ → ℕ → FileStore → Result ReadError (List ℕ) × FileStore
read_loop z zero pos end s = if leb end pos then (ok [], s) else (err stuck, s)
read_loop z (suc fuel) pos end s =
    let idx = partition_point (λ c. leb (uncomp_end c) pos) s.chunks in
    elim (leb end pos) [
      | true ↦ (ok [], s)
      | false ↦ elim (leb s.buffer_start pos) [
        | true ↦ (range (pos - s.buffer_start) (end - s.buffer_start) s.buffer, s)
        | false ↦ elim (get_elem? s.chunks idx) [
          | none ↦ (err out_of_range, s)
          | some c ↦
              let stop = min end (uncomp_end c) in
              let (loaded, s') = chunk_data z idx c s in
              elim loaded [
                | err e ↦ (err e, s')
                | ok bytes ↦
                    extend (range (sub_u64 pos c.uncomp_start) (sub_u64 stop c.uncomp_start) bytes)
                      (read_loop z fuel stop end s')
              ]
        ]
      ]
    ]

unfoldable pub read : Zstd → ℕ → ℕ → FileStore → Result ReadError (List ℕ) × FileStore
unfolding read_loop size
read z offset n s =
    let end = min (saturating_add offset n) (size s) in
    if leb end offset then (ok [], s) else read_loop z (end - offset) offset end s
