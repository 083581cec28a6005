-- ===== src/Store/Read/Rounds.antt =====
-- The rounds of the read loop, and the slices that they add.
use timberfs.Prelude.{
  ℕ, zero, suc, ◌-◌, ◌^◌, ◌≤◌, ◌<◌, ◌≡◌, ap, ◌∙◌, min, List, [], ◌++◌, some, length, take, drop,
  get_elem?, arith,
}
use timberfs.Prelude.{true, false, leb, le→ltb, drop-drop, take-add}
use timberfs.Bytes.{slice}
use timberfs.Format.{ChunkRecord, uncomp_end}
use timberfs.Format.Chunk.{Zstd}
use timberfs.Prelude.{Result, ok}
use timberfs.Store.Read.{ReadError, chunk_data, range, extend, sub_u64, read_loop}
use timberfs.Store.{FileStore, partition_point}

pub sub_u64_le : (a b : ℕ) → b ≤ a → a < 2 ^ 64 → sub_u64 a b ≡ a - b
sub_u64_le a b h k = omega arith

-- A range inside its bytes is their slice.
pub range-ok :
    (from to : ℕ) (bytes : List ℕ)
    → from ≤ to
    → to ≤ length bytes
    → range from to bytes ≡ ok (slice from (to - from) bytes)
unfolding range
range-ok from to bytes h k = rw (le→ltb to from h, le→ltb (length bytes) to k)

-- The tape from `pos` on is a chunk's part and then what lies behind it.
pub slice_next :
    (pos stop end : ℕ) (tape : List ℕ)
    → pos ≤ stop
    → stop ≤ end
    → slice pos (end - pos) tape ≡ slice pos (stop - pos) tape ++ slice stop (end - stop) tape
slice_next pos stop end tape h k =
    take-add (stop - pos) (end - stop) (end - pos) (drop pos tape) (omega arith)
    ∙ ap (λ t. slice pos (stop - pos) tape ++ take (end - stop) t)
        (drop-drop pos (stop - pos) stop tape (omega arith))

-- The rounds of the loop, one equation for each way to go.
module _ (z : Zstd) (fuel pos end : ℕ) (s : FileStore) where
  pub round_done : leb end pos ≡ true → read_loop z fuel pos end s ≡ (ok [], s)
  unfolding read_loop
  round_done done = go fuel
    where
      go : (n : ℕ) → read_loop z n pos end s ≡ (ok [], s)
      go zero = rw done
      go (suc n) = rw (done, read_loop)

  pub round_buffer :
      leb end pos ≡ false
      → leb s.buffer_start pos ≡ true
      → read_loop z (suc fuel) pos end s
        ≡ (range (pos - s.buffer_start) (end - s.buffer_start) s.buffer, s)
  unfolding read_loop
  round_buffer more late = rw (more, late, read_loop)

  pub round_chunk :
      (c : ChunkRecord) (bytes : List ℕ) (s' : FileStore)
      → leb end pos ≡ false
      → leb s.buffer_start pos ≡ false
      → get_elem? s.chunks (partition_point (λ r. leb (uncomp_end r) pos) s.chunks) ≡ some c
      → chunk_data z (partition_point (λ r. leb (uncomp_end r) pos) s.chunks) c s ≡ (ok bytes, s')
      → read_loop z (suc fuel) pos end s
        ≡ extend
            (range
              (sub_u64 pos c.uncomp_start)
              (sub_u64 (min end (uncomp_end c)) c.uncomp_start)
              bytes)
            (read_loop z fuel (min end (uncomp_end c)) end s')
  unfolding read_loop
  round_chunk c bytes s' more early found loaded =
      rw (more, read_loop)
        (rw early (
          rw found (
            rw (
              ap (λ (p : Result ReadError (List ℕ) × FileStore). p.0) loaded,
              ap (λ (p : Result ReadError (List ℕ) × FileStore). p.1) loaded,
            ))))
