-- ===== src/Store/Stage/Rollback.antt =====
-- The baseline that `stage` takes stays true under the flushes, and `abort_stage` goes back to it.
use timberfs.Prelude.{
  ℕ, ◌+◌, ◌^◌, ◌≤◌, ◌<◌, ◌≡◌, refl, List, [], ◌∷◌, none, some, length, take, concat, get_elem?,
  arith, take_all, take-append_le, length-take, length-append, append-nil,
}
use timberfs.Bytes.File.{set_len_shorter, write_at-before, length-write_at}
use timberfs.Bytes.{write_at}
use timberfs.Format.Chunk.{Zstd}
use timberfs.Store.{StageBaseline, FileStore, flush_index, flush_frame}
use timberfs.Store.Inv.{Inv, Frames, Frames-prefix, content}
use timberfs.Store.Stage.{stage, abort_stage}

-- The chunks of the baseline are the first of the store, they hold `ds`, and end where it says.
pub record Baseline (z : Zstd) (lead : ℕ) (b : StageBaseline) (s : FileStore) (ds : List (List ℕ))
    : Type 0 where
  pub staged : s.staged ≡ some b
  pub frames : Frames z s.trunk 0 lead b.buffer_start b.comp_size (take b.chunks s.chunks) ds
  pub inside : b.comp_size ≤ s.comp_size
  pub count : b.chunks ≤ length s.chunks
  pub fits : b.buffer_start < 2 ^ 64
  pub cached : (i : ℕ) (d : List ℕ) → s.cache ≡ some (i, d) → get_elem? ds i ≡ some d

pub stage-Baseline :
    (z : Zstd) (lead : ℕ) (s : FileStore) (ds : List (List ℕ))
    → Inv z lead s ds
    → Baseline z lead
        (record {
          chunks = length s.chunks;
          comp_size = s.comp_size;
          buffer_start = s.buffer_start;
        })
        (stage s)
        ds
unfolding stage
stage-Baseline z lead s ds v = record {
  staged = refl;
  frames = rw (take_all (length s.chunks) s.chunks (omega arith)) v.frames;
  inside = omega arith;
  count = omega arith;
  fits = omega (arith, v.fits);
  cached = v.cached;
}

-- Writing a frame behind the compressed size, and its record to memory, changes nothing of the baseline.
pub write-Baseline :
    (z : Zstd) (lead : ℕ) (b : StageBaseline) (s : FileStore) (ds : List (List ℕ)) (comp : List ℕ)
    → s.comp_size ≤ length s.trunk
    → s.comp_size + length comp < 2 ^ 64
    → Baseline z lead b s ds
    → Baseline z lead b (flush_index (length comp) (flush_frame comp s)) ds
unfolding flush_index flush_frame
write-Baseline z lead b s ds comp hi fits v = record {
  staged = v.staged;
  frames = rw (take-append_le b.chunks s.chunks (_ ∷ []) v.count) (
      Frames-prefix z s.trunk (write_at s.trunk s.comp_size comp) 0 lead b.buffer_start b.comp_size
        s.comp_size (take b.chunks s.chunks) ds (write_at-before s.trunk comp s.comp_size hi)
        (omega (arith, length-write_at s.trunk comp s.comp_size hi, hi)) v.inside v.frames);
  inside = omega (arith, v.inside, fits);
  count = omega (arith, v.count, length-append s.chunks (_ ∷ []));
  fits = v.fits;
  cached = v.cached;
}

-- An abort goes back to the store of the baseline: well formed, with its chunks and their contents,
-- an empty buffer, no byte in the trunk behind them, and no longer staged. A cached chunk has to be
-- one of them.
pub abort_stage-Inv :
    (z : Zstd) (lead : ℕ) (b : StageBaseline) (s : FileStore) (ds : List (List ℕ))
    → s.comp_size ≤ length s.trunk
    → length s.trunk < 2 ^ 64
    → Baseline z lead b s ds
    → Inv z lead (abort_stage s) ds
      × ((abort_stage s).staged ≡ none)
      × (length (abort_stage s).trunk ≡ b.comp_size)
      × (content ds (abort_stage s) ≡ concat ds)
unfolding abort_stage
abort_stage-Inv z lead b s ds hi small v =
    rw (v.staged, set_len_shorter b.comp_size s.trunk (omega (arith, v.inside, hi)))
      (
        record {
          frames =
              Frames-prefix z s.trunk (take b.comp_size s.trunk) 0 lead b.buffer_start b.comp_size
                b.comp_size (take b.chunks s.chunks) ds
                (take_all b.comp_size (take b.comp_size s.trunk) (omega (arith, len)))
                (omega (arith, len)) (omega arith) v.frames;
          inside = omega (arith, len);
          trunk_fits = omega (arith, len, v.inside, hi, small);
          fits = omega (arith, v.fits);
          cached = v.cached;
        },
        refl,
        len,
        append-nil (concat ds),
      )
  where
    len : length (take b.comp_size s.trunk) ≡ b.comp_size
    len = omega (arith, length-take b.comp_size s.trunk, v.inside, hi)
