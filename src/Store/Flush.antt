-- ===== src/Store/Flush.antt =====
-- `flush_chunk` and the appends keep the invariant, and the tape loses nothing.
use timberfs.Prelude.{
  ℕ, ◌+◌, ◌^◌, ◌≤◌, ◌<◌, ◌≡◌, refl, sym, List, [], ◌∷◌, ◌++◌, length, concat, arith, append-nil,
  concat-snoc, Bool-cases, false, if◌then◌else◌, inl, inr,
}
use timberfs.Bytes.{write_at}
use timberfs.Bytes.File.{length-write_at, write_at-before, slice-write_at}
use timberfs.Format.Chunk.{Zstd, IsFrame, RoundTrips}
use timberfs.Store.{
  FileStore, Config, is_empty, buffer_record, flush_chunk, flush_seal, flush_frame, flush_index,
  flush_unseal, sealing,
}
use timberfs.Prelude.{max, get_elem?-append}
use native.Mathlib.Nat.{mod-eq_of_lt}
use timberfs.Store.Inv.{Inv, Frames-prefix, Frames-snoc, content}

-- The chunks' contents once the buffer is a chunk too.
abbrev pub flushed : List (List ℕ) → List ℕ → List (List ℕ)
flushed ds buffer = if is_empty buffer then ds else ds ++ (buffer ∷ [])

is_empty→pos : (xs : List ℕ) → is_empty xs ≡ false → 0 < length xs
is_empty→pos [] e = cc
is_empty→pos (x ∷ xs) e = omega arith

concat-flushed :
    (ds : List (List ℕ)) (buffer : List ℕ) → concat (flushed ds buffer) ≡ concat ds ++ buffer
concat-flushed ds [] = sym (append-nil (concat ds))
concat-flushed ds (b ∷ bs) = concat-snoc ds (b ∷ bs)

module _ (z : Zstd) (laws : RoundTrips z) (cfg : Config) where
  -- The buffer and its frame are no larger than a chunk may be, and the trunk stays addressable.
  pub record CanFlush (s : FileStore) : Type 0 where
    pub chunk_len : length s.buffer ≤ 2 ^ 32
    pub frame_len : length (z.encode cfg.level s.buffer) ≤ 2 ^ 32
    pub trunk_fits : s.comp_size + length (z.encode cfg.level s.buffer) < 2 ^ 64

  -- The steps that touch the segment change neither the pair nor the chunks.
  seal-Inv :
      (lead : ℕ) (s : FileStore) (ds : List (List ℕ))
      → Inv z lead s ds
      → Inv z lead (flush_seal s) ds
  unfolding flush_seal
  seal-Inv lead s ds v = elim (Bool-cases (sealing s)) [
    | inl e ↦ rw e (record {
      frames = v.frames;
      inside = v.inside;
      trunk_fits = v.trunk_fits;
      fits = v.fits;
      cached = v.cached;
    })
    | inr e ↦ rw e v
  ]

  unseal-Inv :
      (lead : ℕ) (s : FileStore) (ds : List (List ℕ))
      → Inv z lead s ds
      → Inv z lead (flush_unseal s) ds
  unfolding flush_unseal
  unseal-Inv lead s ds v = elim (Bool-cases (sealing s)) [
    | inl e ↦ rw e (record {
      frames = v.frames;
      inside = v.inside;
      trunk_fits = v.trunk_fits;
      fits = v.fits;
      cached = v.cached;
    })
    | inr e ↦ rw e v
  ]

  -- The new record keeps its promise about the trunk that the frame was written to.
  pub new-IsFrame :
      (lead : ℕ) (s : FileStore) (ds : List (List ℕ))
      → 0 < length s.buffer
      → CanFlush s
      → Inv z lead s ds
      → IsFrame z
          (write_at s.trunk s.comp_size (z.encode cfg.level s.buffer))
          s.buffer_start
          s.comp_size
          (buffer_record s (length (z.encode cfg.level s.buffer)))
          s.buffer
  new-IsFrame lead s ds h c v = record {
    uncomp_start = refl;
    uncomp_len = refl;
    comp_start = refl;
    inside =
        omega (arith, length-write_at s.trunk (z.encode cfg.level s.buffer) s.comp_size v.inside);
    frame_len = c.frame_len;
    chunk_len = c.chunk_len;
    nonempty = h;
    fits = v.fits;
    decoded =
        rw (slice-write_at s.trunk (z.encode cfg.level s.buffer) s.comp_size v.inside)
          (laws.decode-encode cfg.level s.buffer);
  }

  pub written :
      (lead : ℕ) (s : FileStore) (ds : List (List ℕ))
      → 0 < length s.buffer
      → CanFlush s
      → Inv z lead s ds
      → Inv z lead
          (flush_index
            (length (z.encode cfg.level s.buffer))
            (flush_frame (z.encode cfg.level s.buffer) s))
          (ds ++ (s.buffer ∷ []))
  unfolding flush_frame flush_index
  written lead s ds h c v = record {
    frames =
        rw (mod-eq_of_lt v.fits, mod-eq_of_lt c.trunk_fits)
          (Frames-snoc z (write_at s.trunk s.comp_size frame) 0 lead s.buffer_start s.comp_size
            s.chunks ds (buffer_record s (length frame)) s.buffer
            (Frames-prefix z s.trunk (write_at s.trunk s.comp_size frame) 0 lead s.buffer_start
              s.comp_size s.comp_size s.chunks ds
              (write_at-before s.trunk frame s.comp_size v.inside) (omega (arith, grown, v.inside))
              (omega arith) v.frames)
            (new-IsFrame lead s ds h c v));
    inside = omega (arith, grown, v.inside, c.trunk_fits);
    trunk_fits = omega (arith, grown, v.trunk_fits, c.trunk_fits);
    fits = omega (arith, v.fits);
    cached = λ i d e. get_elem?-append ds (s.buffer ∷ []) i d (v.cached i d e);
  }
    where
      frame : List ℕ
      frame = z.encode cfg.level s.buffer

      grown :
          length (write_at s.trunk s.comp_size (z.encode cfg.level s.buffer))
          ≡ max (length s.trunk) (s.comp_size + length (z.encode cfg.level s.buffer))
      grown = length-write_at s.trunk (z.encode cfg.level s.buffer) s.comp_size v.inside

  buffer-flush_seal : (s : FileStore) → (flush_seal s).buffer ≡ s.buffer
  unfolding flush_seal
  buffer-flush_seal s = elim (Bool-cases (sealing s)) [ inl e ↦ rw e | inr e ↦ rw e ]

  comp_size-flush_seal : (s : FileStore) → (flush_seal s).comp_size ≡ s.comp_size
  unfolding flush_seal
  comp_size-flush_seal s = elim (Bool-cases (sealing s)) [ inl e ↦ rw e | inr e ↦ rw e ]

  all_steps :
      (lead : ℕ) (s : FileStore) (ds : List (List ℕ))
      → 0 < length s.buffer
      → CanFlush s
      → Inv z lead s ds
      → Inv z lead
          (flush_unseal (
            flush_index
              (length (z.encode cfg.level s.buffer))
              (flush_frame (z.encode cfg.level s.buffer) (flush_seal s))))
          (ds ++ (s.buffer ∷ []))
  unfolding flush_seal
  all_steps lead s ds h c v =
      unseal-Inv lead
        (flush_index (length (z.encode cfg.level s.buffer))
          (flush_frame (z.encode cfg.level s.buffer) (flush_seal s)))
        (ds ++ (s.buffer ∷ []))
        (rw (buffer-flush_seal s) at (
          written lead (flush_seal s) ds (rw (buffer-flush_seal s) h)
            (record {
              chunk_len = rw (buffer-flush_seal s) c.chunk_len;
              frame_len = rw (buffer-flush_seal s) c.frame_len;
              trunk_fits = rw (buffer-flush_seal s, comp_size-flush_seal s) c.trunk_fits;
            })
            (seal-Inv lead s ds v)))

  -- On a well-formed store whose chunk and frame are of a size that a chunk may have and fit the trunk,
  -- a flush keeps the store well formed; the chunks are then the old ones and, where the buffer is not
  -- empty, one more with the contents of the buffer.
  pub flush_chunk-Inv :
      (lead : ℕ) (s : FileStore) (ds : List (List ℕ))
      → CanFlush s
      → Inv z lead s ds
      → Inv z lead (flush_chunk z cfg s) (flushed ds s.buffer)
  unfolding flush_chunk
  flush_chunk-Inv lead s ds c v = elim (Bool-cases (is_empty s.buffer)) [
    | inl e ↦ rw e v
    | inr e ↦ rw e (all_steps lead s ds (is_empty→pos s.buffer e) c v)
  ]

  -- After a flush the buffer is empty.
  pub buffer-flush_chunk : (s : FileStore) → (flush_chunk z cfg s).buffer ≡ []
  unfolding flush_chunk flush_index flush_unseal
  buffer-flush_chunk s = ground arith

  -- A flush leaves the tape as it was, where the chunks after it are the old ones and the buffer.
  pub content-flush_chunk :
      (s : FileStore) (ds : List (List ℕ))
      → content (flushed ds s.buffer) (flush_chunk z cfg s) ≡ content ds s
  content-flush_chunk s ds =
      rw (buffer-flush_chunk s, append-nil (concat (flushed ds s.buffer)))
        (concat-flushed ds s.buffer)
