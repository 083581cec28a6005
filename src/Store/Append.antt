-- ===== src/Store/Append.antt =====
-- The appends: they keep the invariant and put the bytes at the end of the tape.
use timberfs.Prelude.{
  ℕ, ◌+◌, ◌^◌, ◌<◌, ◌≡◌, refl, ap, ◌∙◌, sym, List, ◌++◌, length, concat, arith, append_assoc,
  length-append, Bool-cases, if◌then◌else◌, inl, inr, leb,
}
use timberfs.Format.Chunk.{Zstd, RoundTrips}
use timberfs.Store.{FileStore, Config, is_empty, append_buffer, append_windowed}
use timberfs.Store.Inv.{Inv, content}
use timberfs.Store.Flush.{CanFlush, flushed, flush_chunk-Inv, content-flush_chunk}

module _ (now first_ms last_ms : ℕ) (bytes : List ℕ) (s : FileStore) where
  pub buffer-append_buffer : (append_buffer now first_ms last_ms bytes s).buffer ≡ s.buffer ++ bytes
  unfolding append_buffer
  buffer-append_buffer = ground arith

  append_buffer_keeps :
      ((append_buffer now first_ms last_ms bytes s).trunk ≡ s.trunk)
      × ((append_buffer now first_ms last_ms bytes s).chunks ≡ s.chunks)
      × ((append_buffer now first_ms last_ms bytes s).comp_size ≡ s.comp_size)
      × ((append_buffer now first_ms last_ms bytes s).buffer_start ≡ s.buffer_start)
      × ((append_buffer now first_ms last_ms bytes s).cache ≡ s.cache)
  unfolding append_buffer
  append_buffer_keeps = elim (Bool-cases (is_empty s.buffer)) [
    | inl e ↦ rw e (refl, refl, refl, refl, refl)
    | inr e ↦ rw e (refl, refl, refl, refl, refl)
  ]

  pub append_buffer-Inv :
      (z : Zstd) (lead : ℕ) (ds : List (List ℕ))
      → s.buffer_start + length s.buffer + length bytes < 2 ^ 64
      → Inv z lead s ds
      → Inv z lead (append_buffer now first_ms last_ms bytes s) ds
  append_buffer-Inv z lead ds h v =
      let (trunk, chunks, comp_size, start, cache) = append_buffer_keeps in
      record {
        frames = rw (trunk, chunks, comp_size, start) v.frames;
        inside = rw (trunk, comp_size) v.inside;
        trunk_fits = rw (trunk) v.trunk_fits;
        fits = rw (start, buffer-append_buffer) (omega (arith, h, length-append s.buffer bytes));
        cached = rw (cache) v.cached;
      }

module _ (z : Zstd) (laws : RoundTrips z) (cfg : Config) (now first_ms last_ms : ℕ)
    (bytes : List ℕ) where
  -- The chunks' contents after an append.
  abbrev pub appended : List (List ℕ) → FileStore → List (List ℕ)
  appended ds s =
      if leb cfg.chunk_size (length (append_buffer now first_ms last_ms bytes s).buffer)
      then flushed ds (append_buffer now first_ms last_ms bytes s).buffer
      else ds

  module _ (lead : ℕ) (s : FileStore) (ds : List (List ℕ)) where
    -- An append keeps the invariant, whether or not it fills the chunk, where the logical size and a
    -- flush of the grown buffer stay in range; and the tape is then what it was and the new bytes.
    pub append_windowed-Inv :
        s.buffer_start + length s.buffer + length bytes < 2 ^ 64
        → CanFlush z laws cfg (append_buffer now first_ms last_ms bytes s)
        → Inv z lead s ds
        → Inv z lead (append_windowed z cfg now first_ms last_ms bytes s) (appended ds s)
          × (content (appended ds s) (append_windowed z cfg now first_ms last_ms bytes s)
              ≡ content ds s ++ bytes)
    unfolding append_windowed
    append_windowed-Inv h c v =
        elim (Bool-cases
          (leb cfg.chunk_size (length (append_buffer now first_ms last_ms bytes s).buffer))) [
            | inl full ↦ rw full (
              flush_chunk-Inv z laws cfg lead _ ds c grown,
              content-flush_chunk z laws cfg _ ds ∙ tape,
            )
            | inr room ↦ rw room (grown, tape)
          ]
      where
        grown : Inv z lead (append_buffer now first_ms last_ms bytes s) ds
        grown = append_buffer-Inv now first_ms last_ms bytes s z lead ds h v

        tape : content ds (append_buffer now first_ms last_ms bytes s) ≡ content ds s ++ bytes
        tape =
            ap (λ t. concat ds ++ t) (buffer-append_buffer now first_ms last_ms bytes s)
            ∙ sym (append_assoc (concat ds) s.buffer bytes)
