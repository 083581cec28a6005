-- ===== src/Store/Read/Slice.antt =====
-- `read` returns the slice of the tape that it is asked for.
use timberfs.Prelude.{
  ℕ, zero, suc, ◌+◌, ◌-◌, ◌≤◌, ◌<◌, ◌≡◌, ap, ◌∙◌, sym, min, List, Option, length, take, drop,
  concat, arith,
}
use timberfs.Prelude.{
  false, leb, Bool-cases, inl, inr, leb→le, le→leb, leb→lt, length-append, drop-append_ge,
  length-drop,
}
use native.Mathlib.Nat.{mod-eq_of_lt}
use timberfs.Bytes.{slice, IsU64}
use timberfs.Format.{uncomp_end}
use timberfs.Format.Chunk.{Zstd}
use timberfs.Prelude.{ok}
use mathlib.Core.Path.{subst}
use timberfs.Prelude.{take-min, eq_nil, length-take}
use timberfs.Format.Chunk.{saturating_add, load_chunk-IsFrame}
use timberfs.Store.Read.{chunk_data, range, sub_u64, read_loop, read}
use timberfs.Store.{FileStore, partition_point, size}
use timberfs.Store.Inv.{Inv, content, Frames-uncomp}
use timberfs.Store.Read.Locate.{Located, locate, end-IsFrame, slice_first}
use timberfs.Store.Read.Cache.{Reads, chunk_data-Reads}
use timberfs.Store.Read.Rounds.{
  sub_u64_le, range-ok, slice_next, round_done, round_buffer, round_chunk,
}

module _ (z : Zstd) (lead : ℕ) (ds : List (List ℕ)) where
  -- The last round, in the buffer.
  in_buffer :
      (pos end : ℕ) (s : FileStore)
      → Inv z lead s ds
      → s.buffer_start ≤ pos
      → pos ≤ end
      → end ≤ s.buffer_start + length s.buffer
      → range (pos - s.buffer_start) (end - s.buffer_start) s.buffer
        ≡ ok (slice pos (end - pos) (content ds s))
  in_buffer pos end s v lo h hi =
      range-ok (pos - s.buffer_start) (end - s.buffer_start) s.buffer (omega arith) (omega arith)
      ∙ ap ok (λ i. take (n i) (behind i))
    where
      n : (end - s.buffer_start) - (pos - s.buffer_start) ≡ end - pos
      n = omega arith

      behind : drop (pos - s.buffer_start) s.buffer ≡ drop pos (content ds s)
      behind = sym (
          drop-append_ge pos (pos - s.buffer_start) (concat ds) s.buffer (
            omega (
              arith,
              Frames-uncomp z s.trunk 0 lead s.buffer_start s.comp_size s.chunks ds v.frames,
            )))

  -- One chunk's part of the tape, up to `stop`.
  chunk_part :
      (pos stop idx : ℕ) (s : FileStore)
      → Inv z lead s ds
      → (l : Located z s.trunk 0 s.buffer_start pos idx s.chunks ds) → pos ≤ stop
      → stop ≤ l.start + length l.bytes
      → range (sub_u64 pos l.rec.uncomp_start) (sub_u64 stop l.rec.uncomp_start) l.bytes
        ≡ ok (slice pos (stop - pos) (content ds s))
  chunk_part pos stop idx s v l h hi =
      rw
        (
          l.frame.uncomp_start,
          sub_u64_le pos l.start l.after (omega (arith, l.before, l.frame.fits)),
          sub_u64_le stop l.start (omega (arith, l.after)) (omega (arith, l.frame.fits)),
        )
        (range-ok (pos - l.start) (stop - l.start) l.bytes (omega arith) (omega arith)
          ∙ ap ok (
              (λ i. take (n i) (drop (pos - l.start) l.bytes))
              ∙ sym (l.part (stop - pos) (omega arith))
              ∙ (λ i. slice (from_zero i) (stop - pos) (concat ds))
              ∙ sym (
                  slice_first pos (stop - pos) (concat ds) s.buffer
                    (omega (arith, l.within, len)))))
    where
      from_zero : pos - 0 ≡ pos
      from_zero = omega arith

      n : (stop - l.start) - (pos - l.start) ≡ stop - pos
      n = omega (arith, l.after)

      len : s.buffer_start ≡ length (concat ds)
      len =
          omega
            (arith, Frames-uncomp z s.trunk 0 lead s.buffer_start s.comp_size s.chunks ds v.frames)

  finished :
      (fuel pos end : ℕ) (s : FileStore)
      → Inv z lead s ds
      → end ≤ pos
      → Reads (read_loop z fuel pos end s) (slice pos (end - pos) (content ds s)) s ds
  finished fuel pos end s v h = (
    s.cache,
    round_done z fuel pos end s (le→leb end pos h)
        ∙ ap (λ t. (ok t, s)) (λ i. take (none_left i) (drop pos (content ds s))),
    v.cached,
  )
    where
      none_left : 0 ≡ end - pos
      none_left = omega arith

  -- A round in a chunk, and what the later rounds read.
  in_chunk :
      (fuel pos end : ℕ) (s : FileStore) (v : Inv z lead s ds)
      (l : Located z s.trunk 0 s.buffer_start pos
        (partition_point (λ r. leb (uncomp_end r) pos) s.chunks)
        s.chunks
        ds)
      (k : Option (ℕ × List ℕ))
      → leb end pos ≡ false
      → leb s.buffer_start pos ≡ false
      → chunk_data z (partition_point (λ r. leb (uncomp_end r) pos) s.chunks) l.rec s
        ≡ (ok l.bytes, record s { cache = k })
      → Reads
          (read_loop z fuel (min end (l.start + length l.bytes)) end (record s { cache = k }))
          (slice
            (min end (l.start + length l.bytes))
            (end - min end (l.start + length l.bytes))
            (content ds s))
          s
          ds
      → Reads (read_loop z (suc fuel) pos end s) (slice pos (end - pos) (content ds s)) s ds
  in_chunk fuel pos end s v l k more early loaded (k', later, holds) = (
    k',
    round_chunk z fuel pos end s l.rec l.bytes (record s { cache = k }) more early l.found loaded
        ∙ rw
            (
              end-IsFrame z s.trunk l.start l.at l.rec l.bytes l.frame,
              chunk_part pos stop _ s v l (omega (arith, l.before, leb→lt end pos more))
                  (omega arith),
              later,
            )
            (ap (λ t. (ok t, record s { cache = k' }))
              (sym (
                slice_next pos stop end (content ds s)
                  (omega (arith, l.before, leb→lt end pos more)) (omega arith)))),
    holds,
  )
    where
      stop : ℕ
      stop = min end (l.start + length l.bytes)

  pub read_loop-Reads :
      (fuel pos end : ℕ) (s : FileStore)
      → Inv z lead s ds
      → pos ≤ end
      → end ≤ s.buffer_start + length s.buffer
      → end - pos ≤ fuel
      → Reads (read_loop z fuel pos end s) (slice pos (end - pos) (content ds s)) s ds
  read_loop-Reads zero pos end s v h hi enough = finished zero pos end s v (omega arith)
  read_loop-Reads (suc fuel) pos end s v h hi enough = elim (Bool-cases (leb end pos)) [
    | inl done ↦ finished (suc fuel) pos end s v (leb→le end pos done)
    | inr more ↦ elim (Bool-cases (leb s.buffer_start pos)) [
      | inl late ↦ (
        s.cache,
        round_buffer z fuel pos end s more late
            ∙ ap (λ r. (r, s)) (in_buffer pos end s v (leb→le s.buffer_start pos late) h hi),
        v.cached,
      )
      | inr early ↦
          let l =
            locate z s.trunk 0 lead s.buffer_start s.comp_size pos s.chunks ds v.frames
              (omega arith) (leb→lt s.buffer_start pos early) in
          let (k, loaded, holds) =
            chunk_data-Reads z _ l.rec s ds l.bytes
              (load_chunk-IsFrame z s.trunk l.start l.at l.rec l.bytes l.frame) l.holds v.cached in
          in_chunk fuel pos end s v l k more early loaded (
            read_loop-Reads fuel (min end (l.start + length l.bytes)) end (record s { cache = k })
              (record {
                frames = v.frames;
                inside = v.inside;
                trunk_fits = v.trunk_fits;
                fits = v.fits;
                cached = holds;
              })
              (omega arith) hi (omega (arith, l.before, leb→lt end pos more)))
    ]
  ]

  -- On a well-formed store, a read at a 64-bit offset succeeds and returns exactly the bytes of the tape
  -- from the offset on, at most the number asked for; of the store it changes the cache at most, which
  -- then still holds what the chunk holds.
  pub read-Reads :
      (offset n : ℕ) (s : FileStore)
      → Inv z lead s ds
      → IsU64 offset
      → Reads (read z offset n s) (slice offset n (content ds s)) s ds
  unfolding read size
  read-Reads offset n s v h = rw (mod-eq_of_lt v.fits) (elim (Bool-cases (leb end offset)) [
    | inl none_there ↦ (
      s.cache,
      rw none_there (
          ap (λ t. (ok t, s))
            (sym
              (eq_nil (slice offset n (content ds s)) (nothing (leb→le end offset none_there))))),
      v.cached,
    )
    | inr more ↦ rw more (
        subst (λ t. Reads (read_loop z (end - offset) offset end s) t s ds)
          (same (leb→lt end offset more))
          (read_loop-Reads (end - offset) offset end s v (omega (arith, leb→lt end offset more))
            (omega arith) (omega arith)))
  ])
    where
      end : ℕ
      end = min (saturating_add offset n) (s.buffer_start + length s.buffer)

      tape_len : length (content ds s) ≡ s.buffer_start + length s.buffer
      tape_len = omega (
        arith,
        length-append (concat ds) s.buffer,
        Frames-uncomp z s.trunk 0 lead s.buffer_start s.comp_size s.chunks ds v.frames,
      )

      nothing : end ≤ offset → length (slice offset n (content ds s)) ≡ 0
      nothing e = omega (
        arith,
        e,
        tape_len,
        v.fits,
        length-take n (drop offset (content ds s)),
        length-drop offset (content ds s),
      )

      same :
          offset < end → slice offset (end - offset) (content ds s) ≡ slice offset n (content ds s)
      same e =
          ap (λ (k : ℕ). take k (drop offset (content ds s)))
            (omega (arith, e, tape_len, v.fits, length-drop offset (content ds s)))
          ∙ take-min n (drop offset (content ds s))
