-- ===== src/Store/Head/Remove.antt =====
-- `remove_head`: what is left of the tape, where it now starts, and the index on disk.
use timberfs.Prelude.{
  ℕ, suc, ◌+◌, ◌-◌, ◌^◌, ◌≤◌, ◌<◌, ◌≡◌, refl, ap, ◌∙◌, sym, List, [], ◌∷◌, ◌++◌, map, concat,
  length, take, drop, All, arith, ok, Bool-cases, inl, inr, ◌==◌, ==_iff, le→ltb, length-take,
  length-drop, take-append-drop, concat-append, append_assoc, drop-append_eq, append-nil, All-drop,
}
use timberfs.Bytes.{slice, IsU64}
use timberfs.Format.{
  ChunkRecord, v2, uncomp_end, comp_end, parse_index_versioned, id_field, header_next_seq,
  header_dropped,
}
use timberfs.Format.Record.{IsRecord}
use timberfs.Format.Index.{encode}
use timberfs.Format.Header.{IsHeader, header_next_seq-rings_header, header_dropped-rings_header}
use timberfs.Format.Parse.{parse_index-encode}
use timberfs.Format.Chunk.{Zstd}
use timberfs.Store.{FileStore, tape_end, tape_start, size}
use timberfs.Store.Inv.{Inv, Frames, Frames-le, Frames-uncomp, content}
use timberfs.Store.Read.{sub_u64}
use timberfs.Store.Read.Rounds.{sub_u64_le}
use timberfs.Store.Head.{
  remove_head, without_head, copy_range, rebase, sum_u64, uncomp_len_of, dropped_after,
}
use timberfs.Store.Head.Rebase.{Split, split, rebase-Frames}

copy_range-slice :
    (from : List ℕ) (off len : ℕ)
    → off + len ≤ length from
    → copy_range from off len ≡ ok (slice off len from)
unfolding copy_range
copy_range-slice from off len h = elim (Bool-cases (len == 0)) [
  | inl e ↦ rw e (ap (λ (n : ℕ). ok (take n (drop off from))) (sym ((==_iff len 0).0 e)))
  | inr e ↦ rw (e, le→ltb (length from) (off + len) h)
]

self_sub : (n : ℕ) → n - n ≡ 0
self_sub n = omega arith

-- The lengths of the frames add up to where they end.
sum-Frames :
    (z : Zstd) (file : List ℕ) (u c um cm : ℕ) (rs : List ChunkRecord) (ds : List (List ℕ))
    → um < 2 ^ 64
    → Frames z file u c um cm rs ds
    → u + sum_u64 uncomp_len_of rs ≡ um
unfolding sum_u64
sum-Frames z file u c um cm [] [] h f = omega (arith, f.0)
sum-Frames z file u c um cm [] (d ∷ ds) h f = absurd f
sum-Frames z file u c um cm (r ∷ rs) [] h f = absurd f
sum-Frames z file u c um cm (r ∷ rs) (d ∷ ds) h (f, fs) =
    omega
      (arith, f.uncomp_len, h, sum-Frames z file (u + length d) (c + r.comp_len) um cm rs ds h fs)

module _ (z : Zstd) (lead j : ℕ) (s : FileStore) (ds : List (List ℕ)) (v : Inv z lead s ds)
    (h : j < length s.chunks) where
  parts : Split z s.trunk 0 lead s.buffer_start s.comp_size j s.chunks ds
  parts = split z s.trunk 0 lead s.buffer_start s.comp_size j s.chunks ds v.trunk_fits h v.frames

  cut : List ℕ
  unfolding parts
  cut = slice parts.cm (s.comp_size - parts.cm) s.trunk

  comp_le : parts.cm ≤ s.comp_size
  unfolding parts
  comp_le =
      Frames-le z s.trunk parts.um parts.cm s.buffer_start s.comp_size (drop (suc j) s.chunks)
        (drop (suc j) ds) parts.back

  uncomp_le : parts.um ≤ s.buffer_start
  uncomp_le = omega (
    arith,
    Frames-uncomp z s.trunk parts.um parts.cm s.buffer_start s.comp_size (drop (suc j) s.chunks)
        (drop (suc j) ds) parts.back,
  )

  removed : remove_head (suc j) s ≡ ok (without_head (suc j) parts.last cut s)
  unfolding remove_head cut
  removed = rw (
    parts.found,
    parts.comp,
    sub_u64_le s.comp_size parts.cm comp_le (omega (arith, v.inside, v.trunk_fits)),
    copy_range-slice s.trunk parts.cm (s.comp_size - parts.cm) (omega (arith, comp_le, v.inside)),
  )

  left : FileStore
  left = without_head (suc j) parts.last cut s

  comp_size : left.comp_size ≡ s.comp_size - parts.cm
  unfolding left without_head
  comp_size =
      ap (sub_u64 s.comp_size) parts.comp
      ∙ sub_u64_le s.comp_size parts.cm comp_le (omega (arith, v.inside, v.trunk_fits))

  buffer_start : left.buffer_start ≡ s.buffer_start - parts.um
  unfolding left without_head
  buffer_start =
      ap (sub_u64 s.buffer_start) parts.uncomp
      ∙ sub_u64_le s.buffer_start parts.um uncomp_le (omega (arith, v.fits))

  chunks : left.chunks ≡ map (rebase parts.um parts.cm) (drop (suc j) s.chunks)
  unfolding left without_head
  chunks = rw (parts.uncomp, parts.comp)

  left-Inv : Inv z 0 left (drop (suc j) ds)
  unfolding left without_head cut
  left-Inv = record {
    frames =
        rw
          (
            parts.uncomp,
            parts.comp,
            sub_u64_le s.comp_size parts.cm comp_le (omega (arith, v.inside, v.trunk_fits)),
            sub_u64_le s.buffer_start parts.um uncomp_le (omega (arith, v.fits)),
          )
          (rw (self_sub parts.um, self_sub parts.cm) at
            (rebase-Frames z s.trunk parts.um parts.cm (s.comp_size - parts.cm) parts.um parts.cm
              s.buffer_start s.comp_size (drop (suc j) s.chunks) (drop (suc j) ds) v.trunk_fits
              (omega (arith, comp_le, v.inside)) (omega arith) (omega arith)
              (omega (arith, comp_le)) parts.back));
    inside = rw (comp_size) (
        omega (
          arith,
          comp_le,
          v.inside,
          length-take (s.comp_size - parts.cm) (drop parts.cm s.trunk),
          length-drop parts.cm s.trunk,
        ));
    trunk_fits = omega (
      arith,
      v.trunk_fits,
      length-take (s.comp_size - parts.cm) (drop parts.cm s.trunk),
      length-drop parts.cm s.trunk,
    );
    fits = omega (arith, buffer_start, v.fits);
    cached = λ i d e. cc;
  }

  tape : content (drop (suc j) ds) left ≡ drop (length (concat (take (suc j) ds))) (content ds s)
  unfolding left without_head
  tape = sym (
      ap (λ t. drop (length (concat front)) (t ++ s.buffer))
        (ap concat (sym (take-append-drop (suc j) ds)) ∙ concat-append front back)
      ∙ ap (drop (length (concat front))) (append_assoc (concat front) (concat back) s.buffer)
      ∙ drop-append_eq (length (concat front)) (concat front) (concat back ++ s.buffer) refl)
    where
      front : List (List ℕ)
      front = take (suc j) ds

      back : List (List ℕ)
      back = drop (suc j) ds

  ends : tape_end left ≡ tape_end s
  unfolding left without_head tape_end tape_start size dropped_after
  ends = omega (
    arith,
    buffer_start,
    uncomp_le,
    v.fits,
    sum-Frames z s.trunk 0 lead parts.um parts.cm (take (suc j) s.chunks) (take (suc j) ds)
        (omega (arith, uncomp_le, v.fits)) parts.front,
  )

  -- On a well-formed store, dropping at least one and at most all chunks succeeds and leaves a well-formed store with no dead
  -- bytes in its trunk; its tape is the old one without the contents of the dropped chunks, the tape
  -- ends at the same position counted from the beginning of the store's life, and the next chunk has
  -- the same number as before.
  pub remove_head-Inv :
      (t : FileStore) × (remove_head (suc j) s ≡ ok t)
      × Inv z 0 t (drop (suc j) ds)
      × (content (drop (suc j) ds) t ≡ drop (length (concat (take (suc j) ds))) (content ds s))
      × (tape_end t ≡ tape_end s)
      × (t.next_seq ≡ s.next_seq)
  unfolding left without_head
  remove_head-Inv = (left, removed, left-Inv, tape, ends, refl)

  rebase-IsRecord :
      (a b : ℕ) (rs : List ChunkRecord) → All IsRecord rs → All IsRecord (map (rebase a b) rs)
  unfolding rebase
  rebase-IsRecord a b [] k = tt
  rebase-IsRecord a b (r ∷ rs) (k, ks) = (
    record {
      uncomp_start = omega arith;
      uncomp_len = k.uncomp_len;
      comp_start = omega arith;
      comp_len = k.comp_len;
      first_write_ms = k.first_write_ms;
      last_write_ms = k.last_write_ms;
      seq = k.seq;
    },
    rebase-IsRecord a b rs ks,
  )

  -- The index that the drop writes is the whole truth about the store it leaves: it parses to the
  -- records in memory, and its header carries the next chunk number and the drop totals.
  pub parse_index-remove_head :
      IsU64 s.next_seq
      → length (id_field s.store_id) ≡ 16
      → All IsRecord s.chunks
      → (t : FileStore) × (remove_head (suc j) s ≡ ok t)
        × (parse_index_versioned t.rings ≡ ok (t.chunks, v2))
        × (header_next_seq t.rings ≡ t.next_seq)
        × (header_dropped t.rings ≡ t.dropped)
  unfolding left without_head dropped_after
  parse_index-remove_head hn hid hr = (
    left,
    removed,
    rw (append-nil (encode left.chunks)) at (
        parse_index-encode s.next_seq (dropped_after (suc j) s) s.store_id left.chunks [] header
          (rebase-IsRecord (uncomp_end parts.last) (comp_end parts.last) (drop (suc j) s.chunks)
            (All-drop IsRecord (suc j) s.chunks hr))
          (omega arith)),
    header_next_seq-rings_header s.next_seq (dropped_after (suc j) s) s.store_id header
        (encode left.chunks),
    header_dropped-rings_header s.next_seq (dropped_after (suc j) s) s.store_id header
        (encode left.chunks),
  )
    where
      header : IsHeader s.next_seq (dropped_after (suc j) s) s.store_id
      header = record {
        next_seq = hn;
        uncomp_bytes = omega arith;
        comp_bytes = omega arith;
        id_len = hid;
      }
