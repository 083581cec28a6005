-- ===== src/Store/Open/Crash.antt =====
-- A crash in the middle of a flush of a store with a live segment, and the open after it.
use timberfs.Prelude.{
  ℕ, ◌+◌, ◌^◌, ◌≤◌, ◌<◌, ◌≡◌, refl, ap, ◌∙◌, sym, List, [], ◌∷◌, ◌++◌, Option, none, some, length,
  take, All, arith, Bool, length-append, length-take, take_all, take-append_ge,
}
use timberfs.Bytes.{write_at}
use timberfs.Bytes.File.{write_at_end}
use timberfs.Format.{ChunkRecord, Dropped, rings_header, to_bytes}
use timberfs.Format.Record.{IsRecord}
use timberfs.Format.Index.{encode, length-encode}
use timberfs.Format.Header.{IsHeader, IsId, length-rings_header}
use timberfs.Format.Chunk.{Zstd, RoundTrips}
use timberfs.Sap.{Sap, SapEntry}
use timberfs.Sap.Record.{IsEntry}
use timberfs.Sap.Segment.{segment}
use timberfs.Store.{Config, FileStore, buffer_record, rec_off, flush_seal, flush_frame, flush_index}
use timberfs.Store.Inv.{Inv, Frames, Frames-prefix, Frames-snoc}
use timberfs.Store.Flush.{CanFlush, new-IsFrame}
use timberfs.Prelude.{take-append_le}
use timberfs.Store.Open.{
  Disk, Opened, from_index, open_sap, open_seal, restart_age, drop_truncated, apply_entries,
}
use timberfs.Store.Open.Replay.{payloads, apply_entries-Applied}
use timberfs.Store.Open.Recover.{
  from_index-Inv, no_live_segment, open_seal-unlanded, open_seal-landed,
}

-- What is on disk when a crash strikes a flush before the two files are synced: the segment has been
-- sealed, and of the writes of the frame and of the record any `i` and any `j` bytes have landed.
unfoldable pub crashed : Zstd → Config → ℕ → ℕ → FileStore → Disk
unfolding flush_seal flush_frame flush_index
crashed z cfg i j s =
    let comp = z.encode cfg.level s.buffer in
    let after = flush_index (length comp) (flush_frame comp (flush_seal s)) in
    record {
      trunk = take (s.comp_size + i) after.trunk;
      rings = take (rec_off (length s.chunks) + j) after.rings;
      sap = none;
      seal = after.seal;
    }

-- A store whose files say what its memory says, with a live segment that holds its buffer.
pub record Ready (z : Zstd) (laws : RoundTrips z) (cfg : Config) (lead n : ℕ) (d : Dropped)
    (id : Option (List ℕ)) (s : FileStore) (ds : List (List ℕ)) (w : Sap) (es : List SapEntry)
    : Type 0 where
  pub inv : Inv z lead s ds
  pub lead_used : s.chunks ≡ [] → lead ≡ 0
  pub no_orphans : length s.trunk ≡ s.comp_size
  pub header : IsHeader n d id
  pub is_id : IsId id
  pub records : All IsRecord s.chunks
  pub rings : s.rings ≡ rings_header n d id ++ encode s.chunks
  pub unstaged : s.staged ≡ none
  pub live : s.wal ≡ some w
  pub segment_holds : w.bytes ≡ segment s.comp_size s.buffer_start es
  pub entries : All IsEntry es
  pub buffered : payloads es ≡ s.buffer
  pub nonempty : 0 < length s.buffer
  pub frame_nonempty : 0 < length (z.encode cfg.level s.buffer)
  pub record_fits : IsRecord (buffer_record s (length (z.encode cfg.level s.buffer)))
  pub can_flush : CanFlush z laws cfg s

module _ (z : Zstd) (laws : RoundTrips z) (cfg : Config) (lead n : ℕ) (d : Dropped)
    (id : Option (List ℕ)) (s : FileStore) (ds : List (List ℕ)) (w : Sap) (es : List SapEntry)
    (r : Ready z laws cfg lead n d id s ds w es) where
  unfoldable pub comp : List ℕ
  comp = z.encode cfg.level s.buffer

  unfoldable pub rec : ChunkRecord
  unfolding comp
  rec = buffer_record s (length comp)

  rings_len : length s.rings ≡ rec_off (length s.chunks)
  rings_len = rw (r.rings) (
      omega (
        arith,
        length-append (rings_header n d id) (encode s.chunks),
        length-rings_header n d id r.header [],
        length-encode s.chunks,
      ))

  sealed : flush_seal s ≡ record s { seal = some (segment s.comp_size s.buffer_start es) }
  unfolding flush_seal
  sealed = rw (r.unstaged, r.live, r.segment_holds)

  -- A write at the end of a file, cut after `k` of its bytes.
  cut_write :
      (file bytes : List ℕ) (at k : ℕ)
      → at ≡ length file
      → take (at + k) (write_at file at bytes) ≡ file ++ take k bytes
  cut_write file bytes at k e =
      rw (e, write_at_end file bytes) (take-append_ge (length file + k) k file bytes refl)

  pub files :
      (i j : ℕ)
      → crashed z cfg i j s ≡ record {
        trunk = s.trunk ++ take i comp;
        rings = s.rings ++ take j (to_bytes rec);
        sap = none;
        seal = some (segment s.comp_size s.buffer_start es);
      }
  unfolding crashed comp rec
  files i j =
      rw (sealed, r.unstaged)
        (λ k. record {
          trunk = cut_write s.trunk comp s.comp_size i (sym r.no_orphans) k;
          rings = cut_write s.rings (to_bytes rec) (rec_off (length s.chunks)) j (sym rings_len) k;
          sap = none;
          seal = some (segment s.comp_size s.buffer_start es);
        })

  unfoldable pub disk : ℕ → ℕ → Disk
  disk i j = record {
    trunk = s.trunk ++ take i comp;
    rings = s.rings ++ take j (to_bytes rec);
    sap = none;
    seal = some (segment s.comp_size s.buffer_start es);
  }

  pub trunk_len : (i : ℕ) → i ≤ length comp → length (s.trunk ++ take i comp) ≡ s.comp_size + i
  trunk_len i h =
      omega (arith, h, length-append s.trunk (take i comp), length-take i comp, r.no_orphans)

  pub small : (i : ℕ) → i ≤ length comp → s.comp_size + i < 2 ^ 64
  unfolding comp
  small i h = omega (arith, h, r.can_flush.trunk_fits)

  pub old-Frames :
      (i : ℕ)
      → i ≤ length comp
      → Frames z (s.trunk ++ take i comp) 0 lead s.buffer_start s.comp_size s.chunks ds
  old-Frames i h =
      Frames-prefix z s.trunk (s.trunk ++ take i comp) 0 lead s.buffer_start s.comp_size s.comp_size
        s.chunks ds (take-append_le s.comp_size s.trunk (take i comp) (omega (arith, r.no_orphans)))
        (omega (arith, trunk_len i h)) (omega arith) r.inv.frames

  pub new-Frames :
      Frames z
        (s.trunk ++ take (length comp) comp)
        0
        lead
        (s.buffer_start + length s.buffer)
        (s.comp_size + length comp)
        (s.chunks ++ (rec ∷ []))
        (ds ++ (s.buffer ∷ []))
  unfolding rec comp
  new-Frames =
      Frames-snoc z (s.trunk ++ take (length comp) comp) 0 lead s.buffer_start s.comp_size s.chunks
        ds rec s.buffer (old-Frames (length comp) (omega arith))
        (rw (whole) (new-IsFrame z laws cfg lead s ds r.nonempty r.can_flush r.inv))
    where
      whole : s.trunk ++ take (length comp) comp ≡ write_at s.trunk s.comp_size comp
      whole =
          ap (λ t. s.trunk ++ t) (take_all (length comp) comp (omega arith))
          ∙ sym (write_at_end s.trunk comp)
          ∙ ap (λ at. write_at s.trunk at comp) r.no_orphans

  module _ (now : ℕ) (declared : Bool) (fresh : List ℕ) where
    abbrev pub reopened : ℕ → ℕ → Opened → FileStore
    reopened i j o = restart_age now (
        open_sap declared none (
          open_seal z cfg (some (segment s.comp_size s.buffer_start es)) (from_index (disk i j) o)))

    -- The record did not land, or its frame did not: the sealed entries are flushed again.
    pub unlanded :
        (i j : ℕ) (o : Opened)
        → i ≤ length comp
        → drop_truncated (length (s.trunk ++ take i comp)) o.chunks ≡ s.chunks
        → Inv z lead (reopened i j o) (ds ++ (s.buffer ∷ [])) × ((reopened i j o).buffer ≡ [])
    unfolding disk
    unlanded i j o h kept =
        let (v, size, start, empty) =
          from_index-Inv z lead s.buffer_start s.comp_size (disk i j) o s.chunks ds kept
            (omega (arith, trunk_len i h, small i h)) (omega (arith, trunk_len i h))
            (omega (arith, r.inv.fits)) r.lead_used (old-Frames i h) in
        let f = from_index (disk i j) o in
        let a = apply_entries-Applied es f in
        let buffer : (apply_entries es f).buffer ≡ s.buffer =
          a.buffer ∙ ap (λ t. t ++ payloads es) empty ∙ r.buffered in
        let (v', empty') = rw (r.buffered) at (
          open_seal-unlanded z laws cfg lead s.comp_size s.buffer_start es
            (omega (arith, small i h)) (omega (arith, r.inv.fits)) r.entries f ds empty size
            (omega (arith, start, ap length r.buffered, r.inv.fits))
            (omega (arith, ap length r.buffered, r.nonempty))
            (record {
              chunk_len = rw (buffer) (r.can_flush.chunk_len);
              frame_len = rw (buffer) (r.can_flush.frame_len);
              trunk_fits = rw (buffer, a.comp_size, size) (r.can_flush.trunk_fits);
            })
            v) in
        let (v'', same) =
          no_live_segment z now declared lead (ds ++ (s.buffer ∷ []))
            (open_seal z cfg (some (segment s.comp_size s.buffer_start es)) f) v' in
        (v'', same ∙ empty')

    -- Both landed: the chunk is there and the seal is dropped.
    pub landed :
        (j : ℕ) (o : Opened)
        → drop_truncated (length (s.trunk ++ take (length comp) comp)) o.chunks
          ≡ s.chunks ++ (rec ∷ [])
        → Inv z lead (reopened (length comp) j o) (ds ++ (s.buffer ∷ []))
          × ((reopened (length comp) j o).buffer ≡ [])
    unfolding disk rec comp
    landed j o kept =
        let (v, size, start, empty) =
          from_index-Inv z lead (s.buffer_start + length s.buffer) (s.comp_size + length comp)
            (disk (length comp) j) o (s.chunks ++ (rec ∷ [])) (ds ++ (s.buffer ∷ [])) kept
            (omega
              (arith, trunk_len (length comp) (omega arith), small (length comp) (omega arith)))
            (omega (arith, trunk_len (length comp) (omega arith))) r.inv.fits
            (λ e. absurd (snoc_nonempty s.chunks e)) new-Frames in
        let f = from_index (disk (length comp) j) o in
        let (v', same) =
          open_seal-landed z laws cfg lead s.comp_size s.buffer_start es
            (omega (arith, small 0 (omega arith))) (omega (arith, r.inv.fits)) r.entries f
            (ds ++ (s.buffer ∷ [])) (omega (arith, size, r.frame_nonempty)) v in
        let (v'', same') =
          no_live_segment z now declared lead (ds ++ (s.buffer ∷ []))
            (open_seal z cfg (some (segment s.comp_size s.buffer_start es)) f) v' in
        (v'', same' ∙ same ∙ empty)
      where
        snoc_nonempty : (rs : List ChunkRecord) → rs ++ (rec ∷ []) ≡ [] → ⊥
        snoc_nonempty [] e = cc
        snoc_nonempty (x ∷ rs) e = cc
