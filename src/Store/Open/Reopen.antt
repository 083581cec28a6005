-- ===== src/Store/Open/Reopen.antt =====
-- The open after a crash in the middle of a flush: whatever had landed, nothing is lost.
use timberfs.Prelude.{
  ℕ, ◌+◌, ◌≤◌, ◌<◌, ◌≡◌, refl, ap, ◌∙◌, sym, List, [], ◌∷◌, ◌++◌, Option, length, take, get_last?,
  arith, Bool, ok, append-nil, append_assoc, length-take, take_all, All-append, map, map-append,
  concat-snoc, concat, max,
}
use native.Mathlib.Decide.{dec_lt}
use mathlib.Core.Path.{subst}
use timberfs.Format.{ChunkRecord, Dropped, comp_end, rings_header, to_bytes}
use timberfs.Format.Record.{IsRecord, length-to_bytes}
use timberfs.Format.Index.{encode}
use timberfs.Format.Chunk.{Zstd, RoundTrips}
use timberfs.Format.Migrate.{number_after}
use timberfs.Sap.{Sap, SapEntry}
use timberfs.Store.{Config, FileStore}
use timberfs.Store.Inv.{Inv, content}
use timberfs.Store.Open.{Opened, open_store, open_index}
use timberfs.Store.Open.Index.{open_index-encode, drop_truncated-Frames, drop_truncated-snoc}
use timberfs.Store.Open.Crash.{
  Ready, crashed, comp, rec, disk, reopened, files, trunk_len, small, old-Frames, new-Frames,
  unlanded, landed,
}

module _ (z : Zstd) (laws : RoundTrips z) (cfg : Config) (lead n : ℕ) (d : Dropped)
    (id : Option (List ℕ)) (s : FileStore) (ds : List (List ℕ)) (w : Sap) (es : List SapEntry)
    (r : Ready z laws cfg lead n d id s ds w es) where
  module _ (now : ℕ) (declared : Bool) (fresh : List ℕ) where
    new : ChunkRecord
    unfolding rec comp
    new = rec z laws cfg lead n d id s ds w es r

    read_back : List ℕ → List ChunkRecord → Opened
    read_back torn rs = record {
      rings = rings_header n d id ++ (encode rs ++ torn);
      chunks = rs;
      next_seq = max n (number_after (get_last? rs));
      dropped = d;
      store_id = id;
    }

    -- The index after the crash reads as the old records, or as the old ones and the new one.
    index_torn :
        (j : ℕ)
        → j < 56
        → open_index id fresh (s.rings ++ take j (to_bytes new))
          ≡ ok (read_back (take j (to_bytes new)) s.chunks)
    unfolding read_back
    index_torn j h =
        rw (r.rings, append_assoc)
          (open_index-encode n d id r.header r.is_id fresh (take j (to_bytes new)) s.chunks
            r.records (omega (arith, h, length-take j (to_bytes new), length-to_bytes new)))

    index_whole :
        open_index id fresh (s.rings ++ take 56 (to_bytes new))
        ≡ ok (read_back [] (s.chunks ++ (new ∷ [])))
    unfolding read_back rec comp new
    index_whole =
        ap (open_index id fresh) bytes
        ∙ open_index-encode n d id r.header r.is_id fresh [] (s.chunks ++ (new ∷ []))
            (All-append IsRecord s.chunks (new ∷ []) r.records (r.record_fits, _)) (omega arith)
      where
        snoc : encode s.chunks ++ to_bytes new ≡ encode (s.chunks ++ (new ∷ []))
        snoc = sym (
            ap concat (map-append to_bytes s.chunks (new ∷ []))
            ∙ concat-snoc (map to_bytes s.chunks) (to_bytes new))

        bytes :
            s.rings ++ take 56 (to_bytes new)
            ≡ rings_header n d id ++ (encode (s.chunks ++ (new ∷ [])) ++ [])
        bytes =
            rw
              (
                r.rings,
                take_all 56 (to_bytes new) (omega (arith, length-to_bytes new)),
                append-nil (encode (s.chunks ++ (new ∷ []))),
                append_assoc,
              )
              (ap (λ t. rings_header n d id ++ t) snoc)

    -- What the open gives: a store with one more chunk, of the buffer, and the tape unchanged.
    abbrev pub Kept : FileStore → Type 0
    Kept t =
        Inv z lead t (ds ++ (s.buffer ∷ []))
        × (t.buffer ≡ [])
        × (content (ds ++ (s.buffer ∷ [])) t ≡ content ds s)

    abbrev pub Reopens : ℕ → ℕ → Type 0
    Reopens i j =
        (t : FileStore) × (open_store z cfg now declared id fresh (crashed z cfg i j s) ≡ ok t)
        × Kept t

    kept : (t : FileStore) → Inv z lead t (ds ++ (s.buffer ∷ [])) × (t.buffer ≡ []) → Kept t
    kept t (v, e) = (
      v,
      e,
      ap (λ b. concat (ds ++ (s.buffer ∷ [])) ++ b) e
          ∙ append-nil (concat (ds ++ (s.buffer ∷ [])))
          ∙ concat-snoc ds s.buffer,
    )

    -- A record that is torn, or absent, is ignored; the frame behind the old ones stays unread.
    old_records :
        (i j : ℕ) → i ≤ length (comp z laws cfg lead n d id s ds w es r) → j < 56 → Reopens i j
    unfolding open_store disk new read_back
    old_records i j h k = (
      reopened z laws cfg lead n d id s ds w es r now declared fresh i j
          (read_back (take j (to_bytes new)) s.chunks),
      rw (files z laws cfg lead n d id s ds w es r i j, index_torn j k) refl,
      kept
          (reopened z laws cfg lead n d id s ds w es r now declared fresh i j
            (read_back (take j (to_bytes new)) s.chunks))
          (unlanded z laws cfg lead n d id s ds w es r now declared fresh i j
            (read_back (take j (to_bytes new)) s.chunks) h
            (drop_truncated-Frames z trunk (length trunk) 0 lead s.buffer_start s.comp_size s.chunks
              ds
              (omega (
                arith,
                trunk_len z laws cfg lead n d id s ds w es r i h,
                small z laws cfg lead n d id s ds w es r i h,
              ))
              (omega (arith, trunk_len z laws cfg lead n d id s ds w es r i h))
              (old-Frames z laws cfg lead n d id s ds w es r i h))),
    )
      where
        trunk : List ℕ
        trunk = s.trunk ++ take i (comp z laws cfg lead n d id s ds w es r)

    -- A whole record over a frame that is cut short is popped again.
    cut_frame : (i : ℕ) → i < length (comp z laws cfg lead n d id s ds w es r) → Reopens i 56
    unfolding open_store disk new read_back rec comp comp_end
    cut_frame i h = (
      reopened z laws cfg lead n d id s ds w es r now declared fresh i 56
          (read_back [] (s.chunks ++ (new ∷ []))),
      rw (files z laws cfg lead n d id s ds w es r i 56, index_whole) refl,
      kept
          (reopened z laws cfg lead n d id s ds w es r now declared fresh i 56
            (read_back [] (s.chunks ++ (new ∷ []))))
          (unlanded z laws cfg lead n d id s ds w es r now declared fresh i 56
            (read_back [] (s.chunks ++ (new ∷ []))) (omega (arith, h))
            (drop_truncated-snoc z trunk (length trunk) 0 lead s.buffer_start s.comp_size s.chunks
              ds new
              (omega (
                arith,
                trunk_len z laws cfg lead n d id s ds w es r i (omega (arith, h)),
                small z laws cfg lead n d id s ds w es r i (omega (arith, h)),
              ))
              (omega (arith, trunk_len z laws cfg lead n d id s ds w es r i (omega (arith, h))))
              (old-Frames z laws cfg lead n d id s ds w es r i (omega (arith, h))) past)),
    )
      where
        trunk : List ℕ
        trunk = s.trunk ++ take i (comp z laws cfg lead n d id s ds w es r)

        past : length trunk < comp_end new
        past = omega (
          arith,
          h,
          trunk_len z laws cfg lead n d id s ds w es r i (omega (arith, h)),
          small z laws cfg lead n d id s ds w es r
              (length (comp z laws cfg lead n d id s ds w es r)) (omega arith),
          small z laws cfg lead n d id s ds w es r i (omega (arith, h)),
        )

    both_landed : Reopens (length (comp z laws cfg lead n d id s ds w es r)) 56
    unfolding open_store disk new read_back
    both_landed = (
      reopened z laws cfg lead n d id s ds w es r now declared fresh
          (length (comp z laws cfg lead n d id s ds w es r)) 56
          (read_back [] (s.chunks ++ (new ∷ []))),
      rw
          (
            files z laws cfg lead n d id s ds w es r
                (length (comp z laws cfg lead n d id s ds w es r)) 56,
            index_whole,
          )
          refl,
      kept
          (reopened z laws cfg lead n d id s ds w es r now declared fresh
            (length (comp z laws cfg lead n d id s ds w es r)) 56
            (read_back [] (s.chunks ++ (new ∷ []))))
          (landed z laws cfg lead n d id s ds w es r now declared fresh 56
            (read_back [] (s.chunks ++ (new ∷ [])))
            (drop_truncated-Frames z trunk (length trunk) 0 lead (s.buffer_start + length s.buffer)
              (s.comp_size + length (comp z laws cfg lead n d id s ds w es r))
              (s.chunks ++ (new ∷ [])) (ds ++ (s.buffer ∷ []))
              (omega (
                arith,
                trunk_len z laws cfg lead n d id s ds w es r
                    (length (comp z laws cfg lead n d id s ds w es r)) (omega arith),
                small z laws cfg lead n d id s ds w es r
                    (length (comp z laws cfg lead n d id s ds w es r)) (omega arith),
              ))
              (omega (
                arith,
                trunk_len z laws cfg lead n d id s ds w es r
                    (length (comp z laws cfg lead n d id s ds w es r)) (omega arith),
              ))
              (new-Frames z laws cfg lead n d id s ds w es r))),
    )
      where
        trunk : List ℕ
        trunk =
            s.trunk
            ++ take (length (comp z laws cfg lead n d id s ds w es r))
                (comp z laws cfg lead n d id s ds w es r)

    -- Of a store whose files agree with its memory and whose live segment holds its buffer (`Ready`), a
    -- flush that a crash cuts after any `i` bytes of the frame and any `j` bytes of the record loses
    -- nothing: the next open, under a manifest that names the same store, succeeds and gives a well-formed
    -- store whose chunks are the old ones and one more with the contents of the buffer, whose buffer is
    -- empty, and whose tape is the one before the crash.
    pub crashed-Kept : (i j : ℕ) → i ≤ length (z.encode cfg.level s.buffer) → j ≤ 56 → Reopens i j
    unfolding comp
    crashed-Kept i j h k = elim (dec_lt j 56) [
      | yes torn ↦ old_records i j h torn
      | no whole ↦ elim (dec_lt i (length (z.encode cfg.level s.buffer))) [
        | yes cut ↦ subst (λ b. Reopens i b) (omega (arith, k, whole)) (cut_frame i cut)
        | no all ↦
            subst (λ a. Reopens a j) (omega (arith, h, all))
              (subst (λ b. Reopens (length (z.encode cfg.level s.buffer)) b)
                (omega (arith, k, whole)) both_landed)
      ]
    ]
