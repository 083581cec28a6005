-- ===== src/Store/Read/Locate.antt =====
-- Where a byte of the tape stands: the chunk that `partition_point` finds holds it.
use timberfs.Prelude.{
  ℕ, ◌+◌, ◌-◌, ◌≤◌, ◌<◌, ◌≡◌, refl, ap, ◌∙◌, List, [], ◌∷◌, ◌++◌, some, length, take, drop, concat,
  get_elem?, arith,
}
use timberfs.Prelude.{
  leb, Bool-cases, inl, inr, leb→le, leb→lt, take-append_le, drop-append_le, drop-append_ge,
  length-drop,
}
use timberfs.Bytes.{slice}
use timberfs.Format.{ChunkRecord, uncomp_end}
use timberfs.Format.Chunk.{Zstd, IsFrame}
use timberfs.Store.{partition_point}
use timberfs.Store.Inv.{Frames, Frames-uncomp}

-- The chunk that holds the byte at `pos`.
pub record Located (z : Zstd) (file : List ℕ) (u u' pos idx : ℕ) (rs : List ChunkRecord)
    (ds : List (List ℕ)) : Type 0 where
  pub rec : ChunkRecord
  pub bytes : List ℕ
  pub start : ℕ
  pub at : ℕ
  pub found : get_elem? rs idx ≡ some rec
  pub holds : get_elem? ds idx ≡ some bytes
  pub frame : IsFrame z file start at rec bytes
  pub after : start ≤ pos
  pub before : pos < start + length bytes
  pub within : start + length bytes ≤ u'
  pub part :
      (n : ℕ)
      → pos + n ≤ start + length bytes
      → slice (pos - u) n (concat ds) ≡ slice (pos - start) n bytes

pub end-IsFrame :
    (z : Zstd) (file : List ℕ) (u c : ℕ) (r : ChunkRecord) (d : List ℕ)
    → IsFrame z file u c r d
    → uncomp_end r ≡ u + length d
unfolding uncomp_end
end-IsFrame z file u c r d f = omega (arith, f.uncomp_start, f.uncomp_len, f.fits)

pub slice_first :
    (m n : ℕ) (xs ys : List ℕ) → m + n ≤ length xs → slice m n (xs ++ ys) ≡ slice m n xs
slice_first m n xs ys h =
    ap (take n) (drop-append_le m xs ys (omega arith))
    ∙ take-append_le n (drop m xs) ys (omega (arith, length-drop m xs))

pub locate :
    (z : Zstd) (file : List ℕ) (u c u' c' pos : ℕ) (rs : List ChunkRecord) (ds : List (List ℕ))
    → Frames z file u c u' c' rs ds
    → u ≤ pos
    → pos < u'
    → Located z file u u' pos (partition_point (λ r. leb (uncomp_end r) pos) rs) rs ds
unfolding partition_point
locate z file u c u' c' pos [] [] f lo hi = absurd (omega (arith, f.0))
locate z file u c u' c' pos [] (d ∷ ds) f lo hi = absurd f
locate z file u c u' c' pos (r ∷ rs) [] f lo hi = absurd f
locate z file u c u' c' pos (r ∷ rs) (d ∷ ds) (f, fs) lo hi =
    elim (Bool-cases (leb (uncomp_end r) pos)) [
      | inl past ↦
          let l =
            locate z file (u + length d) (c + r.comp_len) u' c' pos rs ds fs
              (omega (arith, leb→le (uncomp_end r) pos past, end-IsFrame z file u c r d f)) hi in
          rw past (record {
            rec = l.rec;
            bytes = l.bytes;
            start = l.start;
            at = l.at;
            found = l.found;
            holds = l.holds;
            frame = l.frame;
            after = l.after;
            before = l.before;
            within = l.within;
            part = λ n h.
                ap (take n) (
                  drop-append_ge (pos - u) (pos - (u + length d)) d (concat ds)
                    (omega (arith, leb→le (uncomp_end r) pos past, end-IsFrame z file u c r d f)))
                ∙ l.part n h;
          })
      | inr here ↦ rw here (record {
        rec = r;
        bytes = d;
        start = u;
        at = c;
        found = refl;
        holds = refl;
        frame = f;
        after = lo;
        before = omega (arith, leb→lt (uncomp_end r) pos here, end-IsFrame z file u c r d f);
        within = omega (arith, Frames-uncomp z file (u + length d) (c + r.comp_len) u' c' rs ds fs);
        part = λ n h. slice_first (pos - u) n d (concat ds) (omega (arith, lo, h));
      })
    ]
