-- ===== src/Store/Inv.antt =====
-- The invariant of a store, and what its tape holds: the contents of the chunks and then the buffer.
use timberfs.Prelude.{
  ℕ, ◌+◌, ◌^◌, ◌≤◌, ◌<◌, ◌≡◌, refl, ap, ◌∙◌, sym, List, [], ◌∷◌, ◌++◌, some, length, take, concat,
  get_elem?, arith, length-append, take-drop-take,
}
use timberfs.Bytes.{slice}
use timberfs.Format.{ChunkRecord}
use timberfs.Format.Chunk.{Zstd, IsFrame}
use timberfs.Store.{FileStore}

-- The records stand one after the other, from `(u, c)` to `(u', c')` in the two offset spaces, and
-- each keeps its promise about the trunk.
abbrev pub Frames : Zstd → List ℕ → ℕ → ℕ → ℕ → ℕ → List ChunkRecord → List (List ℕ) → Type 0
Frames z file u c u' c' [] [] = (u ≡ u') × (c ≡ c')
Frames z file u c u' c' [] (d ∷ ds) = ⊥
Frames z file u c u' c' (r ∷ rs) [] = ⊥
Frames z file u c u' c' (r ∷ rs) (d ∷ ds) =
    IsFrame z file u c r d × Frames z file (u + length d) (c + r.comp_len) u' c' rs ds

-- `lead` is the number of dead bytes that a head-drop in place leaves at the front of the trunk.
pub record Inv (z : Zstd) (lead : ℕ) (s : FileStore) (ds : List (List ℕ)) : Type 0 where
  pub frames : Frames z s.trunk 0 lead s.buffer_start s.comp_size s.chunks ds
  pub inside : s.comp_size ≤ length s.trunk
  pub trunk_fits : length s.trunk < 2 ^ 64
  pub fits : s.buffer_start + length s.buffer < 2 ^ 64
  pub cached : (i : ℕ) (d : List ℕ) → s.cache ≡ some (i, d) → get_elem? ds i ≡ some d

abbrev pub content : List (List ℕ) → FileStore → List ℕ
content ds s = concat ds ++ s.buffer

pub Frames-uncomp :
    (z : Zstd) (file : List ℕ) (u c u' c' : ℕ) (rs : List ChunkRecord) (ds : List (List ℕ))
    → Frames z file u c u' c' rs ds
    → u' ≡ u + length (concat ds)
Frames-uncomp z file u c u' c' [] [] f = omega arith
Frames-uncomp z file u c u' c' [] (d ∷ ds) f = absurd f
Frames-uncomp z file u c u' c' (r ∷ rs) [] f = absurd f
Frames-uncomp z file u c u' c' (r ∷ rs) (d ∷ ds) (f, fs) = omega (
  arith,
  Frames-uncomp z file (u + length d) (c + r.comp_len) u' c' rs ds fs,
  length-append d (concat ds),
)

-- Where a trunk keeps its bytes up to `c'`, every record before that keeps its promise.
slice-prefix :
    (c n k : ℕ) (file file' : List ℕ)
    → take k file' ≡ take k file
    → c + n ≤ k
    → slice c n file' ≡ slice c n file
slice-prefix c n k file file' e h =
    sym (take-drop-take n c k file' h) ∙ ap (λ t. slice c n t) e ∙ take-drop-take n c k file h

IsFrame-prefix :
    (z : Zstd) (file file' : List ℕ) (u c k : ℕ) (r : ChunkRecord) (d : List ℕ)
    → take k file' ≡ take k file
    → k ≤ length file'
    → c + r.comp_len ≤ k
    → IsFrame z file u c r d
    → IsFrame z file' u c r d
IsFrame-prefix z file file' u c k r d e hk h f = record {
  uncomp_start = f.uncomp_start;
  uncomp_len = f.uncomp_len;
  comp_start = f.comp_start;
  inside = omega arith;
  frame_len = f.frame_len;
  chunk_len = f.chunk_len;
  nonempty = f.nonempty;
  fits = f.fits;
  decoded = rw (slice-prefix c r.comp_len k file file' e h) f.decoded;
}

pub Frames-le :
    (z : Zstd) (file : List ℕ) (u c u' c' : ℕ) (rs : List ChunkRecord) (ds : List (List ℕ))
    → Frames z file u c u' c' rs ds
    → c ≤ c'
Frames-le z file u c u' c' [] [] f = omega arith
Frames-le z file u c u' c' [] (d ∷ ds) f = absurd f
Frames-le z file u c u' c' (r ∷ rs) [] f = absurd f
Frames-le z file u c u' c' (r ∷ rs) (d ∷ ds) (f, fs) =
    omega (arith, Frames-le z file (u + length d) (c + r.comp_len) u' c' rs ds fs)

pub Frames-prefix :
    (z : Zstd) (file file' : List ℕ) (u c u' c' k : ℕ) (rs : List ChunkRecord) (ds : List (List ℕ))
    → take k file' ≡ take k file
    → k ≤ length file'
    → c' ≤ k
    → Frames z file u c u' c' rs ds
    → Frames z file' u c u' c' rs ds
Frames-prefix z file file' u c u' c' k [] [] e hk h f = f
Frames-prefix z file file' u c u' c' k [] (d ∷ ds) e hk h f = f
Frames-prefix z file file' u c u' c' k (r ∷ rs) [] e hk h f = f
Frames-prefix z file file' u c u' c' k (r ∷ rs) (d ∷ ds) e hk h (f, fs) = (
  IsFrame-prefix z file file' u c k r d e hk
      (omega (arith, h, Frames-le z file (u + length d) (c + r.comp_len) u' c' rs ds fs)) f,
  Frames-prefix z file file' (u + length d) (c + r.comp_len) u' c' k rs ds e hk h fs,
)

pub Frames-snoc :
    (z : Zstd) (file : List ℕ) (u c u' c' : ℕ) (rs : List ChunkRecord) (ds : List (List ℕ))
    (r : ChunkRecord) (d : List ℕ)
    → Frames z file u c u' c' rs ds
    → IsFrame z file u' c' r d
    → Frames z file u c (u' + length d) (c' + r.comp_len) (rs ++ (r ∷ [])) (ds ++ (d ∷ []))
Frames-snoc z file u c u' c' [] [] r d (eu, ec) g = rw (eu, ec) (g, (refl, refl))
Frames-snoc z file u c u' c' [] (x ∷ ds) r d f g = absurd f
Frames-snoc z file u c u' c' (q ∷ rs) [] r d f g = absurd f
Frames-snoc z file u c u' c' (q ∷ rs) (x ∷ ds) r d (f, fs) g =
    (f, Frames-snoc z file (u + length x) (c + q.comp_len) u' c' rs ds r d fs g)

-- The invariant is about six fields; a store that agrees on them has it too.
pub Inv-same :
    (z : Zstd) (lead : ℕ) (s t : FileStore) (ds : List (List ℕ))
    → t.trunk ≡ s.trunk
    → t.chunks ≡ s.chunks
    → t.comp_size ≡ s.comp_size
    → t.buffer ≡ s.buffer
    → t.buffer_start ≡ s.buffer_start
    → t.cache ≡ s.cache
    → Inv z lead s ds
    → Inv z lead t ds
Inv-same z lead s t ds trunk chunks comp_size buffer start cache v = record {
  frames = rw (trunk, chunks, comp_size, start) v.frames;
  inside = rw (trunk, comp_size) v.inside;
  trunk_fits = rw trunk v.trunk_fits;
  fits = rw (start, buffer) v.fits;
  cached = rw cache v.cached;
}
