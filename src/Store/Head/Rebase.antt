-- ===== src/Store/Head/Rebase.antt =====
-- Frames at the front of a trunk are cut off, and the others keep their contents under moved offsets.
use timberfs.Prelude.{
  ℕ, zero, suc, ◌+◌, ◌-◌, ◌^◌, ◌≤◌, ◌<◌, ◌≡◌, refl, ap, ◌∙◌, List, [], ◌∷◌, map, some, length, take,
  drop, get_elem?, arith, length-take, length-drop, take-drop-take, drop-drop,
}
use timberfs.Bytes.{slice}
use timberfs.Format.{ChunkRecord, uncomp_end, comp_end}
use timberfs.Format.Chunk.{Zstd, IsFrame}
use timberfs.Store.Inv.{Frames, Frames-le}
use timberfs.Store.Head.{rebase}
use timberfs.Store.Read.Rounds.{sub_u64_le}
use timberfs.Store.Read.{sub_u64}

-- The first `k` records and the others meet where the last of the first ends.
pub record Split (z : Zstd) (file : List ℕ) (u c u' c' j : ℕ) (rs : List ChunkRecord)
    (ds : List (List ℕ)) : Type 0 where
  pub last : ChunkRecord
  pub found : get_elem? rs j ≡ some last
  pub um : ℕ
  pub cm : ℕ
  pub uncomp : uncomp_end last ≡ um
  pub comp : comp_end last ≡ cm
  pub front : Frames z file u c um cm (take (suc j) rs) (take (suc j) ds)
  pub back : Frames z file um cm u' c' (drop (suc j) rs) (drop (suc j) ds)

pub split :
    (z : Zstd) (file : List ℕ) (u c u' c' j : ℕ) (rs : List ChunkRecord) (ds : List (List ℕ))
    → length file < 2 ^ 64
    → j < length rs
    → Frames z file u c u' c' rs ds
    → Split z file u c u' c' j rs ds
unfolding uncomp_end comp_end
split z file u c u' c' j [] ds small h f = absurd (omega arith)
split z file u c u' c' j (r ∷ rs) [] small h f = absurd f
split z file u c u' c' zero (r ∷ rs) (d ∷ ds) small h (f, fs) = record {
  last = r;
  found = refl;
  um = u + length d;
  cm = c + r.comp_len;
  uncomp = omega (arith, f.uncomp_start, f.uncomp_len, f.fits);
  comp = omega (arith, f.comp_start, f.inside, small);
  front = (f, (refl, refl));
  back = fs;
}
split z file u c u' c' (suc j) (r ∷ rs) (d ∷ ds) small h (f, fs) =
    let s = split z file (u + length d) (c + r.comp_len) u' c' j rs ds small (omega arith) fs in
    record {
      last = s.last;
      found = s.found;
      um = s.um;
      cm = s.cm;
      uncomp = s.uncomp;
      comp = s.comp;
      front = (f, s.front);
      back = s.back;
    }

-- What is cut out of the trunk from `b` on reads the same at the moved offset.
slice-slice :
    (b n c l : ℕ) (file : List ℕ)
    → b ≤ c
    → c + l ≤ b + n
    → slice (c - b) l (slice b n file) ≡ slice c l file
slice-slice b n c l file h k =
    take-drop-take l (c - b) n (drop b file) (omega arith)
    ∙ ap (λ t. take l t) (drop-drop b (c - b) c file (omega arith))

pub rebase-IsFrame :
    (z : Zstd) (file : List ℕ) (a b n u c : ℕ) (r : ChunkRecord) (d : List ℕ)
    → length file < 2 ^ 64
    → b + n ≤ length file
    → a ≤ u
    → b ≤ c
    → c + r.comp_len ≤ b + n
    → IsFrame z file u c r d
    → IsFrame z (slice b n file) (u - a) (c - b) (rebase a b r) d
unfolding rebase
rebase-IsFrame z file a b n u c r d small hn ha hb inside f = record {
  uncomp_start =
      ap (λ (x : ℕ). sub_u64 x a) f.uncomp_start ∙ sub_u64_le u a ha (omega (arith, f.fits));
  uncomp_len = f.uncomp_len;
  comp_start =
      ap (λ (x : ℕ). sub_u64 x b) f.comp_start
      ∙ sub_u64_le c b hb (omega (arith, inside, hn, small));
  inside = omega (arith, inside, hn, length-take n (drop b file), length-drop b file);
  frame_len = f.frame_len;
  chunk_len = f.chunk_len;
  nonempty = f.nonempty;
  fits = omega (arith, f.fits);
  decoded = ap z.decode (slice-slice b n c r.comp_len file hb inside) ∙ f.decoded;
}

pub rebase-Frames :
    (z : Zstd) (file : List ℕ) (a b n u c u' c' : ℕ) (rs : List ChunkRecord) (ds : List (List ℕ))
    → length file < 2 ^ 64
    → b + n ≤ length file
    → a ≤ u
    → b ≤ c
    → c' ≤ b + n
    → Frames z file u c u' c' rs ds
    → Frames z (slice b n file) (u - a) (c - b) (u' - a) (c' - b) (map (rebase a b) rs) ds
unfolding rebase
rebase-Frames z file a b n u c u' c' [] [] small hn ha hb inside f =
    (omega (arith, f.0), omega (arith, f.1))
rebase-Frames z file a b n u c u' c' [] (d ∷ ds) small hn ha hb inside f = absurd f
rebase-Frames z file a b n u c u' c' (r ∷ rs) [] small hn ha hb inside f = absurd f
rebase-Frames z file a b n u c u' c' (r ∷ rs) (d ∷ ds) small hn ha hb inside (f, fs) = (
  rebase-IsFrame z file a b n u c r d small hn ha hb
      (omega (arith, inside, Frames-le z file (u + length d) (c + r.comp_len) u' c' rs ds fs)) f,
  moved (omega arith) (omega arith) (
      rebase-Frames z file a b n (u + length d) (c + r.comp_len) u' c' rs ds small hn (omega arith)
        (omega arith) inside fs),
)
  where
    moved :
        u + length d - a ≡ u - a + length d
        → c + r.comp_len - b ≡ c - b + r.comp_len
        → Frames z
            (slice b n file)
            (u + length d - a)
            (c + r.comp_len - b)
            (u' - a)
            (c' - b)
            (map (rebase a b) rs)
            ds
        → Frames z
            (slice b n file)
            (u - a + length d)
            (c - b + r.comp_len)
            (u' - a)
            (c' - b)
            (map (rebase a b) rs)
            ds
    moved e k g = rw (e, k) at g
