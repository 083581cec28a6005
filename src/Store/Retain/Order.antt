-- ===== src/Store/Retain/Order.antt =====
-- The order of the chunks: by number, and by where their frames start.
use timberfs.Prelude.{Bool}
use timberfs.Prelude.{
  ℕ, ◌+◌, ◌^◌, ◌≤◌, ◌<◌, ◌≡◌, List, [], ◌∷◌, length, All, arith, ltb, ltb→le, le→ltb, false,
}
use timberfs.Format.{ChunkRecord}
use timberfs.Format.Chunk.{Zstd}
use timberfs.Store.Inv.{Frames, Frames-le}
use timberfs.Store.Read.{sub_u64}
use timberfs.Store.Retain.Partition.{IsPartitioned, All-map}

-- Each chunk has a number that none of the later ones is below.
abbrev pub IsNumbered : List ChunkRecord → Type 0
IsNumbered [] = Unit
IsNumbered (c ∷ cs) = All (λ (d : ChunkRecord). c.seq ≤ d.seq) cs × IsNumbered cs

pub IsNumbered-IsPartitioned :
    (floor : ℕ) (cs : List ChunkRecord)
    → IsNumbered cs
    → IsPartitioned (λ (c : ChunkRecord). ltb c.seq floor) cs
IsNumbered-IsPartitioned floor [] h = tt
IsNumbered-IsPartitioned floor (c ∷ cs) (later, h) = (
  λ stays.
      All-map (λ (d : ChunkRecord). c.seq ≤ d.seq) (λ (d : ChunkRecord). ltb d.seq floor ≡ false) cs
        (λ d above. le→ltb d.seq floor (omega (arith, above, ltb→le c.seq floor stays))) later,
  IsNumbered-IsPartitioned floor cs h,
)

-- The records of a store start one behind the other, and before its end.
pub Frames-starts :
    (z : Zstd) (file : List ℕ) (u c u' c' : ℕ) (rs : List ChunkRecord) (ds : List (List ℕ))
    → Frames z file u c u' c' rs ds
    → All (λ (r : ChunkRecord). (c ≤ r.comp_start) × (r.comp_start ≤ c')) rs
Frames-starts z file u c u' c' [] ds f = tt
Frames-starts z file u c u' c' (r ∷ rs) [] f = absurd f
Frames-starts z file u c u' c' (r ∷ rs) (d ∷ ds) (f, fs) = (
  (
    omega (arith, f.comp_start),
    omega (arith, f.comp_start, Frames-le z file (u + length d) (c + r.comp_len) u' c' rs ds fs),
  ),
  All-map (λ (q : ChunkRecord). (c + r.comp_len ≤ q.comp_start) × (q.comp_start ≤ c'))
      (λ (q : ChunkRecord). (c ≤ q.comp_start) × (q.comp_start ≤ c')) rs
      (λ q h. (omega (arith, h.0), h.1))
      (Frames-starts z file (u + length d) (c + r.comp_len) u' c' rs ds fs),
)

-- From this chunk's start on the store holds more than `target` bytes.
abbrev pub over : ℕ → ℕ → ChunkRecord → Bool
over target comp_size c = ltb target (sub_u64 comp_size c.comp_start)

pub Frames-IsPartitioned :
    (z : Zstd) (file : List ℕ) (target u c u' c' : ℕ) (rs : List ChunkRecord) (ds : List (List ℕ))
    → c' < 2 ^ 64
    → Frames z file u c u' c' rs ds
    → IsPartitioned (over target c') rs
Frames-IsPartitioned z file target u c u' c' [] ds h f = tt
Frames-IsPartitioned z file target u c u' c' (r ∷ rs) [] h f = absurd f
Frames-IsPartitioned z file target u c u' c' (r ∷ rs) (d ∷ ds) h (f, fs) = (
  λ stays.
      All-map (λ (q : ChunkRecord). (c + r.comp_len ≤ q.comp_start) × (q.comp_start ≤ c'))
        (λ (q : ChunkRecord). over target c' q ≡ false) rs
        (λ q starts. le→ltb target (sub_u64 c' q.comp_start) (
          omega (
            arith,
            starts.0,
            starts.1,
            h,
            f.comp_start,
            ltb→le target (sub_u64 c' r.comp_start) stays,
          )))
        (Frames-starts z file (u + length d) (c + r.comp_len) u' c' rs ds fs),
  Frames-IsPartitioned z file target (u + length d) (c + r.comp_len) u' c' rs ds h fs,
)
