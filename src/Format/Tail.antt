-- ===== src/Format/Tail.antt =====
-- `index_from`, which reads a file in two parts, against `parse_index_versioned`, which reads it whole.
use timberfs.Prelude.{
  ℕ, zero, suc, ◌+◌, ◌*◌, ◌-◌, ◌/◌, ◌<◌, ◌≤◌, ◌≡◌, refl, ap, ◌∙◌, sym, List, ◌∷◌, length, arith,
}
use timberfs.Prelude.{
  take, drop, min, inl, inr, take_all, length-take, drop-drop, take-drop-take, Result, ok, err,
  map_ok, leb, drop_all, Bool-cases, leb→le, le→ltb, ltb, ◌>>=◌,
}
use native.Mathlib.Decide.{dec_le}
use timberfs.Format.{
  ChunkRecord, RingsVersion, Layout, Error, index_layout, decode_record, records_loop,
  parse_index_versioned, index_from, read_tail, rings_header_len,
}

length-records_loop :
    (v : RingsVersion) (l n i off : ℕ) (buf : List ℕ) → length (records_loop v l n i off buf) ≡ n
unfolding records_loop
length-records_loop v l zero i off buf = refl
length-records_loop v l (suc n) i off buf = ap suc (length-records_loop v l n (i + 1) (off + l) buf)

-- A loop reads the same records of two buffers that agree where it reads, and from a later start.
records_loop-window :
    (v : RingsVersion) (l n i off s t m : ℕ) (buf : List ℕ)
    → off + n * l ≤ m
    → t ≡ s + off
    → records_loop v l n i off (take m (drop s buf)) ≡ records_loop v l n i t buf
unfolding records_loop
records_loop-window v l zero i off s t m buf h e = refl
records_loop-window v l (suc n) i off s t m buf h e =
    let later =
      records_loop-window v l n (i + 1) (off + l) s (t + l) m buf (omega arith) (omega arith) in
    let here : take l (drop off (take m (drop s buf))) ≡ take l (drop t buf) =
      take-drop-take l off m (drop s buf) (omega arith)
      ∙ ap (λ b. take l b) (drop-drop s off t buf e) in
    λ k. decode_record v (here k) i ∷ later k

drop-records_loop :
    (v : RingsVersion) (l n k i j off t : ℕ) (buf : List ℕ)
    → k ≤ n
    → j ≡ i + k
    → t ≡ off + k * l
    → drop k (records_loop v l n i off buf) ≡ records_loop v l (n - k) j t buf
unfolding records_loop
drop-records_loop v l n zero i j off t buf h e f =
    let n' : n ≡ n - 0 = omega arith in
    let i' : i ≡ j = omega arith in
    let off' : off ≡ t = omega arith in λ s. records_loop v l (n' s) (i' s) (off' s) buf
drop-records_loop v l zero (suc k) i j off t buf h e f = absurd (omega arith)
drop-records_loop v l (suc n) (suc k) i j off t buf h e f =
    drop-records_loop v l n k (i + 1) j (off + l) t buf (omega arith) (omega arith) (omega arith)
    ∙ ap (λ (m : ℕ). records_loop v l m j t buf) (omega arith)

same_test :
    (file : List ℕ) (k : ℕ)
    → k ≤ 64
    → 64 < length file
    → ltb (length (take 64 file)) k ≡ ltb (length file) k
same_test file k h p =
    le→ltb (length (take 64 file)) k (omega (arith, length-take 64 file))
    ∙ sym (le→ltb (length file) k (omega arith))

-- The first 64 bytes decide the layout.
index_layout-prefix :
    (file : List ℕ) (total : ℕ)
    → index_layout (take (min (length file) rings_header_len) file) total ≡ index_layout file total
unfolding index_layout
index_layout-prefix file total = elim (dec_le (length file) 64) [
  | yes p ↦ ap (λ b. index_layout b total) (take_all _ file (omega arith))
  | no p ↦
      let len : min (length file) 64 ≡ 64 = omega arith in
      rw (
        len,
        take-drop-take 8 0 64 file (omega arith),
        take-drop-take 8 8 64 file (omega arith),
        take-drop-take 8 16 64 file (omega arith),
        same_test file 8 (omega arith) (omega arith),
        same_test file 32 (omega arith) (omega arith),
      )
]

-- What `index_from` returns for the records that the whole parse finds.
abbrev pub from_parsed : (ℕ → ℕ) → List ChunkRecord × RingsVersion → ℕ × List ChunkRecord
from_parsed start p = (length p.0, drop (start (length p.0)) p.0)

read_tail-drop :
    (l : Layout) (file : List ℕ) (n from : ℕ)
    → read_tail l file n from ≡ (n, drop from (records_loop l.version l.rec_len n 0 l.header file))
unfolding read_tail
read_tail-drop l file n from = elim (Bool-cases (leb n from)) [
  | inl over ↦
      rw over (ap (λ t. (n, t)) (sym (drop_all from _ (omega (arith, whole, leb→le n from over)))))
  | inr inside ↦
      let le : from ≤ n = ground arith in
      rw inside (
        ap (λ t. (n, t))
          (records_loop-window l.version l.rec_len (n - from) from 0 start start _ file
              (omega arith) (omega arith)
            ∙ sym (
                drop-records_loop l.version l.rec_len n from 0 from l.header start file le
                  (omega arith) refl)))
]
  where
    start : ℕ
    start = l.header + from * l.rec_len

    whole : length (records_loop l.version l.rec_len n 0 l.header file) ≡ n
    whole = length-records_loop l.version l.rec_len n 0 l.header file

-- On every file and for every choice of where to start, reading only the tail gives the count and
-- the records that reading the whole index gives from there on, or the same error.
pub index_from-parse :
    (file : List ℕ) (start : ℕ → ℕ)
    → index_from file start ≡ map_ok (from_parsed start) (parse_index_versioned file)
unfolding index_from parse_index_versioned
index_from-parse file start =
    rw (index_layout-prefix file (length file)) (go (index_layout file (length file)))
  where
    go :
        (r : Result Error Layout)
        → (r >>= λ l. ok (
            read_tail l file
              ((length file - l.header) / l.rec_len)
              (start ((length file - l.header) / l.rec_len))))
          ≡ map_ok (from_parsed start) (
              r >>= λ l. ok (
                records_loop l.version l.rec_len
                    ((length file - l.header) / l.rec_len)
                    0
                    l.header
                    file,
                l.version,
              ))
    go (err e) = refl
    go (ok l) = rw (
      read_tail-drop l file,
      length-records_loop l.version l.rec_len ((length file - l.header) / l.rec_len) 0 l.header
          file,
    )
