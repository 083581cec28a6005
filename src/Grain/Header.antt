-- ===== src/Grain/Header.antt =====
-- The header of a grain, src/grain.rs: `header_bytes` against `first_record_offset`.
use timberfs.Prelude.{
  ℕ, ◌+◌, ◌^◌, ◌%◌, ◌≤◌, ◌<◌, ◌≡◌, refl, sym, ap, take-drop-take, ◌∙◌, Bool, true, false, ◌&&◌, inl,
  inr, List, ◌++◌, Option, none, some, length, take, arith, ◌==◌, ==_iff, ltb, leb, ltb→le, leb→le,
  le→ltb, le→leb, if◌then◌else◌, Bool-cases,
}
use timberfs.Bytes.{slice, to_le, from_le, u32_at, bytes_eq}
use timberfs.Bytes.LittleEndian.{from_le-u32}
use timberfs.Grain.{
  grain_magic, grain_magic_v2, parameters, header_len, header_bytes, header_first_rec,
  first_record_offset,
}

pub length-header_bytes : (first : ℕ) → length (header_bytes first) ≡ 16
unfolding header_bytes to_le
length-header_bytes first = elim (Bool-cases (first == header_len)) [
  | inl e ↦ rw e refl
  | inr e ↦ rw e refl
]

-- A header with all its bytes is read by its magic.
header_first_rec-long :
    (h : List ℕ) (n : ℕ)
    → header_len ≤ length h
    → header_first_rec h n ≡ (
        if bytes_eq (take 8 h) grain_magic
        then some header_len
        else if bytes_eq (take 8 h) grain_magic_v2
        then (if leb header_len (u32_at 12 h) && leb (u32_at 12 h) n
            then some (u32_at 12 h)
            else none)
        else none)
unfolding header_first_rec
header_first_rec-long h n e = rw (le→ltb (length h) header_len e)

first_rec-v1 :
    (t : List ℕ) (n : ℕ)
    → header_len ≤ length (grain_magic ++ t)
    → header_first_rec (grain_magic ++ t) n ≡ some header_len
unfolding bytes_eq
first_rec-v1 t n long = header_first_rec-long (grain_magic ++ t) n long

first_rec-v2 :
    (first n : ℕ) (rest : List ℕ)
    → header_len ≤ first
    → first < 2 ^ 32
    → first ≤ n
    → header_first_rec (grain_magic_v2 ++ (parameters ++ (to_le 4 (first % 2 ^ 32) ++ rest))) n
      ≡ some first
unfolding bytes_eq to_le
first_rec-v2 first n rest lo hi inside =
    header_first_rec-long (grain_magic_v2 ++ (parameters ++ (to_le 4 (first % 2 ^ 32) ++ rest))) n
      (omega arith)
    ∙ rw (off, le→leb header_len first lo, le→leb first n inside) refl
  where
    off : from_le (to_le 4 (first % 2 ^ 32)) ≡ first
    off = from_le-u32 (first % 2 ^ 32) (omega arith) ∙ omega (arith, hi)

-- A header says where the records start: what `header_bytes` writes of an offset behind it and within
-- the file is what `first_record_offset` reads, under the one magic and under the other.
pub first_record_offset-header_bytes :
    (first : ℕ) (rest : List ℕ)
    → header_len ≤ first
    → first < 2 ^ 32
    → first ≤ header_len + length rest
    → first_record_offset (header_bytes first ++ rest) ≡ some first
unfolding first_record_offset header_bytes
first_record_offset-header_bytes first rest lo hi inside = elim (Bool-cases (first == header_len)) [
  | inl e ↦ rw e (
      first_rec-v1 (parameters ++ (to_le 4 0 ++ rest))
        (length (grain_magic ++ (parameters ++ (to_le 4 0 ++ rest)))) (unfold to_le in omega arith)
      ∙ ap some (sym ((==_iff first header_len).0 e)))
  | inr e ↦ rw e (first_rec-v2 first _ rest lo hi (unfold to_le in omega (arith, inside)))
]

-- Where one bound changes, and still holds of the offset, the answer stays.
again :
    (a b c d d' : Bool) (off first : ℕ)
    → ◌≡◌ {A = Option ℕ}
        (if a then some header_len else if b then (if c && d then some off else none) else none)
        (some first)
    → (off ≡ first → d' ≡ true)
    → ◌≡◌ {A = Option ℕ}
        (if a then some header_len else if b then (if c && d' then some off else none) else none)
        (some first)
again true b c d d' off first e k = e
again false false c d d' off first e k = cc
again false true false d d' off first e k = cc
again false true true false d' off first e k = cc
again false true true true d' off first e k = let same : off ≡ first = cc in rw (k same) e

header_first_rec-some :
    (h : List ℕ) (n first : ℕ) → header_first_rec h n ≡ some first → header_len ≤ length h
unfolding header_first_rec
header_first_rec-some h n first e = elim (Bool-cases (ltb (length h) header_len)) [
  | inl short ↦ cc (rw short at e)
  | inr long ↦ ltb→le (length h) header_len long
]

module _ (h h' : List ℕ) (same : take header_len h' ≡ take header_len h) where
  same_magic : take 8 h' ≡ take 8 h
  same_magic =
      sym (take-drop-take 8 0 header_len h' (omega arith))
      ∙ ap (take 8) same
      ∙ take-drop-take 8 0 header_len h (omega arith)

  same_offset : u32_at 12 h' ≡ u32_at 12 h
  same_offset = ap from_le (
      sym (take-drop-take 4 12 header_len h' (omega arith))
      ∙ ap (slice 12 4) same
      ∙ take-drop-take 4 12 header_len h (omega arith))

  -- Only the sixteen bytes count, and the length that the offset must lie in.
  pub header_first_rec-same :
      (n n' first : ℕ)
      → header_first_rec h n ≡ some first
      → header_len ≤ length h'
      → first ≤ n'
      → header_first_rec h' n' ≡ some first
  header_first_rec-same n n' first e long inside =
      header_first_rec-long h' n' long
      ∙ rw (same_magic, same_offset)
          (again (bytes_eq (take 8 h) grain_magic) (bytes_eq (take 8 h) grain_magic_v2)
            (leb header_len (u32_at 12 h)) (leb (u32_at 12 h) n) (leb (u32_at 12 h) n')
            (u32_at 12 h) first
            (sym (header_first_rec-long h n (header_first_rec-some h n first e)) ∙ e)
            (λ off. le→leb (u32_at 12 h) n' (omega (arith, off, inside))))

-- The records start behind the header.
pub first_record_offset-lo :
    (file : List ℕ) (first : ℕ) → first_record_offset file ≡ some first → header_len ≤ first
unfolding first_record_offset
first_record_offset-lo file first e =
    go (bytes_eq (take 8 file) grain_magic) (bytes_eq (take 8 file) grain_magic_v2)
      (leb header_len (u32_at 12 file)) (leb (u32_at 12 file) (length file))
      (leb→le header_len (u32_at 12 file))
      (sym (
          header_first_rec-long file (length file)
            (header_first_rec-some file (length file) first e))
        ∙ e)
  where
    go :
        (a b c d : Bool)
        → (c ≡ true → header_len ≤ u32_at 12 file)
        → ◌≡◌ {A = Option ℕ}
            (if a
              then some header_len
              else if b
              then (if c && d then some (u32_at 12 file) else none)
              else none)
            (some first)
        → header_len ≤ first
    go true b c d k e = let same : header_len ≡ first = cc in omega (arith, same)
    go false false c d k e = cc
    go false true false d k e = cc
    go false true true false k e = cc
    go false true true true k e =
        let same : u32_at 12 file ≡ first = cc in omega (arith, same, k refl)
