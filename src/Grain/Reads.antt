-- ===== src/Grain/Reads.antt =====
-- `read_pages` and `coverage` of src/grain.rs: a run of pages, and how many there are, without the
-- whole file.
use timberfs.Prelude.{
  ℕ, zero, suc, ◌+◌, ◌-◌, ◌^◌, ◌≤◌, ◌<◌, ◌≡◌, refl, ap, ◌∙◌, sym, Bool, true, false, ◌&&◌, ◌⊎◌, inl,
  inr, List, [], ◌∷◌, ◌++◌, Option, none, some, length, take, drop, All, arith, ltb, leb, le→ltb,
  lt→ltb, le→leb, lt→leb, ltb→lt, ltb→le, leb→le, leb→lt, append_assoc, take_all, length-drop,
  length-take, take-drop-take, Bool-cases, if◌then◌else◌,
}
use timberfs.Bytes.{slice, u32_at}
use timberfs.Format.Chunk.{saturating_add}
use timberfs.Grain.{Stamp, Commit, GrainFiles, stamp, walk, load_commit, known_or_walked}
use timberfs.Grain.Pages.{page_record, encode_pages, IsPage, IsTorn, IsGrain, At-record, at_torn}
use timberfs.Grain.Update.Covers.{Covers}
use timberfs.Grain.Update.Located.{stamp-IsGrain, commit-cases, walked}
use timberfs.Grain.Header.{first_record_offset-lo}

-- The loop from record `idx` at `off`; a round takes four bytes at least.
unfoldable pub read_pages_loop : ℕ → List ℕ → ℕ → ℕ → ℕ → ℕ → ℕ → List (List ℕ)
read_pages_loop zero file len from upto idx off = []
read_pages_loop (suc fuel) file len from upto idx off =
    let body = u32_at off file in
    let later = read_pages_loop fuel file len from upto (idx + 1) (off + (4 + body)) in
    if ltb idx upto && leb (off + 4) len
    then (if ltb len (off + 4 + body)
        then []
        else if leb from idx
        then slice (off + 4) body file ∷ later
        else later)
    else []

abbrev pages_at : List ℕ → ℕ → ℕ → Option Stamp → List (List ℕ)
pages_at file from count none = []
pages_at file from count (some s) =
    read_pages_loop (length file) file s.len from (saturating_add from count) 0 s.first

unfoldable pub read_pages : ℕ → List ℕ → ℕ → ℕ → List (List ℕ)
unfolding stamp read_pages_loop
read_pages ino file from count = pages_at file from count (stamp ino file)

-- The commit where it still describes the file, otherwise a walk.
abbrev counted_at : Option Commit → List ℕ → Option Stamp → Option (ℕ × ℕ)
counted_at commit file none = none
counted_at commit file (some s) =
    some (s.len, (known_or_walked file s (load_commit commit s)).0.count)

unfoldable pub coverage : ℕ → Option Commit → List ℕ → Option (ℕ × ℕ)
unfolding stamp load_commit walk
coverage ino commit file = counted_at commit file (stamp ino file)

module _ (file : List ℕ) (from upto : ℕ) where
  stops_full :
      (fuel idx off : ℕ)
      → upto ≤ idx
      → read_pages_loop fuel file (length file) from upto idx off ≡ []
  unfolding read_pages_loop
  stops_full zero idx off h = refl
  stops_full (suc fuel) idx off h = rw (le→ltb idx upto h)

  stops_torn :
      (fuel idx off : ℕ)
      → (length file < off + 4) ⊎ (length file < off + 4 + u32_at off file)
      → read_pages_loop fuel file (length file) from upto idx off ≡ []
  unfolding read_pages_loop
  stops_torn zero idx off h = refl
  stops_torn (suc fuel) idx off (inl short) =
      rw (lt→leb (off + 4) (length file) short) (no_more (ltb idx upto) _)
    where
      no_more :
          (b : Bool) (xs : List (List ℕ))
          → ◌≡◌ {A = List (List ℕ)} (if b && false then xs else []) []
      no_more true xs = refl
      no_more false xs = refl
  stops_torn (suc fuel) idx off (inr cut) =
      rw (lt→ltb (length file) (off + 4 + u32_at off file) cut)
        (same (ltb idx upto && leb (off + 4) (length file)))
    where
      same : (b : Bool) → ◌≡◌ {A = List (List ℕ)} (if b then [] else []) []
      same true = refl
      same false = refl

  none_wanted :
      (n m : ℕ) (ps : List (List ℕ)) → m ≡ 0 → ◌≡◌ {A = List (List ℕ)} (drop n (take m ps)) []
  none_wanted zero m ps e = rw e refl
  none_wanted (suc n) m ps e = rw e refl

  wanted :
      (n n' m m' : ℕ) (p : List ℕ) (ps : List (List ℕ))
      → n ≡ 0
      → n' ≡ 0
      → m ≡ suc m'
      → p ∷ drop n' (take m' ps) ≡ drop n (take m (p ∷ ps))
  wanted n n' m m' p ps e e' em = rw (e, e', em) refl

  skipped :
      (n n' m m' : ℕ) (p : List ℕ) (ps : List (List ℕ))
      → n ≡ suc n'
      → m ≡ suc m'
      → drop n (take m (p ∷ ps)) ≡ drop n' (take m' ps)
  skipped n n' m m' p ps e e' = rw (e, e') refl

  read_pages_loop-pages :
      (ps : List (List ℕ)) (torn : List ℕ) (fuel idx off : ℕ)
      → All IsPage ps
      → IsTorn torn
      → off ≤ length file
      → length file < fuel + off
      → drop off file ≡ encode_pages ps ++ torn
      → read_pages_loop fuel file (length file) from upto idx off
        ≡ drop (from - idx) (take (upto - idx) ps)
  unfolding read_pages_loop
  read_pages_loop-pages ps torn zero idx off hp ht h enough e = absurd (omega (arith, h, enough))
  read_pages_loop-pages [] torn (suc fuel) idx off hp ht h enough e =
      stops_torn (suc fuel) idx off (at_torn file off torn h ht e)
      ∙ sym (nothing (from - idx) (upto - idx))
    where
      nothing : (n m : ℕ) → ◌≡◌ {A = List (List ℕ)} (drop n (take m [])) []
      nothing zero zero = refl
      nothing zero (suc m) = refl
      nothing (suc n) zero = refl
      nothing (suc n) (suc m) = refl
  read_pages_loop-pages (p ∷ ps) torn (suc fuel) idx off (hp, hs) ht h enough e =
      let a =
        At-record file off p (encode_pages ps ++ torn) h hp
          (e ∙ append_assoc (page_record p) (encode_pages ps) torn) in
      let next : drop (off + (4 + length p)) file ≡ encode_pages ps ++ torn =
        ap (λ (n : ℕ). drop n file) (omega arith) ∙ a.next in
      elim (Bool-cases (ltb idx upto)) [
        | inr full ↦
            stops_full (suc fuel) idx off (ltb→le idx upto full)
            ∙ sym (
                none_wanted (from - idx) (upto - idx) (p ∷ ps)
                  (omega (arith, ltb→le idx upto full)))
        | inl more ↦
            rw
              (
                a.len,
                more,
                le→leb (off + 4) (length file) (omega (arith, a.room)),
                le→ltb (length file) (off + 4 + length p) a.room,
                a.page,
                read_pages_loop-pages ps torn fuel (idx + 1) (off + (4 + length p)) hs ht
                    (omega (arith, a.room)) (omega (arith, enough)) next,
              )
              (let before = ltb→lt idx upto more in
                elim (Bool-cases (leb from idx)) [
                  | inl t ↦ rw t (
                      wanted (from - idx) (from - (idx + 1)) (upto - idx) (upto - (idx + 1)) p ps
                        (omega (arith, leb→le from idx t)) (omega (arith, leb→le from idx t))
                        (omega (arith, before)))
                  | inr t ↦ rw t (
                      sym (
                        skipped (from - idx) (from - (idx + 1)) (upto - idx) (upto - (idx + 1)) p ps
                          (omega (arith, leb→lt from idx t)) (omega (arith, before))))
                ])
      ]

-- A bounded reader finds the pages asked for, those from `from` on, `count` at most, in a grain of
-- these pages, whatever a crash left behind the last one.
pub read_pages-IsGrain :
    (ino : ℕ) (file : List ℕ) (first : ℕ) (ps : List (List ℕ)) (torn : List ℕ) (from count : ℕ)
    → IsGrain file first ps torn
    → from + count < 2 ^ 64
    → read_pages ino file from count ≡ take count (drop from ps)
unfolding read_pages
read_pages-IsGrain ino file first ps torn from count g h =
    rw (stamp-IsGrain ino file first ps torn g) (
      read_pages_loop-pages file from (saturating_add from count) ps torn (length file) 0 first
        g.pages g.cut_short g.inside (omega (arith, first_record_offset-lo file first g.offset))
        g.behind
      ∙ ap (λ (n : ℕ). drop (from - 0) (take n ps)) upto
      ∙ ap (λ (n : ℕ). drop n (take (from + count) ps)) start
      ∙ sym (
          take_all count (drop from (take (from + count) ps)) (
            omega
              (arith, length-drop from (take (from + count) ps), length-take (from + count) ps)))
      ∙ take-drop-take count from (from + count) ps (omega arith))
  where
    upto : saturating_add from count - 0 ≡ from + count
    upto = omega (arith, h)

    start : from - 0 ≡ from
    start = omega arith

-- The number of pages that are counted, and the size of the file.
pub coverage-Covers :
    (g : GrainFiles) (file : List ℕ) (first : ℕ) (ps : List (List ℕ)) (torn : List ℕ) (m : ℕ)
    → Covers g file first ps torn m
    → coverage g.ino g.commit file ≡ some (length file, m)
unfolding coverage
coverage-Covers g file first ps torn m c = elim (commit-cases g file first ps torn m c) [
  | inl e ↦ rw (stamp-IsGrain g.ino file first ps torn c.grain, e) refl
  | inr (e, em) ↦
      rw
        (
          stamp-IsGrain g.ino file first ps torn c.grain,
          e,
          walked g.ino file first ps torn c.grain c.counted,
        )
        (ap (λ (n : ℕ). some (length file, n)) (sym em))
]
