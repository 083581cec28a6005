-- ===== src/Grain/Update/Adopt.antt =====
-- `append_page` of src/grain.rs: a page computed elsewhere is adopted behind the pages that are counted.
use timberfs.Prelude.{
  ℕ, ◌+◌, ◌%◌, ◌^◌, ◌≤◌, ◌<◌, ◌≡◌, refl, ap, ◌∙◌, sym, List, [], ◌∷◌, ◌++◌, none, some, length,
  take, All, arith, append_assoc, append-nil, length-append, length-take, All-append, All-take,
}
use mathlib.Core.Path.{subst}
use timberfs.Bytes.{bytes_eq, to_le, write_at}
use timberfs.Bytes.File.{write_at_end}
use timberfs.Grain.{
  Tail, GrainFiles, header_len, header_bytes, first_record_offset, header_first_rec,
}
use timberfs.Grain.Pages.{page_record, encode_pages, IsPage, length-page_record}
use timberfs.Grain.Update.{committed, page_behind, append_page, empty_tail, cut_tail}
use timberfs.Grain.Update.Covers.{
  Covers, tail_at, encode_pages-append, front-IsGrain, cut_tail-IsGrain,
}
use timberfs.Grain.Update.Extend.{committed-Covers}

module _ (page : List ℕ) (small : IsPage page) where
  encode_pages-snoc :
      (qs : List (List ℕ)) → encode_pages (qs ++ (page ∷ [])) ≡ encode_pages qs ++ page_record page
  encode_pages-snoc qs =
      encode_pages-append qs (page ∷ [])
      ∙ ap (λ t. encode_pages qs ++ t) (append-nil (page_record page))

  page_behind-Covers :
      (ino : ℕ) (file : List ℕ) (first : ℕ) (qs : List (List ℕ)) (t : Tail)
      → first_record_offset file ≡ some first
      → first ≤ length file
      → All IsPage qs
      → length qs + 1 < 2 ^ 64
      → t.count ≡ length qs
      → t.end ≡ first + length (encode_pages qs)
      → cut_tail file t ≡ take first file ++ encode_pages qs
      → Covers
          (page_behind ino file t page)
          (take first file ++ encode_pages (qs ++ (page ∷ [])))
          first
          (qs ++ (page ∷ []))
          []
          (length (qs ++ (page ∷ [])))
  page_behind-Covers ino file first qs t offset inside pages h ec ee cut =
      subst
        (λ (p : List ℕ × ℕ).
          Covers (committed ino (t.count + 1) p) new first (qs ++ (page ∷ [])) []
            (length (qs ++ (page ∷ []))))
        (λ i. (sym written i, sym ends i))
        (committed-Covers ino new first (qs ++ (page ∷ [])) (t.count + 1) (length new)
          (front-IsGrain file first (qs ++ (page ∷ [])) offset inside
            (All-append IsPage qs (page ∷ []) pages (small, tt)))
          (omega (arith, longer, h)) (omega (arith, longer, ec)) new_length)
    where
      new : List ℕ
      new = take first file ++ encode_pages (qs ++ (page ∷ []))

      longer : length (qs ++ (page ∷ [])) ≡ length qs + 1
      longer = omega (arith, length-append qs (page ∷ []))

      new_length : length new ≡ first + length (encode_pages (qs ++ (page ∷ [])))
      new_length = omega (
        arith,
        length-append (take first file) (encode_pages (qs ++ (page ∷ []))),
        length-take first file,
        inside,
      )

      at_end : t.end ≡ length (take first file ++ encode_pages qs)
      at_end = omega (
        arith,
        ee,
        length-append (take first file) (encode_pages qs),
        length-take first file,
        inside,
      )

      fits : length page % 2 ^ 32 ≡ length page
      fits = omega (arith, small)

      written : write_at (cut_tail file t) t.end (to_le 4 (length page % 2 ^ 32) ++ page) ≡ new
      written =
          rw
            (
              cut,
              at_end,
              fits,
              write_at_end (take first file ++ encode_pages qs) (page_record page),
            )
            (append_assoc (take first file) (encode_pages qs) (page_record page)
              ∙ ap (λ t. take first file ++ t) (sym (encode_pages-snoc qs)))

      ends : t.end + (4 + length page) ≡ length new
      ends = omega (
        arith,
        at_end,
        new_length,
        ap length (encode_pages-snoc qs),
        length-append (take first file) (encode_pages qs),
        length-append (encode_pages qs) (page_record page),
        length-page_record page,
        length-take first file,
        inside,
      )

  -- A page adopted where there is no grain is the first of a fresh one.
  pub append_page-none :
      (fresh : ℕ) (g : GrainFiles)
      → g.grain ≡ none
      → Covers
          (append_page fresh page g)
          (header_bytes header_len ++ encode_pages (page ∷ []))
          header_len
          (page ∷ [])
          []
          1
  unfolding append_page header_bytes to_le
  append_page-none fresh g e = rw e (
      page_behind-Covers fresh (header_bytes header_len) header_len [] empty_tail
        (unfold first_record_offset header_first_rec bytes_eq in refl) (omega arith) tt
        (omega arith) refl refl refl)

  -- A page that is adopted is the next one behind those that are counted, whatever stood there.
  pub append_page-Covers :
      (fresh : ℕ) (g : GrainFiles) (file : List ℕ) (first : ℕ) (ps : List (List ℕ)) (torn : List ℕ)
      (m : ℕ)
      → Covers g file first ps torn m
      → m + 1 < 2 ^ 64
      → Covers
          (append_page fresh page g)
          (take first file ++ encode_pages (take m ps ++ (page ∷ [])))
          first
          (take m ps ++ (page ∷ []))
          []
          (length (take m ps ++ (page ∷ [])))
  unfolding append_page
  append_page-Covers fresh g file first ps torn m c h =
      rw (c.on_disk, c.located)
        (page_behind-Covers g.ino file first (take m ps) (tail_at first ps m) c.grain.offset
          c.grain.inside (All-take IsPage m ps c.grain.pages) (omega (arith, counts, h))
          (sym counts) refl (cut_tail-IsGrain file first ps torn m c.grain))
    where
      counts : length (take m ps) ≡ m
      counts = omega (arith, length-take m ps, c.within)
