-- ===== src/Grain/Update/Rebase.antt =====
-- `rebase_head` of src/grain.rs: the pages of the chunks that a head drop took are dropped too.
pub mod Kept
use mathlib.Core.Path.{subst}
use native.Mathlib.Nat.{div-mul-le_self, div-add-mod', mod-lt}
use timberfs.Prelude.{
  ℕ, ◌+◌, ◌-◌, ◌*◌, ◌/◌, ◌^◌, ◌≤◌, ◌<◌, ◌≡◌, refl, ap, ◌∙◌, sym, min, Bool, true, false, ◌&&◌, inl,
  inr, List, [], ◌++◌, Option, none, some, length, take, drop, All, arith, ltb, ◌==◌, ==_iff,
  le→leb, append-nil, length-append, length-take, length-drop, take-append_eq, drop-append_eq,
  drop-append_ge, drop-drop, take_all, take-add, All-take, All-drop, Bool-cases,
}
use timberfs.Bytes.{slice, write_at}
use timberfs.Bytes.File.{write_at_inside}
use timberfs.Grain.{Tail, GrainFiles, header_len, header_bytes, walk, load_commit, save_commit}
use timberfs.Grain.Header.{
  length-header_bytes, first_record_offset-header_bytes, first_record_offset-lo,
}
use timberfs.Grain.Pages.{encode_pages, IsPage, IsTorn, IsGrain, walk-IsGrain}
use timberfs.Grain.Update.{rebase_head, rebase_known, usable}
use timberfs.Grain.Update.Covers.{
  Covers, tail_at, encode_pages-append, front-IsGrain, behind_front, end_inside, cut_tail-IsGrain,
  take-IsGrain,
}
use timberfs.Grain.Update.Located.{
  stamp-IsGrain, located_by, located_known, saved, commit-cases, walked,
}
use timberfs.Grain.Update.Rebase.Kept.{
  Rebased, behind-IsGrain, keeps_commit, no_commit, cut_commit, copied-IsGrain,
}

module _ (can_collapse : Bool) (bsize fresh k : ℕ) (g : GrainFiles) (file : List ℕ) (first : ℕ)
    (ps : List (List ℕ)) (torn : List ℕ) (m : ℕ) (c : Covers g file first ps torn m)
    (some_dropped : 0 < k) (fewer : k ≤ m) (block : 0 < bsize)
    (small : header_len + bsize ≤ 2 ^ 32) where
  abbrev survivors : ℕ
  survivors = first + length (encode_pages (take k ps))

  abbrev aligned : ℕ
  aligned = (survivors - header_len) / bsize * bsize

  lo : header_len ≤ first
  lo = first_record_offset-lo file first c.grain.offset

  aligned_le : aligned ≤ survivors - header_len
  aligned_le = div-mul-le_self (survivors - header_len) bsize

  aligned_near : survivors - aligned < header_len + bsize
  aligned_near = omega (
    arith,
    mod-lt (survivors - header_len) block,
    div-add-mod' (survivors - header_len) bsize,
    lo,
  )

  fits : survivors ≤ length file
  fits = end_inside file first ps torn k c.grain

  counts : m - k ≤ length (drop k ps)
  counts = omega (arith, length-drop k ps, c.within)

  survive : drop survivors file ≡ encode_pages (drop k ps) ++ torn
  survive =
      sym (drop-drop first (length (encode_pages (take k ps))) survivors file refl)
      ∙ ap (drop (length (encode_pages (take k ps)))) (behind_front file first ps torn k c.grain)
      ∙ drop-append_eq (length (encode_pages (take k ps))) (encode_pages (take k ps)) _ refl

  -- The counted pages are the dropped ones and those kept.
  kept_len :
      length (encode_pages (take m ps))
      ≡ length (encode_pages (take k ps)) + length (encode_pages (take (m - k) (drop k ps)))
  kept_len =
      ap (λ qs. length (encode_pages qs)) (take-add k (m - k) m ps (omega (arith, fewer)))
      ∙ ap length (encode_pages-append (take k ps) (take (m - k) (drop k ps)))
      ∙ length-append (encode_pages (take k ps)) (encode_pages (take (m - k) (drop k ps)))

  -- The file after the collapse.
  abbrev first_rec : ℕ
  first_rec = survivors - aligned

  abbrev left_over : List ℕ
  left_over = drop header_len (drop aligned file)

  collapsed_is :
      write_at (drop aligned file) 0 (header_bytes first_rec) ≡ header_bytes first_rec ++ left_over
  collapsed_is =
      write_at_inside (drop aligned file) (header_bytes first_rec) 0 (omega arith)
      ∙ ap (λ (n : ℕ). header_bytes first_rec ++ drop n (drop aligned file)) whole
    where
      whole : 0 + length (header_bytes first_rec) ≡ header_len
      whole = omega (arith, length-header_bytes first_rec)

  collapsed-IsGrain : IsGrain (header_bytes first_rec ++ left_over) first_rec (drop k ps) torn
  collapsed-IsGrain =
      behind-IsGrain first_rec left_over (drop k ps) torn (omega (arith, lo, aligned_le))
        (omega (arith, aligned_near, small))
        (omega (
          arith,
          length-drop header_len (drop aligned file),
          length-drop aligned file,
          fits,
          lo,
          aligned_le,
        ))
        (drop-drop header_len (first_rec - header_len) first_rec (drop aligned file)
            (omega (arith, lo, aligned_le))
          ∙ drop-drop aligned first_rec survivors file (omega (arith, aligned_le))
          ∙ survive)
        (All-drop IsPage k ps c.grain.pages) c.grain.cut_short

  dropped_counted : length (drop k ps) < 2 ^ 64
  dropped_counted = omega (arith, c.counted, length-drop k ps)

  Moves : Option Tail → Type 0
  Moves known =
      Rebased (rebase_known can_collapse bsize fresh k g.ino file (length file) survivors known) k
        ps m

  no_commit-Moves : m ≡ length ps → Moves none
  unfolding Moves rebase_known
  no_commit-Moves em = elim (Bool-cases (ltb 0 aligned && can_collapse)) [
    | inl e ↦
        rw (e, collapsed_is)
          (no_commit fresh k ps torn m counts dropped_counted c.grain.pages c.grain.cut_short g.ino
            (header_bytes first_rec ++ left_over) first_rec em collapsed-IsGrain)
    | inr e ↦
        rw (e, to_the_end)
          (no_commit fresh k ps torn m counts dropped_counted c.grain.pages c.grain.cut_short fresh
            _ header_len em
            (copied-IsGrain fresh k ps torn m counts dropped_counted c.grain.pages
              c.grain.cut_short))
  ]
    where
      to_the_end : slice survivors (length file - survivors) file ≡ encode_pages (drop k ps) ++ torn
      to_the_end =
          take_all (length file - survivors) (drop survivors file)
            (omega (arith, length-drop survivors file))
          ∙ survive

  commit-Moves : Moves (some (tail_at first ps m))
  unfolding Moves rebase_known
  commit-Moves = elim (Bool-cases (ltb 0 aligned && can_collapse)) [
    | inl e ↦
        rw (e, collapsed_is)
          (keeps_commit fresh k ps torn m counts dropped_counted c.grain.pages c.grain.cut_short
            g.ino (header_bytes first_rec ++ left_over) first_rec _ collapsed-IsGrain
            (λ i. record { count = m - k; end = collapsed_end i }))
    | inr e ↦
        rw (e, to_commit)
          (cut_commit fresh k ps torn m counts dropped_counted c.grain.pages c.grain.cut_short _
            (λ i. record { count = m - k; end = copied_end i }))
  ]
    where
      collapsed_end :
          first + length (encode_pages (take m ps)) - aligned
          ≡ first_rec + length (encode_pages (take (m - k) (drop k ps)))
      collapsed_end = omega (arith, kept_len, aligned_le)

      copied_end :
          header_len + (first + length (encode_pages (take m ps)) - survivors)
          ≡ header_len + length (encode_pages (take (m - k) (take (m - k) (drop k ps))))
      copied_end = omega (
        arith,
        kept_len,
        ap (λ qs. length (encode_pages qs))
            (take_all (m - k) (take (m - k) (drop k ps))
              (omega (arith, length-take (m - k) (drop k ps)))),
      )

      wanted :
          first + length (encode_pages (take m ps)) - survivors
          ≡ length (encode_pages (take (m - k) (drop k ps)))
      wanted = omega (arith, kept_len)

      to_commit :
          slice survivors (first + length (encode_pages (take m ps)) - survivors) file
          ≡ encode_pages (take (m - k) (drop k ps)) ++ []
      to_commit =
          ap (λ (n : ℕ). slice survivors n file) wanted
          ∙ ap (take (length (encode_pages (take (m - k) (drop k ps))))) (
              survive
              ∙ sym
                  (copied-IsGrain fresh k ps torn m counts dropped_counted c.grain.pages
                    c.grain.cut_short).behind
              ∙ behind_front _ header_len (drop k ps) torn (m - k) (
                  copied-IsGrain fresh k ps torn m counts dropped_counted c.grain.pages
                    c.grain.cut_short))
          ∙ take-append_eq (length (encode_pages (take (m - k) (drop k ps))))
              (encode_pages (take (m - k) (drop k ps))) _ refl
          ∙ sym (append-nil (encode_pages (take (m - k) (drop k ps))))

  -- The commit is used where it describes the file: it counts the dropped pages, as `fewer` says.
  usable_end : usable k survivors (some (tail_at first ps m)) ≡ some (tail_at first ps m)
  usable_end =
      rw
        (
          le→leb k m fewer,
          le→leb survivors (first + length (encode_pages (take m ps))) (omega (arith, kept_len)),
        )
        refl

  -- After a head drop of `k` chunks, `k` of those counted at most, the grain covers the pages of the
  -- chunks that are left, under their new numbers, whichever way the bytes are moved.
  pub rebase_head-Covers : Rebased (rebase_head can_collapse bsize fresh k g) k ps m
  unfolding rebase_head Moves
  rebase_head-Covers =
      rw (not_zero, c.on_disk, stamp-IsGrain g.ino file first ps torn c.grain, walked_to, all_found)
        (elim (commit-cases g file first ps torn m c) [
          | inl e ↦ rw (e, usable_end) commit-Moves
          | inr (e, em) ↦ rw e (no_commit-Moves em)
        ])
    where
      not_zero : (k == 0) ≡ false
      not_zero = ground arith

      walked_to :
          walk file first (length file) k
          ≡ record { count = 0 + min k (length ps); end = survivors }
      walked_to = walk-IsGrain file first ps torn c.grain k (omega (arith, lo))

      all_found : (0 + min k (length ps) == k) ≡ true
      all_found = (==_iff (0 + min k (length ps)) k).1 (omega (arith, fewer, c.within))
