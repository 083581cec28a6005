-- ===== src/Grain/Update/Covers.antt =====
-- The grain of src/grain.rs with its commit: where `locate` finds the end of the records.
use timberfs.Prelude.{
  ℕ, ◌+◌, ◌^◌, ◌≤◌, ◌<◌, ◌≡◌, refl, ap, ◌∙◌, sym, Bool, inl, inr, List, [], ◌++◌, map, concat, some,
  length, take, drop, All, arith, ltb, ltb→le, append_assoc, append-nil, length-append, length-take,
  length-drop, take-append_eq, take-append_le, drop-append_eq, take_all, take-add, take-drop-take,
  take-append-drop, concat-append, map-append, Bool-cases,
}
use timberfs.Bytes.File.{set_len_shorter}
use timberfs.Grain.{Tail, GrainFiles, header_len, first_record_offset, locate}
use timberfs.Grain.Header.{header_first_rec-same, first_record_offset-lo}
use timberfs.Grain.Pages.{page_record, encode_pages, IsPage, IsGrain}
use timberfs.Grain.Update.{cut_tail}

abbrev pub tail_at : ℕ → List (List ℕ) → ℕ → Tail
tail_at first ps m = record { count = m; end = first + length (encode_pages (take m ps)) }

-- The file holds these pages, of which `m` are taken to be there.
pub record Covers (g : GrainFiles) (file : List ℕ) (first : ℕ) (ps : List (List ℕ)) (torn : List ℕ)
    (m : ℕ) : Type 0 where
  pub on_disk : g.grain ≡ some file
  pub grain : IsGrain file first ps torn
  pub counted : length ps < 2 ^ 64
  pub within : m ≤ length ps
  pub known : Bool
  pub located : locate g.ino g.commit file ≡ some (tail_at first ps m, known)

pub encode_pages-append :
    (ps qs : List (List ℕ)) → encode_pages (ps ++ qs) ≡ encode_pages ps ++ encode_pages qs
encode_pages-append ps qs =
    ap concat (map-append page_record ps qs)
    ∙ concat-append (map page_record ps) (map page_record qs)

module _ (file : List ℕ) (first : ℕ) (ps : List (List ℕ)) (torn : List ℕ) (m : ℕ)
    (g : IsGrain file first ps torn) where
  pub behind_front :
      drop first file ≡ encode_pages (take m ps) ++ (encode_pages (drop m ps) ++ torn)
  behind_front =
      g.behind
      ∙ ap (λ qs. encode_pages qs ++ torn) (sym (take-append-drop m ps))
      ∙ ap (λ t. t ++ torn) (encode_pages-append (take m ps) (drop m ps))
      ∙ append_assoc (encode_pages (take m ps)) (encode_pages (drop m ps)) torn

  -- Up to the end of the first `m` pages, a grain is what stands before the records and these pages.
  pub take-IsGrain :
      take (first + length (encode_pages (take m ps))) file
      ≡ take first file ++ encode_pages (take m ps)
  take-IsGrain =
      take-add first (length (encode_pages (take m ps))) _ file refl
      ∙ ap (λ t. take first file ++ t)
          (ap (take (length (encode_pages (take m ps)))) behind_front
            ∙ take-append_eq (length (encode_pages (take m ps))) (encode_pages (take m ps)) _ refl)

  pub end_inside : first + length (encode_pages (take m ps)) ≤ length file
  end_inside = omega (
    arith,
    length-drop first file,
    g.inside,
    ap length behind_front,
    length-append (encode_pages (take m ps)) (encode_pages (drop m ps) ++ torn),
  )

  pub cut_tail-IsGrain :
      cut_tail file (tail_at first ps m) ≡ take first file ++ encode_pages (take m ps)
  cut_tail-IsGrain =
      elim (Bool-cases (ltb (first + length (encode_pages (take m ps))) (length file))) [
        | inl e ↦
            rw (e, set_len_shorter (first + length (encode_pages (take m ps))) file end_inside)
              take-IsGrain
        | inr e ↦ rw e (
            sym (take_all (first + length (encode_pages (take m ps))) file (ltb→le _ _ e))
            ∙ take-IsGrain)
      ]

-- Other pages behind the same front make a grain.
pub front-IsGrain :
    (file : List ℕ) (first : ℕ) (qs : List (List ℕ))
    → first_record_offset file ≡ some first
    → first ≤ length file
    → All IsPage qs
    → IsGrain (take first file ++ encode_pages qs) first qs []
front-IsGrain file first qs e h pages = record {
  offset =
      (unfold first_record_offset in
        header_first_rec-same file new same (length file) (length new) first e
          (omega (arith, lo, size)) (omega (arith, size)));
  inside = omega (arith, size);
  behind =
      drop-append_eq first (take first file) (encode_pages qs)
        (omega (arith, length-take first file, h))
      ∙ sym (append-nil (encode_pages qs));
  pages = pages;
  cut_short = inl (omega arith);
}
  where
    new : List ℕ
    new = take first file ++ encode_pages qs

    lo : header_len ≤ first
    lo = first_record_offset-lo file first e

    size : length (take first file ++ encode_pages qs) ≡ first + length (encode_pages qs)
    size =
        omega (arith, length-append (take first file) (encode_pages qs), length-take first file, h)

    same : take header_len (take first file ++ encode_pages qs) ≡ take header_len file
    same =
        take-append_le header_len (take first file) (encode_pages qs)
          (omega (arith, lo, length-take first file, h))
        ∙ take-drop-take header_len 0 first file (omega (arith, lo))
