-- ===== src/Grain/Update/Rebase/Kept.antt =====
-- The grain that `rebase_head` of src/grain.rs leaves, for each of its ways.
use mathlib.Core.Path.{subst}
use timberfs.Prelude.{
  ℕ, ◌+◌, ◌-◌, ◌^◌, ◌≤◌, ◌<◌, ◌≡◌, refl, ap, ◌∙◌, sym, true, inl, List, [], ◌++◌, none, some,
  length, take, drop, All, arith, length-append, length-take, length-drop, drop-append_ge, take_all,
  All-take, All-drop,
}
use timberfs.Grain.{Tail, GrainFiles, header_len, header_bytes, load_commit, save_commit}
use timberfs.Grain.Header.{length-header_bytes, first_record_offset-header_bytes}
use timberfs.Grain.Pages.{encode_pages, IsPage, IsTorn, IsGrain}
use timberfs.Grain.Update.Covers.{Covers, tail_at}
use timberfs.Grain.Update.Located.{located_by, saved}

-- The pages from the `k`-th on, up to those counted at least, behind some header.
pub record Rebased (g : GrainFiles) (k : ℕ) (ps : List (List ℕ)) (m : ℕ) : Type 0 where
  pub file : List ℕ
  pub first : ℕ
  pub torn : List ℕ
  pub n : ℕ
  pub enough : m - k ≤ n
  pub covers : Covers g file first (take n (drop k ps)) torn (m - k)

-- Records behind a header that says where they start.
pub behind-IsGrain :
    (first : ℕ) (rest : List ℕ) (qs : List (List ℕ)) (torn : List ℕ)
    → header_len ≤ first
    → first < 2 ^ 32
    → first ≤ header_len + length rest
    → drop (first - header_len) rest ≡ encode_pages qs ++ torn
    → All IsPage qs
    → IsTorn torn
    → IsGrain (header_bytes first ++ rest) first qs torn
behind-IsGrain first rest qs torn lo hi inside e pages cut = record {
  offset = first_record_offset-header_bytes first rest lo hi inside;
  inside =
      omega (arith, length-append (header_bytes first) rest, length-header_bytes first, inside);
  behind =
      drop-append_ge first (first - header_len) (header_bytes first) rest
        (omega (arith, length-header_bytes first, lo))
      ∙ e;
  pages = pages;
  cut_short = cut;
}

-- `torn` is what stands behind the pages `ps`, `m` of which are counted.
module _ (fresh k : ℕ) (ps : List (List ℕ)) (torn : List ℕ) (m : ℕ)
    (counts : m - k ≤ length (drop k ps)) (dropped_counted : length (drop k ps) < 2 ^ 64)
    (pages : All IsPage ps) (cut_short : IsTorn torn) where
  all_dropped : take (length (drop k ps)) (drop k ps) ≡ drop k ps
  all_dropped = take_all (length (drop k ps)) (drop k ps) (omega arith)

  -- Every page behind the dropped ones is kept.
  pub keeps_all :
      (g' : GrainFiles) (file' : List ℕ) (first' : ℕ)
      → Covers g' file' first' (drop k ps) torn (m - k)
      → Rebased g' k ps m
  keeps_all g' file' first' covers = record {
    file = file';
    first = first';
    torn = torn;
    n = length (drop k ps);
    enough = counts;
    covers = subst (λ qs. Covers g' file' first' qs torn (m - k)) (sym all_dropped) covers;
  }

  -- The commit was known: its tail moves with the pages.
  pub keeps_commit :
      (ino : ℕ) (file' : List ℕ) (first' : ℕ) (t : Tail)
      → IsGrain file' first' (drop k ps) torn
      → t ≡ tail_at first' (drop k ps) (m - k)
      → Rebased (record { grain = some file'; ino = ino; commit = save_commit ino file' t }) k ps m
  keeps_commit ino file' first' t gr e = keeps_all _ file' first' (record {
    on_disk = refl;
    grain = gr;
    counted = dropped_counted;
    within = counts;
    known = true;
    located = rw e (saved ino file' first' (drop k ps) torn gr (m - k));
  })

  -- It was not: every page had been counted.
  pub no_commit :
      (ino : ℕ) (file' : List ℕ) (first' : ℕ)
      → m ≡ length ps
      → IsGrain file' first' (drop k ps) torn
      → Rebased (record { grain = some file'; ino = ino; commit = none }) k ps m
  unfolding load_commit
  no_commit ino file' first' em gr =
      let found =
        located_by ino file' first' (drop k ps) torn gr none dropped_counted (λ t s e. cc) in
      keeps_all _ file' first' (record {
        on_disk = refl;
        grain = gr;
        counted = dropped_counted;
        within = counts;
        known = found.0;
        located =
            found.1
            ∙ ap (λ (n : ℕ). some (tail_at first' (drop k ps) n, found.0))
                (omega (arith, em, length-drop k ps));
      })

  pub copied-IsGrain :
      IsGrain
        (header_bytes header_len ++ (encode_pages (drop k ps) ++ torn))
        header_len
        (drop k ps)
        torn
  copied-IsGrain =
      behind-IsGrain header_len (encode_pages (drop k ps) ++ torn) (drop k ps) torn (omega arith)
        (omega arith) (omega arith) refl (All-drop IsPage k ps pages) cut_short

  pub cut-IsGrain :
      IsGrain
        (header_bytes header_len ++ (encode_pages (take (m - k) (drop k ps)) ++ []))
        header_len
        (take (m - k) (drop k ps))
        []
  cut-IsGrain =
      behind-IsGrain header_len (encode_pages (take (m - k) (drop k ps)) ++ [])
        (take (m - k) (drop k ps)) [] (omega arith) (omega arith) (omega arith) refl
        (All-take IsPage (m - k) (drop k ps) (All-drop IsPage k ps pages)) (inl (omega arith))

  -- The tail that is copied up to the committed end.
  pub cut_commit :
      (t : Tail)
      → t ≡ tail_at header_len (take (m - k) (drop k ps)) (m - k)
      → Rebased
          (record {
            grain =
                some (header_bytes header_len ++ (encode_pages (take (m - k) (drop k ps)) ++ []));
            ino = fresh;
            commit =
                save_commit fresh
                  (header_bytes header_len ++ (encode_pages (take (m - k) (drop k ps)) ++ []))
                  t;
          })
          k
          ps
          m
  cut_commit t e = record {
    file = header_bytes header_len ++ (encode_pages (take (m - k) (drop k ps)) ++ []);
    first = header_len;
    torn = [];
    n = m - k;
    enough = omega arith;
    covers = record {
      on_disk = refl;
      grain = cut-IsGrain;
      counted = omega (arith, length-take (m - k) (drop k ps), dropped_counted);
      within = omega (arith, length-take (m - k) (drop k ps), counts);
      known = true;
      located = rw e (saved fresh _ header_len (take (m - k) (drop k ps)) [] cut-IsGrain (m - k));
    };
  }
