-- ===== src/Grain/Update/Answers.antt =====
-- What the token index of src/grain.rs answers of a chunk that has the tokens asked for.
use timberfs.Prelude.{
  ℕ, zero, suc, ◌≤◌, ◌≡◌, refl, ap, sym, ◌∙◌, take_all, true, List, [], ◌∷◌, map, some, length,
  take, All, get_elem?, arith, ok,
}
use timberfs.Format.{ChunkRecord, RingsVersion, parse_index_versioned}
use timberfs.Format.Chunk.{Zstd}
use timberfs.Store.Inv.{Frames}
use timberfs.Grain.Tokens.{tokenize}
use timberfs.Grain.Tokens.Runs.{IsToken}
use timberfs.Grain.Tokens.Sound.{tokenize_iff}
use timberfs.Grain.Bloom.Member.{filter_contains-build_filter}
use timberfs.Grain.{GrainFiles, load, all_contained, may_contain_all}
use timberfs.Grain.Header.{first_record_offset-lo}
use timberfs.Grain.Pages.{load-IsGrain}
use timberfs.Grain.Update.{extend_grain}
use timberfs.Grain.Update.Build.{page_of}
use timberfs.Grain.Update.Covers.{Covers}
use timberfs.Grain.Update.Extend.{Leaves, extend_grain-Covers}

all_contained-page_of :
    (d : List ℕ) (ts : List (List ℕ)) → All (IsToken d) ts → all_contained (page_of d) ts ≡ true
unfolding all_contained
all_contained-page_of d [] h = refl
all_contained-page_of d (t ∷ ts) (h, hs) =
    rw (filter_contains-build_filter t (tokenize d) ((tokenize_iff d t).1 h))
      (all_contained-page_of d ts hs)

-- Whichever first chunks the pages are of, a chunk whose content has all the tokens is not ruled out:
-- its own page says yes, and so does a page that is missing.
pub may_contain_all-page_of :
    (ds : List (List ℕ)) (n i : ℕ) (d : List ℕ) (ts : List (List ℕ))
    → get_elem? ds i ≡ some d
    → All (IsToken d) ts
    → may_contain_all (take n (map page_of ds)) i ts ≡ true
unfolding may_contain_all
may_contain_all-page_of [] zero i d ts e h = refl
may_contain_all-page_of [] (suc n) i d ts e h = refl
may_contain_all-page_of (x ∷ ds) zero i d ts e h = refl
may_contain_all-page_of (x ∷ ds) (suc n) zero d ts e h =
    let same : x ≡ d = cc in rw same (all_contained-page_of d ts h)
may_contain_all-page_of (x ∷ ds) (suc n) (suc i) d ts e h = may_contain_all-page_of ds n i d ts e h

-- A grain that covers pages is loaded as these pages.
pub load-Covers :
    (g : GrainFiles) (file : List ℕ) (first : ℕ) (ps : List (List ℕ)) (torn : List ℕ) (m : ℕ)
    → Covers g file first ps torn m
    → load file ≡ some ps
load-Covers g file first ps torn m c =
    load-IsGrain file first ps torn c.grain
      (omega (arith, first_record_offset-lo file first c.grain.offset))

-- After `extend_grain` of a grain whose counted pages are those of the store's first chunks, the file
-- is loaded as one page for each chunk of the store, and no chunk whose content has all the tokens
-- asked for is ruled out: a token is a maximal run of ASCII letters and digits of 3 to 64 bytes.
pub may_contain_all-extend_grain :
    (z : Zstd) (trunk rings : List ℕ) (fresh lead u' c' : ℕ) (v : RingsVersion)
    (rs : List ChunkRecord) (ds : List (List ℕ))
    → parse_index_versioned rings ≡ ok (rs, v)
    → Frames z trunk 0 lead u' c' rs ds
    → (g : GrainFiles) (file : List ℕ) (first : ℕ) (ps : List (List ℕ)) (torn : List ℕ) (m : ℕ)
    → Covers g file first ps torn m
    → (m ≤ length ds → take m ps ≡ take m (map page_of ds))
    → (i : ℕ) (d : List ℕ) (ts : List (List ℕ)) → get_elem? ds i ≡ some d
    → All (IsToken d) ts
    → (left : Leaves (extend_grain z rings trunk fresh g) (map page_of ds)) × (load left.file
        ≡ some (map page_of ds))
      × (may_contain_all (map page_of ds) i ts ≡ true)
may_contain_all-extend_grain z trunk rings fresh lead u' c' v rs ds parsed f g file first ps torn m
      c agree i d ts e h =
    let left =
      extend_grain-Covers z trunk rings fresh lead u' c' v rs ds parsed f g file first ps torn m c
        agree in
    (
      left,
      load-Covers left.g left.file left.first (map page_of ds) [] (length (map page_of ds))
          left.covers,
      ap (λ qs. may_contain_all qs i ts)
            (sym (take_all (length (map page_of ds)) (map page_of ds) (omega arith)))
          ∙ may_contain_all-page_of ds (length (map page_of ds)) i d ts e h,
    )
