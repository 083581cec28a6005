-- ===== src/Grain/Update/Extend.antt =====
-- `extend_grain` of src/grain.rs: the grain catches up with its store, by new pages or by a rebuild.
use timberfs.Prelude.{
  ℕ, ◌+◌, ◌^◌, ◌≤◌, ◌<◌, ◌≡◌, refl, ap, ◌∙◌, sym, Bool, true, false, List, [], ◌++◌, map, some,
  length, take, drop, arith, ltb, ◌==◌, ==_iff, ltb→le, append_assoc, length-append, length-take,
  inl, inr, take-append-drop, take_all, map-append, Bool-cases, if◌then◌else◌, Result, ok, ◌>>=◌,
  map_ok,
}
use mathlib.Core.Path.{subst}
use timberfs.Format.{ChunkRecord, RingsVersion, parse_index_versioned}
use timberfs.Format.Tail.{from_parsed, index_from-parse}
use timberfs.Format.Last.{read_index_tail}
use timberfs.Format.Chunk.{Zstd}
use timberfs.Store.Inv.{Frames}
use timberfs.Grain.{GrainFiles, GrainError, header_len, header_bytes, locate, save_commit}
use timberfs.Grain.Header.{length-header_bytes}
use timberfs.Grain.Pages.{encode_pages, IsGrain}
use timberfs.Grain.Update.{build_grain, extend_grain, cut_tail, index_chunks, committed}
use timberfs.Grain.Update.Covers.{
  Covers, tail_at, encode_pages-append, front-IsGrain, cut_tail-IsGrain,
}
use timberfs.Grain.Update.Located.{located_by, located_known, saved}
use timberfs.Grain.Update.Build.{
  page_of, pages-IsPage, index_chunks-Frames, built, built-IsGrain, build_grain-Frames,
}
use timberfs.Grain.Update.Chunks.{
  Frames-drop, Frames-length, Frames-counted, length-map_page, take-map_page,
}

-- All the pages, where the commit was saved with their number.
whole_tail :
    (first : ℕ) (ps : List (List ℕ))
    → tail_at first ps (length ps)
      ≡ record { count = length ps; end = first + length (encode_pages ps) }
whole_tail first ps =
    ap (λ qs. record { count = length ps; end = first + length (encode_pages qs) })
      (take_all (length ps) ps (omega arith))

-- A grain of these pages whose commit has just been saved.
pub committed-Covers :
    (ino : ℕ) (file : List ℕ) (first : ℕ) (ps : List (List ℕ)) (count end : ℕ)
    → IsGrain file first ps []
    → length ps < 2 ^ 64
    → count ≡ length ps
    → end ≡ first + length (encode_pages ps)
    → Covers (committed ino count (file, end)) file first ps [] (length ps)
committed-Covers ino file first ps count end g h ec ee = record {
  on_disk = refl;
  grain = g;
  counted = h;
  within = omega arith;
  known = true;
  located =
      rw (ec, ee)
        (ap (λ t. locate ino (save_commit ino file t) file) (sym (whole_tail first ps))
          ∙ saved ino file first ps [] g (length ps));
}

-- The operation succeeds, and leaves a grain of exactly these pages whose records `locate` finds.
pub record Leaves (r : Result GrainError GrainFiles) (ps : List (List ℕ)) : Type 0 where
  pub g : GrainFiles
  pub file : List ℕ
  pub first : ℕ
  pub result : r ≡ ok g
  pub covers : Covers g file first ps [] (length ps)

module _ (z : Zstd) (trunk rings : List ℕ) (fresh lead u' c' : ℕ) (v : RingsVersion)
    (rs : List ChunkRecord) (ds : List (List ℕ)) (parsed : parse_index_versioned rings ≡ ok (rs, v))
    (f : Frames z trunk 0 lead u' c' rs ds) where
  counted : length (map page_of ds) < 2 ^ 64
  counted =
      omega (arith, length-map_page ds, Frames-counted z trunk 0 lead u' c' rs ds (omega arith) f)

  same_count : length rs ≡ length (map page_of ds)
  same_count = Frames-length z trunk 0 lead u' c' rs ds f ∙ sym (length-map_page ds)

  -- A rebuild leaves one page for each chunk.
  pub build_grain-Covers : Leaves (build_grain z rings trunk fresh) (map page_of ds)
  build_grain-Covers =
      let g = built-IsGrain ds (pages-IsPage z trunk 0 lead u' c' rs ds f) in
      record {
        g = committed fresh (length rs) (built ds, length (built ds));
        file = built ds;
        first = header_len;
        result = build_grain-Frames z trunk rings fresh lead u' c' v rs ds parsed f;
        covers =
            committed-Covers fresh (built ds) header_len (map page_of ds) (length rs)
              (length (built ds)) g counted same_count
              (omega (
                arith,
                length-append (header_bytes header_len) (encode_pages (map page_of ds)),
                length-header_bytes header_len,
              ));
      }

  read_rest : (m : ℕ) → read_index_tail rings m ≡ ok (length rs, drop m rs)
  unfolding read_index_tail
  read_rest m = index_from-parse rings (λ n. m) ∙ ap (map_ok (from_parsed (λ n. m))) parsed

  module _ (g : GrainFiles) (file : List ℕ) (first : ℕ) (ps : List (List ℕ)) (torn : List ℕ) (m : ℕ)
      (c : Covers g file first ps torn m) where
    -- The file with the page of every chunk behind its own front.
    abbrev grown : List ℕ
    grown = take first file ++ encode_pages (map page_of ds)

    abbrev cut : List ℕ
    cut = cut_tail file (tail_at first ps m)

    grown-IsGrain : IsGrain grown first (map page_of ds) []
    grown-IsGrain =
        front-IsGrain file first (map page_of ds) c.grain.offset c.grain.inside
          (pages-IsPage z trunk 0 lead u' c' rs ds f)

    cut_agrees :
        m ≤ length ds
        → take m ps ≡ take m (map page_of ds)
        → cut ≡ take first file ++ encode_pages (take m (map page_of ds))
    cut_agrees h agree =
        cut_tail-IsGrain file first ps torn m c.grain
        ∙ ap (λ qs. take first file ++ encode_pages qs) agree

    -- Every chunk has its page already.
    up_to_date :
        m ≡ length rs
        → take m ps ≡ take m (map page_of ds)
        → Leaves
            (ok (record {
              grain = some cut;
              ino = g.ino;
              commit = (if c.known then g.commit else save_commit g.ino cut (tail_at first ps m));
            }))
            (map page_of ds)
    up_to_date em agree = record {
      g = record {
        grain = some cut;
        ino = g.ino;
        commit = (if c.known then g.commit else save_commit g.ino cut (tail_at first ps m));
      };
      file = cut;
      first = first;
      result = refl;
      covers = record {
        on_disk = refl;
        grain = cut-IsGrain;
        counted = counted;
        within = omega arith;
        known = found.0;
        located = found.1;
      };
    }
      where
        all_there : take m (map page_of ds) ≡ map page_of ds
        all_there = take_all m (map page_of ds) (omega (arith, em, same_count))

        cut-IsGrain : IsGrain cut first (map page_of ds) []
        cut-IsGrain =
            subst (λ t. IsGrain t first (map page_of ds) [])
              (sym (
                cut_agrees (omega (arith, em, same_count, length-map_page ds)) agree
                ∙ ap (λ qs. take first file ++ encode_pages qs) all_there))
              grown-IsGrain

        counts : m ≡ length (map page_of ds)
        counts = em ∙ same_count

        taken : take m ps ≡ take (length (map page_of ds)) (map page_of ds)
        taken = agree ∙ ap (λ (n : ℕ). take n (map page_of ds)) counts

        same_tail : tail_at first ps m ≡ tail_at first (map page_of ds) (length (map page_of ds))
        same_tail = λ i. record { count = counts i; end = first + length (encode_pages (taken i)) }

        by_known :
            (k : Bool)
            → c.known ≡ k
            → (b : Bool) × (locate g.ino
                  (if k then g.commit else save_commit g.ino cut (tail_at first ps m))
                  cut
                ≡ some (tail_at first (map page_of ds) (length (map page_of ds)), b))
        by_known true e =
            located_by g.ino cut first (map page_of ds) [] cut-IsGrain g.commit counted (λ t s l.
              located_known g.ino g.commit file (tail_at first ps m)
                (c.located ∙ ap (λ b. some (tail_at first ps m, b)) e) t s l
              ∙ same_tail)
        by_known false e = (
          true,
          ap (λ t. locate g.ino (save_commit g.ino cut t) cut) same_tail
              ∙ saved g.ino cut first (map page_of ds) [] cut-IsGrain (length (map page_of ds)),
        )

        found :
            (b : Bool) × (locate g.ino
                (if c.known then g.commit else save_commit g.ino cut (tail_at first ps m))
                cut
              ≡ some (tail_at first (map page_of ds) (length (map page_of ds)), b))
        found = by_known c.known refl

    -- The chunks from the `m`-th on get their pages.
    catches_up :
        m ≤ length rs
        → take m ps ≡ take m (map page_of ds)
        → Leaves
            (index_chunks z trunk (drop m rs) cut (first + length (encode_pages (take m ps)))
              >>= λ p. ok (committed g.ino (length rs) p))
            (map page_of ds)
    catches_up h agree =
        let (um, cm, rest) = Frames-drop z trunk m 0 lead u' c' rs ds f in
        rw
          (index_chunks-Frames z trunk um cm u' c' (drop m rs) (drop m ds) cut
            (first + length (encode_pages (take m ps))) rest ends)
          (record {
            g = committed g.ino (length rs) (
              cut ++ encode_pages (map page_of (drop m ds)),
              length (cut ++ encode_pages (map page_of (drop m ds))),
            );
            file = cut ++ encode_pages (map page_of (drop m ds));
            first = first;
            result = refl;
            covers =
                committed-Covers g.ino (cut ++ encode_pages (map page_of (drop m ds))) first
                  (map page_of ds) (length rs)
                  (length (cut ++ encode_pages (map page_of (drop m ds))))
                  (subst (λ t. IsGrain t first (map page_of ds) []) (sym all_pages) grown-IsGrain)
                  counted same_count
                  (ap length all_pages
                    ∙ omega (
                      arith,
                      length-append (take first file) (encode_pages (map page_of ds)),
                      length-take first file,
                      c.grain.inside,
                    ));
          })
      where
        cut_is : cut ≡ take first file ++ encode_pages (take m (map page_of ds))
        cut_is = cut_agrees (omega (arith, h, same_count, length-map_page ds)) agree

        ends : first + length (encode_pages (take m ps)) ≡ length cut
        ends =
            ap (λ qs. first + length (encode_pages qs)) agree
            ∙ omega (
              arith,
              ap length cut_is,
              length-append (take first file) (encode_pages (take m (map page_of ds))),
              length-take first file,
              c.grain.inside,
            )

        all_pages : cut ++ encode_pages (map page_of (drop m ds)) ≡ grown
        all_pages =
            ap (λ t. t ++ encode_pages (map page_of (drop m ds))) cut_is
            ∙ append_assoc (take first file) (encode_pages (take m (map page_of ds)))
                (encode_pages (map page_of (drop m ds)))
            ∙ ap (λ t. take first file ++ t)
                (ap (λ qs. encode_pages qs ++ encode_pages (map page_of (drop m ds)))
                    (take-map_page m ds)
                  ∙ sym (encode_pages-append (map page_of (take m ds)) (map page_of (drop m ds)))
                  ∙ ap encode_pages (
                      sym (map-append page_of (take m ds) (drop m ds))
                      ∙ ap (map page_of) (take-append-drop m ds)))

    -- Where the pages that the commit counts are those of the store's first chunks, the grain ends up
    -- with the page of every chunk: the new ones are added, or nothing is to be done, or the whole is
    -- built again. What stood behind the end that was counted is gone.
    pub extend_grain-Covers :
        (m ≤ length ds → take m ps ≡ take m (map page_of ds))
        → Leaves (extend_grain z rings trunk fresh g) (map page_of ds)
    unfolding extend_grain
    extend_grain-Covers agree =
        rw (c.on_disk, c.located, read_rest m)
          (elim (Bool-cases (ltb (length rs) m)) [
            | inl e ↦ rw e build_grain-Covers
            | inr e ↦
                let h = ltb→le (length rs) m e in
                let same = agree (omega (arith, h, same_count, length-map_page ds)) in
                elim (Bool-cases (m == length rs)) [
                  | inl q ↦ rw (e, q) (up_to_date ((==_iff m (length rs)).0 q) same)
                  | inr q ↦ rw (e, q) (catches_up h same)
                ]
          ])
