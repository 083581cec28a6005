-- ===== src/Grain/Update/Build.antt =====
-- `build_grain` and `extend_grain` of src/grain.rs: the pages of the chunks, in the order of the index.
use timberfs.Prelude.{
  ℕ, ◌+◌, ◌*◌, ◌/◌, ◌%◌, ◌^◌, ◌≤◌, ◌<◌, ◌≡◌, refl, ap, ◌∙◌, sym, inl, List, [], ◌∷◌, ◌++◌, map,
  some, length, All, arith, le→ltb, append_assoc, append-nil, length-append, drop-append_eq,
  take_all, ok,
}
use timberfs.Bytes.{slice, to_le}
use timberfs.Bytes.File.{write_at_end}
use timberfs.Format.{ChunkRecord, RingsVersion, parse_index_versioned}
use timberfs.Format.Chunk.{Zstd, read_frame, decode_frame, saturating_add, max_chunk_bytes, IsFrame}
use timberfs.Store.Inv.{Frames}
use timberfs.Grain.Tokens.{tokenize}
use timberfs.Grain.Tokens.Count.{length-tokenize}
use timberfs.Grain.Bloom.{build_filter, filter_bits}
use timberfs.Grain.Bloom.Member.{length-build_filter}
use timberfs.Grain.{header_len, header_bytes, load}
use timberfs.Grain.Header.{length-header_bytes, first_record_offset-header_bytes}
use timberfs.Grain.Pages.{
  page_record, encode_pages, IsPage, IsGrain, length-page_record, load-IsGrain,
}
use timberfs.Grain.Update.{write_page, index_chunks, build_grain, committed}

-- The page of a chunk with this content.
abbrev pub page_of : List ℕ → List ℕ
page_of d = build_filter (tokenize d)

filter_bits-small : (ts : List (List ℕ)) → 3 * length ts ≤ 2 ^ 32 → filter_bits ts / 8 < 2 ^ 32
unfolding filter_bits
filter_bits-small ts h = omega (arith, h)

-- The length of a page fits its four bytes, for every content that a chunk can have.
pub page_of-IsPage : (d : List ℕ) → length d ≤ max_chunk_bytes → IsPage (page_of d)
page_of-IsPage d h = omega (
  arith,
  length-build_filter (tokenize d),
  filter_bits-small (tokenize d) (omega (arith, length-tokenize d, h)),
)

pub write_page-end :
    (file p : List ℕ) → IsPage p → write_page file (length file) p ≡ file ++ page_record p
unfolding write_page to_le
write_page-end file p h =
    rw
      (
        same,
        write_at_end file (to_le 4 (length p)),
        behind,
        write_at_end (file ++ to_le 4 (length p)) p,
      )
      (append_assoc file (to_le 4 (length p)) p)
  where
    same : length p % 2 ^ 32 ≡ length p
    same = omega (arith, h)

    behind : length file + 4 ≡ length (file ++ to_le 4 (length p))
    behind = omega (arith, length-append file (to_le 4 (length p)))

read_frame-IsFrame :
    (z : Zstd) (trunk : List ℕ) (u c : ℕ) (r : ChunkRecord) (d : List ℕ)
    → IsFrame z trunk u c r d
    → read_frame trunk r ≡ ok (slice c r.comp_len trunk)
unfolding read_frame
read_frame-IsFrame z trunk u c r d f = rw (
  le→ltb max_chunk_bytes r.comp_len f.frame_len,
  le→ltb (length trunk) (saturating_add r.comp_start r.comp_len)
      (omega (arith, f.inside, f.comp_start)),
  f.comp_start,
)

decode_frame-IsFrame :
    (z : Zstd) (trunk : List ℕ) (u c : ℕ) (r : ChunkRecord) (d : List ℕ)
    → IsFrame z trunk u c r d
    → decode_frame z (slice c r.comp_len trunk) r.uncomp_len ≡ ok d
unfolding decode_frame
decode_frame-IsFrame z trunk u c r d f = rw (
  f.uncomp_len,
  le→ltb max_chunk_bytes (length d) f.chunk_len,
  f.decoded,
  take_all (length d + 1) d (omega arith),
  le→ltb (length d) (length d) (omega arith),
)

module _ (z : Zstd) (trunk : List ℕ) where
  pub pages-IsPage :
      (u c u' c' : ℕ) (rs : List ChunkRecord) (ds : List (List ℕ))
      → Frames z trunk u c u' c' rs ds
      → All IsPage (map page_of ds)
  pages-IsPage u c u' c' [] [] f = tt
  pages-IsPage u c u' c' [] (d ∷ ds) f = absurd f
  pages-IsPage u c u' c' (r ∷ rs) [] f = absurd f
  pages-IsPage u c u' c' (r ∷ rs) (d ∷ ds) (f, fs) =
      (page_of-IsPage d f.chunk_len, pages-IsPage (u + length d) (c + r.comp_len) u' c' rs ds fs)

  -- The loop puts the pages of the chunks behind what the file holds.
  pub index_chunks-Frames :
      (u c u' c' : ℕ) (rs : List ChunkRecord) (ds : List (List ℕ)) (file : List ℕ) (off : ℕ)
      → Frames z trunk u c u' c' rs ds
      → off ≡ length file
      → index_chunks z trunk rs file off
        ≡ ok (file ++ encode_pages (map page_of ds), length (file ++ encode_pages (map page_of ds)))
  unfolding index_chunks
  index_chunks-Frames u c u' c' [] [] file off f e = rw (append-nil file, e) refl
  index_chunks-Frames u c u' c' [] (d ∷ ds) file off f e = absurd f
  index_chunks-Frames u c u' c' (r ∷ rs) [] file off f e = absurd f
  index_chunks-Frames u c u' c' (r ∷ rs) (d ∷ ds) file off (f, fs) e =
      rw
        (
          e,
          read_frame-IsFrame z trunk u c r d f,
          decode_frame-IsFrame z trunk u c r d f,
          write_page-end file (page_of d) (page_of-IsPage d f.chunk_len),
          index_chunks-Frames (u + length d) (c + r.comp_len) u' c' rs ds
              (file ++ page_record (page_of d)) (length file + 4 + length (page_of d)) fs longer,
        )
        (ap (λ t. ok (t, length t))
          (append_assoc file (page_record (page_of d)) (encode_pages (map page_of ds))))
    where
      longer : length file + 4 + length (page_of d) ≡ length (file ++ page_record (page_of d))
      longer =
          omega
            (arith, length-append file (page_record (page_of d)), length-page_record (page_of d))

-- What a build leaves in the grain of a store with these contents.
abbrev pub built : List (List ℕ) → List ℕ
built ds = header_bytes header_len ++ encode_pages (map page_of ds)

pub built-IsGrain :
    (ds : List (List ℕ))
    → All IsPage (map page_of ds)
    → IsGrain (built ds) header_len (map page_of ds) []
built-IsGrain ds h = record {
  offset =
      first_record_offset-header_bytes header_len (encode_pages (map page_of ds)) (omega arith)
        (omega arith) (omega arith);
  inside = omega (
    arith,
    length-append (header_bytes header_len) (encode_pages (map page_of ds)),
    length-header_bytes header_len,
  );
  behind =
      drop-append_eq header_len (header_bytes header_len) (encode_pages (map page_of ds))
        (sym (length-header_bytes header_len))
      ∙ sym (append-nil (encode_pages (map page_of ds)));
  pages = h;
  cut_short = inl (omega arith);
}

module _ (z : Zstd) (trunk rings : List ℕ) (fresh lead u' c' : ℕ) (v : RingsVersion)
    (rs : List ChunkRecord) (ds : List (List ℕ)) (parsed : parse_index_versioned rings ≡ ok (rs, v))
    (f : Frames z trunk 0 lead u' c' rs ds) where
  -- A build reads every chunk of the store, and writes their pages behind a header, all that there is.
  pub build_grain-Frames :
      build_grain z rings trunk fresh
      ≡ ok (committed fresh (length rs) (built ds, length (built ds)))
  unfolding build_grain
  build_grain-Frames =
      rw
        (
          parsed,
          index_chunks-Frames z trunk 0 lead u' c' rs ds (header_bytes header_len) header_len f
              (sym (length-header_bytes header_len)),
        )
        refl

  pub load-build_grain : load (built ds) ≡ some (map page_of ds)
  load-build_grain =
      load-IsGrain (built ds) header_len (map page_of ds) []
        (built-IsGrain ds (pages-IsPage z trunk 0 lead u' c' rs ds f)) (omega arith)
