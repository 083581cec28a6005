-- ===== src/Grain/Update/Chunks.antt =====
-- The chunks of a store from one on, and their number, for the updates of src/grain.rs.
use timberfs.Prelude.{
  ℕ, zero, suc, ◌+◌, ◌^◌, ◌<◌, ◌≡◌, refl, ap, List, [], ◌∷◌, map, length, take, drop, arith,
}
use timberfs.Format.{ChunkRecord}
use timberfs.Format.Chunk.{Zstd}
use timberfs.Store.Inv.{Frames}
use timberfs.Grain.Update.Build.{page_of}

module _ (z : Zstd) (trunk : List ℕ) where
  pub Frames-drop :
      (m u c u' c' : ℕ) (rs : List ChunkRecord) (ds : List (List ℕ))
      → Frames z trunk u c u' c' rs ds
      → (um : ℕ) × (cm : ℕ) × Frames z trunk um cm u' c' (drop m rs) (drop m ds)
  Frames-drop zero u c u' c' rs ds f = (u, c, f)
  Frames-drop (suc m) u c u' c' [] [] f = (u, c, f)
  Frames-drop (suc m) u c u' c' [] (d ∷ ds) f = absurd f
  Frames-drop (suc m) u c u' c' (r ∷ rs) [] f = absurd f
  Frames-drop (suc m) u c u' c' (r ∷ rs) (d ∷ ds) (f, fs) =
      Frames-drop m (u + length d) (c + r.comp_len) u' c' rs ds fs

  pub Frames-length :
      (u c u' c' : ℕ) (rs : List ChunkRecord) (ds : List (List ℕ))
      → Frames z trunk u c u' c' rs ds
      → length rs ≡ length ds
  Frames-length u c u' c' [] [] f = refl
  Frames-length u c u' c' [] (d ∷ ds) f = absurd f
  Frames-length u c u' c' (r ∷ rs) [] f = absurd f
  Frames-length u c u' c' (r ∷ rs) (d ∷ ds) (f, fs) =
      ap suc (Frames-length (u + length d) (c + r.comp_len) u' c' rs ds fs)

  pub Frames-counted :
      (u c u' c' : ℕ) (rs : List ChunkRecord) (ds : List (List ℕ))
      → u < 2 ^ 64
      → Frames z trunk u c u' c' rs ds
      → u + length ds < 2 ^ 64
  Frames-counted u c u' c' [] [] h f = omega (arith, h)
  Frames-counted u c u' c' [] (d ∷ ds) h f = absurd f
  Frames-counted u c u' c' (r ∷ rs) [] h f = absurd f
  Frames-counted u c u' c' (r ∷ rs) (d ∷ ds) h (f, fs) =
      omega
        (arith, f.nonempty, Frames-counted (u + length d) (c + r.comp_len) u' c' rs ds f.fits fs)

pub length-map_page : (ds : List (List ℕ)) → length (map page_of ds) ≡ length ds
length-map_page [] = refl
length-map_page (d ∷ ds) = ap suc (length-map_page ds)

pub take-map_page : (m : ℕ) (ds : List (List ℕ)) → take m (map page_of ds) ≡ map page_of (take m ds)
take-map_page zero ds = refl
take-map_page (suc m) [] = refl
take-map_page (suc m) (d ∷ ds) = ap (λ ps. page_of d ∷ ps) (take-map_page m ds)
