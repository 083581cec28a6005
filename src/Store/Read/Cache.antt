-- ===== src/Store/Read/Cache.antt =====
-- `chunk_data`: what the cache holds, and what it loads.
use timberfs.Prelude.{ℕ, ◌≡◌, refl, ap, List, Option, none, some, get_elem?, arith}
use timberfs.Prelude.{true, Bool-cases, inl, inr}
use timberfs.Format.{ChunkRecord}
use timberfs.Format.Chunk.{Zstd}
use timberfs.Prelude.{Result, ok, ◌==◌, ==_iff}
use timberfs.Format.Chunk.{load_chunk}
use timberfs.Store.Read.{ReadError, load, cached_or, chunk_data}
use timberfs.Store.{FileStore}

abbrev pub CacheHolds : List (List ℕ) → Option (ℕ × List ℕ) → Type 0
CacheHolds ds k = (i : ℕ) (d : List ℕ) → k ≡ some (i, d) → get_elem? ds i ≡ some d

-- What a read leaves of the store: everything but the cache, which still tells the truth.
abbrev pub Reads :
    {A : Type 0} → Result ReadError A × FileStore → A → FileStore → List (List ℕ) → Type 0
Reads m a s ds = (k : Option (ℕ × List ℕ)) × (m ≡ (ok a, record s { cache = k })) × CacheHolds ds k

module _ (z : Zstd) (idx : ℕ) (c : ChunkRecord) (s : FileStore) (ds : List (List ℕ))
    (bytes : List ℕ) where
  module _ (loads : load_chunk z s.trunk c ≡ ok bytes) (holds : get_elem? ds idx ≡ some bytes) where
    load-Reads : Reads (load z idx c s) bytes s ds
    unfolding load
    load-Reads = (some (idx, bytes), rw (loads), λ i d e. ground (arith, e, holds))

    same : (i : ℕ) (d : List ℕ) → CacheHolds ds (some (i, d)) → (i == idx) ≡ true → d ≡ bytes
    same i d h hit = cc (h i d refl, (==_iff i idx).0 hit, holds)

    cached_or-Reads :
        (o : Option (ℕ × List ℕ))
        → s.cache ≡ o
        → CacheHolds ds o
        → Reads (cached_or z idx c s o) bytes s ds
    cached_or-Reads none e h = load-Reads
    cached_or-Reads (some (i, d)) e h = elim (Bool-cases (i == idx)) [
      | inl hit ↦ (s.cache, rw hit (ap (λ b. (ok b, s)) (same i d h hit)), rw e h)
      | inr miss ↦ rw miss load-Reads
    ]

    pub chunk_data-Reads : CacheHolds ds s.cache → Reads (chunk_data z idx c s) bytes s ds
    unfolding chunk_data
    chunk_data-Reads h = cached_or-Reads s.cache refl h
