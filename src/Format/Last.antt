-- ===== src/Format/Last.antt =====
-- `read_index_tail` and `read_index_last` of src/format.rs.
use timberfs.Prelude.{
  ℕ, suc, ◌-◌, ◌≡◌, refl, ap, ◌∙◌, List, [], ◌∷◌, Option, length, drop, get_last?, arith, Result,
  ok, err, map_ok, ◌>>=◌,
}
use timberfs.Format.{ChunkRecord, RingsVersion, Error, parse_index_versioned, index_from}
use timberfs.Format.Tail.{from_parsed, index_from-parse}

unfoldable pub read_index_tail : List ℕ → ℕ → Result Error (ℕ × List ChunkRecord)
unfolding index_from
read_index_tail file from = index_from file (λ n. from)

-- `tail.pop()`, and the count
abbrev pub count_and_last : ℕ × List ChunkRecord → ℕ × Option ChunkRecord
count_and_last p = (p.0, get_last? p.1)

unfoldable pub read_index_last : List ℕ → Result Error (ℕ × Option ChunkRecord)
unfolding index_from
read_index_last file = index_from file (λ n. n - 1) >>= λ p. ok (count_and_last p)

last_of_one : (rs : List ChunkRecord) → get_last? (drop (length rs - 1) rs) ≡ get_last? rs
last_of_one [] = refl
last_of_one (r ∷ []) = refl
last_of_one (r ∷ q ∷ rs) =
    let e : length (r ∷ q ∷ rs) - 1 ≡ suc (length (q ∷ rs) - 1) = omega arith in
    ap (λ (n : ℕ). get_last? (drop n (r ∷ q ∷ rs))) e ∙ last_of_one (q ∷ rs)

-- Reading only the last record gives, on every file, the count and the last record that reading the
-- whole index gives, or the same error.
pub read_index_last-parse :
    (file : List ℕ)
    → read_index_last file ≡ map_ok (λ p. (length p.0, get_last? p.0)) (parse_index_versioned file)
unfolding read_index_last
read_index_last-parse file =
    rw (index_from-parse file (λ n. n - 1)) (go (parse_index_versioned file))
  where
    go :
        (r : Result Error (List ChunkRecord × RingsVersion))
        → (map_ok (from_parsed (λ n. n - 1)) r >>= λ p. ok (count_and_last p))
          ≡ map_ok (λ p. (length p.0, get_last? p.0)) r
    go (err e) = refl
    go (ok (rs, v)) = ap (λ o. ok (length rs, o)) (last_of_one rs)
