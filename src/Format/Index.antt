-- ===== src/Format/Index.antt =====
-- The records of an index: what stands behind any header reads back, record by record.
use timberfs.Prelude.{
  ℕ, ◌+◌, ◌*◌, ◌≡◌, refl, ap, ◌∙◌, List, [], ◌∷◌, ◌++◌, map, concat, length, All, arith, take,
}
use timberfs.Prelude.{append_assoc, length-append, take-append_eq, drop-append_eq, sym}
use timberfs.Bytes.{slice}
use timberfs.Format.{ChunkRecord, to_bytes, from_bytes, record_len, records_loop, v2}
use timberfs.Format.Record.{IsRecord, from_bytes-to_bytes, length-to_bytes}

-- The bytes of the records, in order.
abbrev pub encode : List ChunkRecord → List ℕ
encode rs = concat (map to_bytes rs)

pub length-encode : (rs : List ChunkRecord) → length (encode rs) ≡ record_len * length rs
length-encode [] = refl
length-encode (r ∷ rs) =
    omega (arith, length-append (to_bytes r) (encode rs), length-to_bytes r, length-encode rs)

slice-record :
    (pre rest : List ℕ) (r : ChunkRecord) (off : ℕ)
    → off ≡ length pre
    → slice off record_len (pre ++ (to_bytes r ++ rest)) ≡ to_bytes r
slice-record pre rest r off h =
    ap (λ t. take record_len t) (drop-append_eq off pre (to_bytes r ++ rest) h)
    ∙ take-append_eq record_len (to_bytes r) rest (sym (length-to_bytes r))

-- Reading as many records as were written, from where they start, whatever stands around them.
pub records_loop-encode :
    (rs : List ChunkRecord) (i off : ℕ) (pre rest : List ℕ)
    → All IsRecord rs
    → off ≡ length pre
    → records_loop v2 record_len (length rs) i off (pre ++ (encode rs ++ rest)) ≡ rs
unfolding records_loop
records_loop-encode [] i off pre rest h e = refl
records_loop-encode (r ∷ rs) i off pre rest (hr, h) e =
    let later =
      records_loop-encode rs (i + 1) (off + record_len) (pre ++ to_bytes r) rest h
        (omega (arith, length-append pre (to_bytes r), length-to_bytes r, e)) in
    rw (append_assoc (to_bytes r) (encode rs) rest) (λ k. first k ∷ others later k)
  where
    first : from_bytes (slice off record_len (pre ++ (to_bytes r ++ (encode rs ++ rest)))) ≡ r
    first = ap from_bytes (slice-record pre (encode rs ++ rest) r off e) ∙ from_bytes-to_bytes r hr

    others :
        records_loop v2 record_len
            (length rs)
            (i + 1)
            (off + record_len)
            ((pre ++ to_bytes r) ++ (encode rs ++ rest))
          ≡ rs
        → records_loop v2 record_len
            (length rs)
            (i + 1)
            (off + record_len)
            (pre ++ (to_bytes r ++ (encode rs ++ rest)))
          ≡ rs
    others ih = rw (← append_assoc pre (to_bytes r) (encode rs ++ rest)) ih
