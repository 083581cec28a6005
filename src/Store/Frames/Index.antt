-- ===== src/Store/Frames/Index.antt =====
-- The records that `append_frames` adds: the index on disk follows the chunks in memory, and the
-- numbering continues without a gap.
use timberfs.Prelude.{
  ℕ, zero, suc, ◌+◌, ◌%◌, ◌^◌, ◌<◌, ◌≡◌, ap, ◌∙◌, sym, List, [], ◌∷◌, ◌++◌, length, map, concat,
  arith, append_assoc, append-nil, length-append, map-append, concat-snoc,
}
use timberfs.Bytes.{write_at}
use timberfs.Bytes.File.{write_at_end}
use timberfs.Format.{ChunkRecord, to_bytes}
use timberfs.Format.Index.{encode, length-encode}
use timberfs.Store.{FileStore, rec_off}
use timberfs.Store.Frames.{push_records, moved}

abbrev pub seq_of : ChunkRecord → ℕ
seq_of c = c.seq

-- `n` numbers from `from` on.
abbrev pub numbers : ℕ → ℕ → List ℕ
numbers from zero = []
numbers from (suc n) = from ∷ numbers (from + 1) n

encode-snoc :
    (rs : List ChunkRecord) (r : ChunkRecord) → encode (rs ++ (r ∷ [])) ≡ encode rs ++ to_bytes r
encode-snoc rs r =
    ap concat (map-append to_bytes rs (r ∷ [])) ∙ concat-snoc (map to_bytes rs) (to_bytes r)

-- Where the index holds exactly the records of the chunks behind a 64-byte header, it still does once
-- the incoming records are in; they take the next numbers in order, whatever numbers they came with,
-- and the next number follows them.
pub push_records-index :
    (ub su cb sc : ℕ) (cs : List ChunkRecord) (s : FileStore) (head : List ℕ)
    → length head ≡ 64
    → s.next_seq + length cs < 2 ^ 64
    → s.rings ≡ head ++ encode s.chunks
    → ((push_records ub su cb sc cs s).rings
        ≡ head ++ encode (push_records ub su cb sc cs s).chunks)
      × (map seq_of (push_records ub su cb sc cs s).chunks
          ≡ map seq_of s.chunks ++ numbers s.next_seq (length cs))
      × ((push_records ub su cb sc cs s).next_seq ≡ s.next_seq + length cs)
unfolding push_records
push_records-index ub su cb sc [] s head hl small hr =
    (hr, sym (append-nil (map seq_of s.chunks)), omega arith)
push_records-index ub su cb sc (c ∷ cs) s head hl small hr =
    let (index, seqs, next) =
      push_records-index ub su cb sc cs pushed head hl (omega (arith, following, small)) written in
    (
      index,
      seqs
          ∙ ap (λ (n : ℕ). map seq_of pushed.chunks ++ numbers n (length cs)) following
          ∙ ap (λ t. t ++ numbers (s.next_seq + 1) (length cs))
              (map-append seq_of s.chunks (rec ∷ []))
          ∙ append_assoc (map seq_of s.chunks) (s.next_seq ∷ [])
              (numbers (s.next_seq + 1) (length cs)),
      omega (arith, next, following),
    )
  where
    rec : ChunkRecord
    rec = moved ub su cb sc s.next_seq c

    pushed : FileStore
    pushed = record s {
      next_seq = (s.next_seq + 1) % 2 ^ 64;
      rings = write_at s.rings (rec_off (length s.chunks)) (to_bytes rec);
      chunks = s.chunks ++ (rec ∷ []);
    }

    following : (s.next_seq + 1) % 2 ^ 64 ≡ s.next_seq + 1
    following = omega (arith, small)

    at : rec_off (length s.chunks) ≡ length s.rings
    at =
        omega
          (arith, ap length hr, length-append head (encode s.chunks), length-encode s.chunks, hl)

    written :
        write_at s.rings (rec_off (length s.chunks)) (to_bytes rec)
        ≡ head ++ encode (s.chunks ++ (rec ∷ []))
    written =
        ap (λ (k : ℕ). write_at s.rings k (to_bytes rec)) at
        ∙ write_at_end s.rings (to_bytes rec)
        ∙ ap (λ t. t ++ to_bytes rec) hr
        ∙ append_assoc head (encode s.chunks) (to_bytes rec)
        ∙ ap (λ t. head ++ t) (sym (encode-snoc s.chunks rec))
