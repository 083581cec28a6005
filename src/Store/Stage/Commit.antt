-- ===== src/Store/Stage/Commit.antt =====
-- The records that `commit_stage` writes complete the index.
use timberfs.Prelude.{
  ℕ, ◌+◌, ◌≤◌, ◌≡◌, refl, ap, ◌∙◌, sym, List, [], ◌∷◌, ◌++◌, some, none, length, take, drop, arith,
  take-append_le, Bool-cases, inl, inr, length-append, length-take, append_assoc, append-nil,
  take-append-drop, map, concat, map-append, concat-append,
}
use timberfs.Bytes.File.{write_at_end}
use timberfs.Bytes.{write_at}
use timberfs.Format.{ChunkRecord, to_bytes}
use timberfs.Format.Record.{length-to_bytes}
use timberfs.Format.Index.{encode, length-encode}
use timberfs.Format.Chunk.{Zstd}
use timberfs.Store.{
  Config, StageBaseline, FileStore, flush_chunk, flush_seal, flush_frame, flush_index, flush_unseal,
  is_empty, rec_off,
}
use timberfs.Store.Stage.{write_records, commit_stage}

write_records-append :
    (i : ℕ) (rs : List ChunkRecord) (rings : List ℕ)
    → length rings ≡ rec_off i
    → write_records i rs rings ≡ rings ++ encode rs
unfolding write_records
write_records-append i [] rings h = sym (append-nil rings)
write_records-append i (r ∷ rs) rings h =
    ap (write_records (i + 1) rs) at_end
    ∙ write_records-append (i + 1) rs (rings ++ to_bytes r)
        (omega (arith, h, length-append rings (to_bytes r), length-to_bytes r))
    ∙ append_assoc rings (to_bytes r) (encode rs)
  where
    at_end : write_at rings (rec_off i) (to_bytes r) ≡ rings ++ to_bytes r
    at_end = rw (sym h) (write_at_end rings (to_bytes r))

encode-append : (rs qs : List ChunkRecord) → encode (rs ++ qs) ≡ encode rs ++ encode qs
encode-append rs qs =
    ap concat (map-append to_bytes rs qs) ∙ concat-append (map to_bytes rs) (map to_bytes qs)

-- A flush of a staged store adds to the chunks at most, and leaves the index alone.
held :
    (z : Zstd) (cfg : Config) (s : FileStore) (b : StageBaseline)
    → s.staged ≡ some b
    → ((flush_chunk z cfg s).staged ≡ some b)
      × ((flush_chunk z cfg s).rings ≡ s.rings)
      × (rest : List ChunkRecord) × ((flush_chunk z cfg s).chunks ≡ s.chunks ++ rest)
unfolding flush_chunk flush_seal flush_frame flush_index flush_unseal
held z cfg s b h = elim (Bool-cases (is_empty s.buffer)) [
  | inl e ↦ rw e (h, refl, [], sym (append-nil s.chunks))
  | inr e ↦ rw (e, h) (refl, refl, _ ∷ [], refl)
]

-- The held records complete the index.
written_all :
    (b : StageBaseline) (f : FileStore) (head : List ℕ)
    → length head ≡ 64
    → b.chunks ≤ length f.chunks
    → f.rings ≡ head ++ encode (take b.chunks f.chunks)
    → write_records b.chunks (drop b.chunks f.chunks) f.rings ≡ head ++ encode f.chunks
written_all b f head hl hc hr =
    write_records-append b.chunks (drop b.chunks f.chunks) f.rings (
      omega (
        arith,
        ap length hr,
        length-append head (encode (take b.chunks f.chunks)),
        length-encode (take b.chunks f.chunks),
        length-take b.chunks f.chunks,
        hl,
        hc,
      ))
    ∙ ap (λ t. t ++ encode (drop b.chunks f.chunks)) hr
    ∙ append_assoc head (encode (take b.chunks f.chunks)) (encode (drop b.chunks f.chunks))
    ∙ ap (λ t. head ++ t)
        (sym (encode-append (take b.chunks f.chunks) (drop b.chunks f.chunks))
          ∙ ap encode (take-append-drop b.chunks f.chunks))

-- A commit of a store that was staged when its index held exactly the records of its chunks, behind
-- a header of 64 bytes: afterwards the index holds exactly the records of all chunks, those of the
-- last flush included, and the store is no longer staged.
pub commit_stage-index :
    (z : Zstd) (cfg : Config) (s : FileStore) (b : StageBaseline) (head : List ℕ)
    → s.staged ≡ some b
    → length head ≡ 64
    → b.chunks ≤ length s.chunks
    → s.rings ≡ head ++ encode (take b.chunks s.chunks)
    → ((commit_stage z cfg s).rings ≡ head ++ encode (commit_stage z cfg s).chunks)
      × ((commit_stage z cfg s).chunks ≡ (flush_chunk z cfg s).chunks)
      × ((commit_stage z cfg s).staged ≡ none)
unfolding commit_stage
commit_stage-index z cfg s b head hs hl hc hr =
    let (staged, rings, rest, chunks) = held z cfg s b hs in
    rw staged (
      written_all b (flush_chunk z cfg s) head hl
          (omega (arith, ap length chunks, length-append s.chunks rest, hc))
          (rings
            ∙ hr
            ∙ ap (λ t. head ++ encode t)
                (sym (ap (take b.chunks) chunks ∙ take-append_le b.chunks s.chunks rest hc))),
      refl,
      refl,
    )
