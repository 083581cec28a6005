-- ===== src/Store/Receive/WireFrame.antt =====
-- A frame from elsewhere is one more chunk, or is refused without a trace in the tape.
use timberfs.Prelude.{
  ℕ, ◌+◌, ◌^◌, ◌≤◌, ◌<◌, ◌≡◌, refl, ap, ◌∙◌, sym, List, [], ◌∷◌, ◌++◌, Option, none, some, length,
  concat, max, arith, false, ok, append-nil, concat-snoc,
}
use native.Mathlib.Nat.{mod-eq_of_lt}
use timberfs.Bytes.{write_at}
use timberfs.Bytes.File.{length-write_at, write_at-before, slice-write_at}
use timberfs.Format.{ChunkRecord, add_u64}
use timberfs.Format.Chunk.{Zstd, RoundTrips}
use timberfs.Prelude.{get_last?, lt→ltb, le→ltb, ◌≢◌, ==_neq}
use timberfs.Store.{map_option, Config, FileStore, flush_chunk}
use timberfs.Store.Inv.{Inv, Frames-prefix, Frames-snoc, content}
use timberfs.Store.Flush.{
  CanFlush, flushed, flush_chunk-Inv, content-flush_chunk, buffer-flush_chunk,
}
use timberfs.Store.Receive.{
  ReceiveError, newer_data, wrong_number, append_wire_frame, write_frame, wire_record, wire_seq,
  last_write_ms, is_newer,
}

-- A frame that may follow in the store: it decodes to `d`, is of a size that a chunk may have, and
-- fits.
pub record Arrives (z : Zstd) (s : FileStore) (comp d : List ℕ) : Type 0 where
  pub decoded : z.decode comp ≡ some d
  pub nonempty : 0 < length d
  pub chunk_len : length d ≤ 2 ^ 32
  pub frame_len : length comp ≤ 2 ^ 32
  pub trunk_fits : s.comp_size + length comp < 2 ^ 64
  pub fits : s.buffer_start + length d < 2 ^ 64

-- What is wrong with a frame from `first_ms` on that claims the number `seq`, for a store without a
-- buffer, with these chunks and this next number: it starts before the last write of the last chunk;
-- or it does not, and claims another number.
abbrev pub Refuses : List ChunkRecord → ℕ → ℕ → Option ℕ → ReceiveError → Type 0
Refuses cs next_seq first_ms seq newer_data =
    (last : ChunkRecord) × (get_last? cs ≡ some last) × (first_ms < last.last_write_ms)
Refuses cs next_seq first_ms seq (wrong_number n) =
    (seq ≡ some n)
    × (n ≢ next_seq)
    × ((last : ChunkRecord) → get_last? cs ≡ some last → last.last_write_ms ≤ first_ms)

last_write_ms-last :
    (f : FileStore) (last : ChunkRecord)
    → f.buffer ≡ []
    → get_last? f.chunks ≡ some last
    → last_write_ms f ≡ some last.last_write_ms
unfolding last_write_ms
last_write_ms-last f last empty e = rw (empty, e) refl

not_newer :
    (f : FileStore) (first_ms : ℕ)
    → f.buffer ≡ []
    → ((last : ChunkRecord) → get_last? f.chunks ≡ some last → last.last_write_ms ≤ first_ms)
    → is_newer (last_write_ms f) first_ms ≡ false
unfolding last_write_ms
not_newer f first_ms empty h = rw empty (go (get_last? f.chunks) h)
  where
    go :
        (o : Option ChunkRecord)
        → ((last : ChunkRecord) → o ≡ some last → last.last_write_ms ≤ first_ms)
        → is_newer (map_option (λ (c : ChunkRecord). c.last_write_ms) o) first_ms ≡ false
    go none k = refl
    go (some last) k = le→ltb first_ms last.last_write_ms (k last refl)

write_frame-Inv :
    (z : Zstd) (lead : ℕ) (s : FileStore) (ds : List (List ℕ)) (comp d : List ℕ)
    (first_ms last_ms seq : ℕ)
    → s.buffer ≡ []
    → Arrives z s comp d
    → Inv z lead s ds
    → Inv z lead
        (write_frame comp (wire_record s (length comp) (length d) first_ms last_ms seq) s)
        (ds ++ (d ∷ []))
unfolding write_frame
write_frame-Inv z lead s ds comp d first_ms last_ms seq e a v = record {
  frames =
      rw (mod-eq_of_lt a.fits, mod-eq_of_lt a.trunk_fits)
        (Frames-snoc z (write_at s.trunk s.comp_size comp) 0 lead s.buffer_start s.comp_size
          s.chunks ds rec d
          (Frames-prefix z s.trunk (write_at s.trunk s.comp_size comp) 0 lead s.buffer_start
            s.comp_size s.comp_size s.chunks ds (write_at-before s.trunk comp s.comp_size v.inside)
            (omega (arith, grown, v.inside)) (omega arith) v.frames)
          (record {
            uncomp_start = refl;
            uncomp_len = refl;
            comp_start = refl;
            inside = omega (arith, grown);
            frame_len = a.frame_len;
            chunk_len = a.chunk_len;
            nonempty = a.nonempty;
            fits = a.fits;
            decoded = rw (slice-write_at s.trunk comp s.comp_size v.inside) a.decoded;
          }));
  inside = omega (arith, grown, v.inside, a.trunk_fits);
  trunk_fits = omega (arith, grown, v.trunk_fits, a.trunk_fits);
  fits = omega (arith, a.fits, ap length e);
  cached = λ i d e. cc;
}
  where
    rec : ChunkRecord
    rec = wire_record s (length comp) (length d) first_ms last_ms seq

    grown :
        length (write_at s.trunk s.comp_size comp)
        ≡ max (length s.trunk) (s.comp_size + length comp)
    grown = length-write_at s.trunk comp s.comp_size v.inside

module _ (z : Zstd) (laws : RoundTrips z) (cfg : Config) (lead : ℕ) (s : FileStore)
    (ds : List (List ℕ)) (comp : List ℕ) (first_ms last_ms : ℕ) (seq : Option ℕ) where
  -- A frame that may follow, is not older than the store's data and claims no number or the next one
  -- is taken: the store stays well formed, the tape is what it was, buffer included, and then the
  -- content of the frame, and the numbering moves by one.
  pub append_wire_frame-Inv :
      (d : List ℕ)
      → CanFlush z laws cfg s
      → Inv z lead s ds
      → Arrives z (flush_chunk z cfg s) comp d
      → is_newer (last_write_ms (flush_chunk z cfg s)) first_ms ≡ false
      → wire_seq seq (flush_chunk z cfg s).next_seq ≡ ok (flush_chunk z cfg s).next_seq
      → (t : FileStore) × (append_wire_frame z cfg comp (length d) first_ms last_ms seq s
          ≡ (none, t))
        × Inv z lead t (flushed ds s.buffer ++ (d ∷ []))
        × (content (flushed ds s.buffer ++ (d ∷ [])) t ≡ content ds s ++ d)
        × (t.next_seq ≡ add_u64 (flush_chunk z cfg s).next_seq 1)
  unfolding append_wire_frame write_frame
  append_wire_frame-Inv d c v a fresh dense = (
    write_frame comp (wire_record f (length comp) (length d) first_ms last_ms f.next_seq) f,
    rw (fresh, dense),
    write_frame-Inv z lead f (flushed ds s.buffer) comp d first_ms last_ms f.next_seq empty a
        (flush_chunk-Inv z laws cfg lead s ds c v),
    ap (λ b. concat (flushed ds s.buffer ++ (d ∷ [])) ++ b) empty
        ∙ append-nil (concat (flushed ds s.buffer ++ (d ∷ [])))
        ∙ concat-snoc (flushed ds s.buffer) d
        ∙ ap (λ t. t ++ d)
            (sym (append-nil (concat (flushed ds s.buffer)))
              ∙ ap (λ b. concat (flushed ds s.buffer) ++ b) (sym empty)
              ∙ content-flush_chunk z laws cfg s ds),
    refl,
  )
    where
      f : FileStore
      f = flush_chunk z cfg s

      empty : f.buffer ≡ []
      empty = buffer-flush_chunk z laws cfg s

  -- In a well-formed store that can flush, a frame is refused, with the reason, where it is older
  -- than the last chunk of the flushed store, or where it claims a number other than the next one.
  -- The store is left as the flush left it: well formed, with the tape that it had.
  pub append_wire_frame-refused :
      (uncomp_len : ℕ) (e : ReceiveError)
      → CanFlush z laws cfg s
      → Inv z lead s ds
      → Refuses (flush_chunk z cfg s).chunks (flush_chunk z cfg s).next_seq first_ms seq e
      → (append_wire_frame z cfg comp uncomp_len first_ms last_ms seq s
          ≡ (some e, flush_chunk z cfg s))
        × Inv z lead (flush_chunk z cfg s) (flushed ds s.buffer)
        × (content (flushed ds s.buffer) (flush_chunk z cfg s) ≡ content ds s)
  append_wire_frame-refused uncomp_len e c v r =
      (refused e r, flush_chunk-Inv z laws cfg lead s ds c v, content-flush_chunk z laws cfg s ds)
    where
      f : FileStore
      f = flush_chunk z cfg s

      refused :
          (e : ReceiveError)
          → Refuses f.chunks f.next_seq first_ms seq e
          → append_wire_frame z cfg comp uncomp_len first_ms last_ms seq s ≡ (some e, f)
      refused newer_data (last, at_end, older) =
          unfold append_wire_frame in
          rw
            (
              last_write_ms-last f last (buffer-flush_chunk z laws cfg s) at_end,
              lt→ltb first_ms last.last_write_ms older,
            )
            refl
      refused (wrong_number n) (claimed, other, fresh) =
          unfold append_wire_frame in
          rw
            (
              not_newer f first_ms (buffer-flush_chunk z laws cfg s) fresh,
              claimed,
              ==_neq n f.next_seq other,
            )
            refl
