-- ===== src/Store/Open/Replay.antt =====
-- Replaying entries into an opened store: their payloads enter the buffer, and nothing else changes
-- but its write window.
use timberfs.Prelude.{
  ℕ, ◌+◌, ◌^◌, ◌<◌, ◌≡◌, refl, ap, ◌∙◌, sym, List, [], ◌∷◌, ◌++◌, map, concat, length, append-nil,
  append_assoc, Bool-cases, inl, inr, true,
}
use timberfs.Sap.{SapEntry}
use timberfs.Format.Chunk.{Zstd, RoundTrips}
use timberfs.Store.{Config, FileStore, is_empty, flush_frame, flush_index}
use timberfs.Store.Inv.{Inv, Inv-same}
use timberfs.Store.Flush.{CanFlush, written}
use timberfs.Store.Open.{apply_entry, apply_entries, complete_flush}

abbrev pub payload_of : SapEntry → List ℕ
payload_of e = e.payload

-- What the entries hold.
abbrev pub payloads : List SapEntry → List ℕ
payloads es = concat (map payload_of es)

pub record Applied (es : List SapEntry) (s t : FileStore) : Type 0 where
  pub buffer : t.buffer ≡ s.buffer ++ payloads es
  pub trunk : t.trunk ≡ s.trunk
  pub rings : t.rings ≡ s.rings
  pub staged : t.staged ≡ s.staged
  pub chunks : t.chunks ≡ s.chunks
  pub comp_size : t.comp_size ≡ s.comp_size
  pub buffer_start : t.buffer_start ≡ s.buffer_start
  pub cache : t.cache ≡ s.cache

apply_entry-Applied : (e : SapEntry) (s : FileStore) → Applied (e ∷ []) s (apply_entry e s)
apply_entry-Applied e s = elim (Bool-cases (is_empty s.buffer)) [
  | inl b ↦ rw b (record {
    buffer = ap (λ t. s.buffer ++ t) (sym (append-nil e.payload));
    trunk = refl;
    rings = refl;
    staged = refl;
    chunks = refl;
    comp_size = refl;
    buffer_start = refl;
    cache = refl;
  })
  | inr b ↦ rw b (record {
    buffer = ap (λ t. s.buffer ++ t) (sym (append-nil e.payload));
    trunk = refl;
    rings = refl;
    staged = refl;
    chunks = refl;
    comp_size = refl;
    buffer_start = refl;
    cache = refl;
  })
]

pub apply_entries-Applied : (es : List SapEntry) (s : FileStore) → Applied es s (apply_entries es s)
unfolding apply_entries
apply_entries-Applied [] s = record {
  buffer = sym (append-nil s.buffer);
  trunk = refl;
  rings = refl;
  staged = refl;
  chunks = refl;
  comp_size = refl;
  buffer_start = refl;
  cache = refl;
}
apply_entries-Applied (e ∷ es) s =
    let one = apply_entry-Applied e s in
    let rest = apply_entries-Applied es (apply_entry e s) in
    record {
      buffer =
          rest.buffer
          ∙ ap (λ t. t ++ payloads es) (one.buffer ∙ ap (λ t. s.buffer ++ t) (append-nil e.payload))
          ∙ append_assoc s.buffer e.payload (payloads es);
      trunk = rest.trunk ∙ one.trunk;
      rings = rest.rings ∙ one.rings;
      staged = rest.staged ∙ one.staged;
      chunks = rest.chunks ∙ one.chunks;
      comp_size = rest.comp_size ∙ one.comp_size;
      buffer_start = rest.buffer_start ∙ one.buffer_start;
      cache = rest.cache ∙ one.cache;
    }

-- Applied to a store with an empty buffer, the entries are its buffer, and the chunks stay.
pub apply_entries-Inv :
    (z : Zstd) (lead : ℕ) (es : List SapEntry) (s : FileStore) (ds : List (List ℕ))
    → s.buffer ≡ []
    → s.buffer_start + length (payloads es) < 2 ^ 64
    → Inv z lead s ds
    → Inv z lead (apply_entries es s) ds × ((apply_entries es s).buffer ≡ payloads es)
apply_entries-Inv z lead es s ds e fits v = (
  record {
    frames = rw (a.trunk, a.chunks, a.comp_size, a.buffer_start) v.frames;
    inside = rw (a.trunk, a.comp_size) v.inside;
    trunk_fits = rw (a.trunk) v.trunk_fits;
    fits = rw (a.buffer_start, buffer) fits;
    cached = rw (a.cache) v.cached;
  },
  buffer,
)
  where
    a : Applied es s (apply_entries es s)
    a = apply_entries-Applied es s

    buffer : (apply_entries es s).buffer ≡ payloads es
    buffer = a.buffer ∙ ap (λ t. t ++ payloads es) e

-- Completing the interrupted flush makes one chunk of the replayed buffer.
pub complete_flush-Inv :
    (z : Zstd) (laws : RoundTrips z) (cfg : Config) (lead : ℕ) (s : FileStore) (ds : List (List ℕ))
    → 0 < length s.buffer
    → CanFlush z laws cfg s
    → Inv z lead s ds
    → Inv z lead (complete_flush z cfg s) (ds ++ (s.buffer ∷ []))
      × ((complete_flush z cfg s).buffer ≡ [])
unfolding complete_flush
complete_flush-Inv z laws cfg lead s ds h c v = elim (Bool-cases (is_empty s.buffer)) [
  | inl e ↦ absurd (not_empty s.buffer e h)
  | inr e ↦ rw e (
    Inv-same z lead
        (flush_index (length (z.encode cfg.level s.buffer))
          (flush_frame (z.encode cfg.level s.buffer) s))
        _ (ds ++ (s.buffer ∷ [])) refl refl refl refl refl refl
        (written z laws cfg lead s ds h c v),
    refl,
  )
]
  where
    not_empty : (xs : List ℕ) → is_empty xs ≡ true → 0 < length xs → ⊥
    not_empty [] e k = elim k [ ]
    not_empty (x ∷ xs) e k = cc
