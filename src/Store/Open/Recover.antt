-- ===== src/Store/Open/Recover.antt =====
-- The parts of an open after a crash: what the index gives, a seal that never landed, a stale one.
use timberfs.Prelude.{
  ℕ, ◌+◌, ◌^◌, ◌≤◌, ◌<◌, ◌≡◌, refl, ◌∙◌, sym, List, [], ◌∷◌, ◌++◌, none, some, length, take,
  get_last?, All, arith, Bool, true, false, le→ltb, lt→ltb, length-append, take_all,
}
use mathlib.Core.Path.{subst}
use timberfs.Bytes.{IsU64}
use timberfs.Format.{ChunkRecord, comp_end, uncomp_end}
use timberfs.Format.Chunk.{Zstd, RoundTrips}
use timberfs.Sap
use timberfs.Sap.{SapEntry}
use timberfs.Sap.Record.{IsEntry}
use timberfs.Sap.Crash.{encode_all, whole_within_all}
use timberfs.Sap.Segment.{segment, replay-segment, length-header_bytes}
use timberfs.Store.{Config, FileStore}
use timberfs.Store.Inv.{Inv, Inv-same, Frames}
use timberfs.Store.Flush.{CanFlush}
use timberfs.Store.Open.{
  Disk, Opened, from_index, drop_truncated, end_or_zero, apply_entries, complete_flush, open_seal,
  open_sap, restart_age,
}
use timberfs.Store.Open.Index.{last_ends}
use timberfs.Store.Open.Replay.{payloads, apply_entries-Inv, complete_flush-Inv}

-- Where the frames of a store end, its record of the last chunk ends; an empty store starts at 0.
pub ends :
    (z : Zstd) (file : List ℕ) (lead u' c' : ℕ) (rs : List ChunkRecord) (ds : List (List ℕ))
    → length file < 2 ^ 64
    → (rs ≡ [] → lead ≡ 0)
    → Frames z file 0 lead u' c' rs ds
    → (end_or_zero comp_end (get_last? rs) ≡ c') × (end_or_zero uncomp_end (get_last? rs) ≡ u')
ends z file lead u' c' [] [] small h f = (sym (h refl) ∙ f.1, f.0)
ends z file lead u' c' [] (d ∷ ds) small h f = absurd f
ends z file lead u' c' (r ∷ rs) ds small h f = last_ends z file 0 lead u' c' r rs ds small f

pub from_index-Inv :
    (z : Zstd) (lead u' c' : ℕ) (disk : Disk) (o : Opened) (rs : List ChunkRecord)
    (ds : List (List ℕ))
    → drop_truncated (length disk.trunk) o.chunks ≡ rs
    → length disk.trunk < 2 ^ 64
    → c' ≤ length disk.trunk
    → u' < 2 ^ 64
    → (rs ≡ [] → lead ≡ 0)
    → Frames z disk.trunk 0 lead u' c' rs ds
    → Inv z lead (from_index disk o) ds
      × ((from_index disk o).comp_size ≡ c')
      × ((from_index disk o).buffer_start ≡ u')
      × ((from_index disk o).buffer ≡ [])
unfolding from_index
from_index-Inv z lead u' c' disk o rs ds kept small hc hu h f = (
  record {
    frames = rw (kept, e.0, e.1) f;
    inside = rw (kept, e.0) hc;
    trunk_fits = small;
    fits = rw (kept, e.1) (omega arith);
    cached = λ i d k. cc;
  },
  rw (kept, e.0),
  rw (kept, e.1),
  refl,
)
  where
    e : (end_or_zero comp_end (get_last? rs) ≡ c') × (end_or_zero uncomp_end (get_last? rs) ≡ u')
    e = ends z disk.trunk lead u' c' rs ds small h f

-- With no live segment left, opening it changes neither the pair nor the buffer.
module _ (z : Zstd) (now : ℕ) (declared : Bool) (lead : ℕ) (ds : List (List ℕ)) where
  pub no_live_segment :
      (s : FileStore)
      → Inv z lead s ds
      → Inv z lead (restart_age now (open_sap declared none s)) ds
        × ((restart_age now (open_sap declared none s)).buffer ≡ s.buffer)
  unfolding open_sap Sap.replay
  no_live_segment s v = go declared
    where
      go :
          (b : Bool)
          → Inv z lead (restart_age now (open_sap b none s)) ds
            × ((restart_age now (open_sap b none s)).buffer ≡ s.buffer)
      go true = (Inv-same z lead s _ ds refl refl refl refl refl refl v, refl)
      go false = (Inv-same z lead s _ ds refl refl refl refl refl refl v, refl)

module _ (z : Zstd) (laws : RoundTrips z) (cfg : Config) (lead : ℕ) (base start : ℕ)
    (es : List SapEntry) where
  module _ (hb : IsU64 base) (hs : IsU64 start) (he : All IsEntry es) where
    whole_segment : Sap.replay (some (segment base start es)) ≡ (
      some (record {
        base = base;
        uncomp_base = start;
        entries = es;
        valid_len = 24 + length (encode_all es);
      }),
      some (segment base start es),
    )
    whole_segment =
        rw (whole_within_all es, whole) at
          (replay-segment base start es (length (encode_all es)) hb hs he (omega arith))
      where
        whole : take (24 + length (encode_all es)) (segment base start es) ≡ segment base start es
        whole = take_all (24 + length (encode_all es)) (segment base start es) (
            omega (
              arith,
              length-append (Sap.header_bytes base start) (encode_all es),
              length-header_bytes base start,
            ))

    -- A seal whose flush never landed is replayed and flushed.
    pub open_seal-unlanded :
        (s : FileStore) (ds : List (List ℕ))
        → s.buffer ≡ []
        → s.comp_size ≡ base
        → s.buffer_start + length (payloads es) < 2 ^ 64
        → 0 < length (payloads es)
        → CanFlush z laws cfg (apply_entries es s)
        → Inv z lead s ds
        → Inv z lead (open_seal z cfg (some (segment base start es)) s) (ds ++ (payloads es ∷ []))
          × ((open_seal z cfg (some (segment base start es)) s).buffer ≡ [])
    unfolding open_seal
    open_seal-unlanded s ds e same fits some_bytes c v =
        rw (whole_segment, le→ltb base s.comp_size (omega (arith, same)))
          (
            Inv-same z lead (complete_flush z cfg a) _ (ds ++ (payloads es ∷ [])) refl refl refl
                refl refl refl
                (subst (λ b. Inv z lead (complete_flush z cfg a) (ds ++ (b ∷ []))) applied.1
                  completed.0),
            completed.1,
          )
      where
        a : FileStore
        a = apply_entries es s

        applied : Inv z lead (apply_entries es s) ds × ((apply_entries es s).buffer ≡ payloads es)
        applied = apply_entries-Inv z lead es s ds e fits v

        completed :
            Inv z lead
              (complete_flush z cfg (apply_entries es s))
              (ds ++ ((apply_entries es s).buffer ∷ []))
            × ((complete_flush z cfg (apply_entries es s)).buffer ≡ [])
        completed =
            complete_flush-Inv z laws cfg lead (apply_entries es s) ds (rw (applied.1) some_bytes) c
              applied.0

    -- A seal whose flush landed is dropped.
    pub open_seal-landed :
        (s : FileStore) (ds : List (List ℕ))
        → base < s.comp_size
        → Inv z lead s ds
        → Inv z lead (open_seal z cfg (some (segment base start es)) s) ds
          × ((open_seal z cfg (some (segment base start es)) s).buffer ≡ s.buffer)
    unfolding open_seal
    open_seal-landed s ds past v =
        rw (whole_segment, lt→ltb base s.comp_size past)
          (Inv-same z lead s _ ds refl refl refl refl refl refl v, refl)
