-- ===== src/Sap/Segment.antt =====
-- A segment as its operations leave it, and the replay of what a crash leaves of it.
use timberfs.Prelude.{
  ℕ, ◌+◌, ◌-◌, ◌≤◌, ◌≡◌, refl, ap, ◌∙◌, sym, List, [], ◌∷◌, ◌++◌, length, take, All, arith, some,
  map-append, concat-snoc, append_assoc, take-append_ge, append-nil,
}
use timberfs.Bytes.{IsU64, to_le, write_at}
use timberfs.Bytes.LittleEndian.{from_le-u64}
use timberfs.Bytes.File.{write_at_inside}
use timberfs.Sap.{
  Sap, SapEntry, header_bytes, replay, create, append, refresh_base, parse_records, SapReplay,
}
use timberfs.Sap.Record.{IsEntry}
use timberfs.Sap.Crash.{
  encode_all, whole_within, whole_within-append, parse_records-take, whole_within_all,
}
use timberfs.Prelude.{take_all}

-- The bytes of a segment that holds `es`.
abbrev pub segment : ℕ → ℕ → List SapEntry → List ℕ
segment base uncomp_base es = header_bytes base uncomp_base ++ encode_all es

-- The segment `s` holds exactly the entries `es`, under its own bases.
pub record Holds (s : Sap) (es : List SapEntry) : Type 0 where
  pub bytes : s.bytes ≡ segment s.base s.uncomp_base es

pub create-Holds : (base uncomp_base : ℕ) → Holds (create base uncomp_base) []
unfolding create
create-Holds base uncomp_base = record { bytes = sym (append-nil (header_bytes base uncomp_base)) }

-- An append to a segment that holds exactly `es` gives one that holds exactly `es` and then the new
-- entry, under the same bases.
pub append-Holds :
    (e : SapEntry) (s : Sap) (es : List SapEntry) → Holds s es → Holds (append e s) (es ++ (e ∷ []))
unfolding append
append-Holds e s es h = record { bytes = rw (h.bytes, map-append, concat-snoc, append_assoc) }

refresh_base-Holds :
    (base uncomp_base : ℕ) (s : Sap) (es : List SapEntry)
    → Holds s es
    → Holds (refresh_base base uncomp_base s) es
unfolding refresh_base header_bytes to_le
refresh_base-Holds base uncomp_base s es h = record {
  bytes = rw (h.bytes) (
      write_at_inside (segment s.base s.uncomp_base es) (to_le 8 base ++ to_le 8 uncomp_base) 8
        (omega arith));
}

pub length-header_bytes : (base uncomp_base : ℕ) → length (header_bytes base uncomp_base) ≡ 24
unfolding header_bytes to_le
length-header_bytes base uncomp_base = refl

replay-header :
    (base uncomp_base : ℕ) (body : List ℕ)
    → IsU64 base
    → IsU64 uncomp_base
    → replay (some (header_bytes base uncomp_base ++ body)) ≡ (
      some (record {
        base = base;
        uncomp_base = uncomp_base;
        entries = (parse_records body).0;
        valid_len = 24 + (parse_records body).1;
      }),
      some (header_bytes base uncomp_base ++ body),
    )
unfolding replay header_bytes to_le
replay-header base uncomp_base body hb hu =
    ground (arith, from_le-u64 base hb, from_le-u64 uncomp_base hu)

-- A segment cut by a crash at byte `k`, its header whole: the replay returns its two bases, exactly
-- the entries whose records are whole before the cut, and the length to cut the file to, and leaves
-- the file as it is.
pub replay-segment :
    (base uncomp_base : ℕ) (es : List SapEntry) (k : ℕ)
    → IsU64 base
    → IsU64 uncomp_base
    → All IsEntry es
    → k ≤ length (encode_all es)
    → replay (some (take (24 + k) (segment base uncomp_base es))) ≡ (
      some (record {
        base = base;
        uncomp_base = uncomp_base;
        entries = whole_within k es;
        valid_len = 24 + length (encode_all (whole_within k es));
      }),
      some (take (24 + k) (segment base uncomp_base es)),
    )
replay-segment base uncomp_base es k hb hu h hk = rw (cut) (
    replay-header base uncomp_base (take k (encode_all es)) hb hu
    ∙ rw (parse_records-take es k h hk))
  where
    cut :
        take (24 + k) (segment base uncomp_base es)
        ≡ header_bytes base uncomp_base ++ take k (encode_all es)
    cut =
        take-append_ge (24 + k) k (header_bytes base uncomp_base) (encode_all es)
          (omega (arith, length-header_bytes base uncomp_base))

-- An uncut segment.
pub replay_whole :
    (base uncomp_base : ℕ) (es : List SapEntry)
    → IsU64 base
    → IsU64 uncomp_base
    → All IsEntry es
    → replay (some (segment base uncomp_base es)) ≡ (
      some (record {
        base = base;
        uncomp_base = uncomp_base;
        entries = es;
        valid_len = 24 + length (encode_all es);
      }),
      some (segment base uncomp_base es),
    )
replay_whole base uncomp_base es hb hu h =
    replay-header base uncomp_base (encode_all es) hb hu ∙ rw (parsed) refl
  where
    parsed : parse_records (encode_all es) ≡ (es, length (encode_all es))
    parsed =
        ap parse_records (sym (take_all (length (encode_all es)) (encode_all es) (omega arith)))
        ∙ parse_records-take es (length (encode_all es)) h (omega arith)
        ∙ ap (λ xs. (xs, length (encode_all xs))) (whole_within_all es)

-- Refreshing the bases of a segment that holds exactly `es`, under whatever bases, makes it the
-- segment of `es` under the new bases, and these and `es` are what the replay of its bytes returns,
-- where the new bases and the entries fit their fields.
pub refresh_base-segment :
    (base uncomp_base : ℕ) (s : Sap) (es : List SapEntry)
    → IsU64 base
    → IsU64 uncomp_base
    → All IsEntry es
    → Holds s es
    → ((refresh_base base uncomp_base s).bytes ≡ segment base uncomp_base es)
      × ((refresh_base base uncomp_base s).base ≡ base)
      × ((refresh_base base uncomp_base s).uncomp_base ≡ uncomp_base)
      × (replay (some (refresh_base base uncomp_base s).bytes) ≡ (
        some (record {
          base = base;
          uncomp_base = uncomp_base;
          entries = es;
          valid_len = 24 + length (encode_all es);
        }),
        some (segment base uncomp_base es),
      ))
unfolding refresh_base
refresh_base-segment base uncomp_base s es hb hu h held =
    (bytes, refl, refl, rw bytes (replay_whole base uncomp_base es hb hu h))
  where
    bytes : write_at s.bytes 8 (to_le 8 base ++ to_le 8 uncomp_base) ≡ segment base uncomp_base es
    bytes = (refresh_base-Holds base uncomp_base s es held).bytes

-- Entries that were in the file when it was synced survive every later crash: where the cut lies at
-- or behind the end of `es`, the replay returns all of `es`, and then of the later entries those
-- whose records are whole before the cut.
pub replay-synced :
    (base uncomp_base : ℕ) (es later : List SapEntry) (k : ℕ)
    → IsU64 base
    → IsU64 uncomp_base
    → All IsEntry (es ++ later)
    → length (encode_all es) ≤ k
    → k ≤ length (encode_all (es ++ later))
    → (r : SapReplay) × ((replay (some (take (24 + k) (segment base uncomp_base (es ++ later))))).0
        ≡ some r)
      × (r.entries ≡ es ++ whole_within (k - length (encode_all es)) later)
replay-synced base uncomp_base es later k hb hu h hs hk = (
  record {
    base = base;
    uncomp_base = uncomp_base;
    entries = whole_within k (es ++ later);
    valid_len = 24 + length (encode_all (whole_within k (es ++ later)));
  },
  ap (λ p. p.0) (replay-segment base uncomp_base (es ++ later) k hb hu h hk),
  whole_within-append es later k hs,
)
