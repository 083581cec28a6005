-- ===== src/Format/Migrate.antt =====
-- `migrate_rings` of src/store.rs: a v1 index becomes a v2 one, with numbers from 0.
use timberfs.Prelude.{
  ℕ, zero, suc, ◌+◌, ◌-◌, ◌/◌, ◌^◌, ◌<◌, ◌≤◌, ◌≡◌, ap, ◌∙◌, sym, List, [], ◌++◌, length, All, arith,
}
use mathlib.Core.Path.{subst}
use timberfs.Prelude.{
  le→ltb, true, false, ◌||◌, not, ltb, if◌then◌else◌, take, drop, Option, none, some, get_last?,
  Result, ok, ◌>>=◌, append-nil, Bool-cases, inl, inr, All-take, All-drop,
}
use timberfs.Bytes.{IsByte, IsU64, slice, bytes_eq}
use timberfs.Bytes.LittleEndian.{u64_at-IsU64, bytes_eq→eq}
use timberfs.Format.{
  ChunkRecord, RingsVersion, v1, v2, Error, Layout, add_u64, rings_magic_v1, rings_header, no_drops,
  index_layout, records_loop, parse_index_versioned, id_field,
}
use timberfs.Format.Record.{IsRecord}
use timberfs.Format.Index.{encode}
use timberfs.Format.Parse.{parse_index-encode}

-- `records.last().map(|c| c.seq + 1).unwrap_or(0)`
abbrev pub number_after : Option ChunkRecord → ℕ
number_after none = 0
number_after (some c) = add_u64 c.seq 1

-- The file that takes the place of `rings`, or the same one where there is nothing to migrate.
unfoldable pub migrate_rings : Option (List ℕ) → List ℕ → Result Error (List ℕ)
unfolding bytes_eq
migrate_rings id rings =
    if ltb (length rings) 8 || not (bytes_eq (take 8 rings) rings_magic_v1) then ok rings else do
      (records, version) ← parse_index_versioned rings
      ok (rings_header (number_after (get_last? records)) no_drops id ++ encode records)

layout-v1 :
    (rings : List ℕ) (total : ℕ)
    → 8 ≤ length rings
    → bytes_eq (take 8 rings) rings_magic_v1 ≡ true
    → index_layout rings total ≡ ok (record { version = v1; header = 8; rec_len = 48 })
unfolding index_layout
layout-v1 rings total h e = ground (arith, e, bytes_eq→eq (take 8 rings) rings_magic_v1 e)

layout-other :
    (rings : List ℕ) (total : ℕ) (l : Layout)
    → bytes_eq (take 8 rings) rings_magic_v1 ≡ false
    → index_layout rings total ≡ ok l
    → (l.version ≡ v2) × (8 ≤ length rings)
unfolding index_layout
layout-other rings total l e k = ground arith

records_loop-IsRecord :
    (n i off : ℕ) (buf : List ℕ)
    → All IsByte buf
    → i + n < 2 ^ 64
    → All IsRecord (records_loop v1 48 n i off buf)
unfolding records_loop
records_loop-IsRecord zero i off buf h k = tt
records_loop-IsRecord (suc n) i off buf h k =
    let part : All IsByte (slice off 48 buf) =
      All-take IsByte 48 (drop off buf) (All-drop IsByte off buf h) in
    (
      record {
        uncomp_start = u64_at-IsU64 0 _ part;
        uncomp_len = u64_at-IsU64 8 _ part;
        comp_start = u64_at-IsU64 16 _ part;
        comp_len = u64_at-IsU64 24 _ part;
        first_write_ms = u64_at-IsU64 32 _ part;
        last_write_ms = u64_at-IsU64 40 _ part;
        seq = omega arith;
      },
      records_loop-IsRecord n (i + 1) (off + 48) buf h (omega arith),
    )

number_after-IsU64 : (o : Option ChunkRecord) → IsU64 (number_after o)
number_after-IsU64 none = omega arith
number_after-IsU64 (some c) = omega arith

-- A successful parse goes through a layout.
parse-layout :
    (rings : List ℕ) (rs : List ChunkRecord) (v : RingsVersion)
    → parse_index_versioned rings ≡ ok (rs, v)
    → (l : Layout) × (index_layout rings (length rings) ≡ ok l) × (l.version ≡ v)
unfolding parse_index_versioned
parse-layout rings rs v e = ground arith

layout_long :
    (rings : List ℕ) (total : ℕ) (l : Layout) → index_layout rings total ≡ ok l → 8 ≤ length rings
unfolding index_layout
layout_long rings total l e = ground arith

-- Of a file with the v1 magic, the records are the v1 loop's.
parse-v1 :
    (rings : List ℕ) (rs : List ChunkRecord) (v : RingsVersion)
    → 8 ≤ length rings
    → bytes_eq (take 8 rings) rings_magic_v1 ≡ true
    → parse_index_versioned rings ≡ ok (rs, v)
    → records_loop v1 48 ((length rings - 8) / 48) 0 8 rings ≡ rs
unfolding parse_index_versioned
parse-v1 rings rs v h old e = cc (layout-v1 rings (length rings) h old, e)

migrate-eq :
    (id : Option (List ℕ)) (rings : List ℕ) (rs : List ChunkRecord) (v : RingsVersion)
    → 8 ≤ length rings
    → bytes_eq (take 8 rings) rings_magic_v1 ≡ true
    → parse_index_versioned rings ≡ ok (rs, v)
    → migrate_rings id rings
      ≡ ok (rings_header (number_after (get_last? rs)) no_drops id ++ encode rs)
unfolding migrate_rings
migrate-eq id rings rs v h old e = rw (le→ltb (length rings) 8 h, old, e)

-- A byte-valued index of fewer than 2^64 bytes that parses, in either layout, is migrated to one
-- that parses in the v2 layout to the same records, the numbers included, whatever 16-byte id
-- the header is given.
pub parse_index-migrate_rings :
    (id : Option (List ℕ)) (rings : List ℕ) (rs : List ChunkRecord) (v : RingsVersion)
    → All IsByte rings
    → IsU64 (length rings)
    → length (id_field id) ≡ 16
    → parse_index_versioned rings ≡ ok (rs, v)
    → (rings' : List ℕ) × (migrate_rings id rings ≡ ok rings')
      × (parse_index_versioned rings' ≡ ok (rs, v2))
parse_index-migrate_rings id rings rs v bytes small idl e =
    elim (Bool-cases (bytes_eq (take 8 rings) rings_magic_v1)) [
      | inl old ↦
          let valid : All IsRecord rs =
            subst (All IsRecord) (parse-v1 rings rs v long old e)
              (records_loop-IsRecord ((length rings - 8) / 48) 0 8 rings bytes (omega arith)) in
          (
            rings_header (number_after (get_last? rs)) no_drops id ++ encode rs,
            migrate-eq id rings rs v long old e,
            rw (append-nil (encode rs)) at (
                parse_index-encode (number_after (get_last? rs)) no_drops id rs []
                  (record {
                    next_seq = number_after-IsU64 (get_last? rs);
                    uncomp_bytes = omega arith;
                    comp_bytes = omega arith;
                    id_len = idl;
                  })
                  valid (omega arith)),
          )
      | inr new ↦ (rings, unfold migrate_rings in rw (le→ltb (length rings) 8 long, new), same new)
    ]
  where
    l : (l : Layout) × (index_layout rings (length rings) ≡ ok l) × (l.version ≡ v)
    l = parse-layout rings rs v e

    long : 8 ≤ length rings
    long = layout_long rings (length rings) l.0 l.1

    same :
        bytes_eq (take 8 rings) rings_magic_v1 ≡ false → parse_index_versioned rings ≡ ok (rs, v2)
    same new =
        e ∙ ap (λ w. ok (rs, w)) (sym l.2 ∙ (layout-other rings (length rings) l.0 new l.1).0)
