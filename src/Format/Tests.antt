-- ===== src/Format/Tests.antt =====
-- Tests of the index, and its theorems at concrete inputs.
use timberfs.Prelude.{
  ℕ, ◌≡◌, refl, List, [], ◌∷◌, ◌++◌, Option, some, replicate, ok, err, map_ok, ◌↔◌, ◌-◌, All, arith,
  Bool, true, false, ltb, ltb→lt, Bool-cases, inl, inr, if◌then◌else◌,
}
use timberfs.Bytes.{IsByte, from_le}
use timberfs.Format.{
  ChunkRecord, Dropped, v1, v2, rings_header, rings_magic_v1, parse_index_versioned, index_from,
  unsupported,
}
use timberfs.Format.Record.{IsRecord}
use timberfs.Format.Index.{encode}
use timberfs.Format.Header.{IsHeader}
use timberfs.Format.Parse.{
  header_of, parse_index-encode, parse_index-longer_header, parse_index-incompat,
}
use timberfs.Format.Tail.{from_parsed, index_from-parse}
use timberfs.Format.Migrate.{migrate_rings, parse_index-migrate_rings}
use timberfs.Format.Chunk.{Zstd, past_end, load_chunk, IsStored, load_chunk_iff}

abbrev first : ChunkRecord
first = record {
  uncomp_start = 0;
  uncomp_len = 3;
  comp_start = 0;
  comp_len = 3;
  first_write_ms = 1000;
  last_write_ms = 1500;
  seq = 0;
}

abbrev second : ChunkRecord
second = record {
  uncomp_start = 3;
  uncomp_len = 2;
  comp_start = 3;
  comp_len = 2;
  first_write_ms = 1600;
  last_write_ms = 1700;
  seq = 1;
}

abbrev two : List ChunkRecord
two = first ∷ second ∷ []

abbrev drops : Dropped
drops = record { uncomp_bytes = 700; comp_bytes = 70 }

abbrev store_id : Option (List ℕ)
store_id = some (replicate 16 171)

first-IsRecord : IsRecord first
first-IsRecord = record {
  uncomp_start = omega arith;
  uncomp_len = omega arith;
  comp_start = omega arith;
  comp_len = omega arith;
  first_write_ms = omega arith;
  last_write_ms = omega arith;
  seq = omega arith;
}

second-IsRecord : IsRecord second
second-IsRecord = record {
  uncomp_start = omega arith;
  uncomp_len = omega arith;
  comp_start = omega arith;
  comp_len = omega arith;
  first_write_ms = omega arith;
  last_write_ms = omega arith;
  seq = omega arith;
}

two-IsRecord : All IsRecord two
two-IsRecord = (first-IsRecord, (second-IsRecord, tt))

fields-IsHeader : IsHeader 2 drops store_id
fields-IsHeader = record {
  next_seq = omega arith;
  uncomp_bytes = omega arith;
  comp_bytes = omega arith;
  id_len = refl;
}

abbrev z : Zstd
z = record { encode = λ level bytes. bytes; decode = λ bytes. some bytes }

parse_index-encode_example :
    parse_index_versioned (rings_header 2 drops store_id ++ (encode two ++ (1 ∷ 2 ∷ [])))
    ≡ ok (two, v2)
parse_index-encode_example =
    parse_index-encode 2 drops store_id two (1 ∷ 2 ∷ []) fields-IsHeader two-IsRecord (omega arith)

parse_index-longer_header_example :
    parse_index_versioned (header_of 0 (replicate 72 9) ++ (encode two ++ [])) ≡ ok (two, v2)
parse_index-longer_header_example =
    parse_index-longer_header (replicate 72 9) two [] (omega arith) (omega arith) two-IsRecord
      (omega arith)

parse_index-incompat_example :
    parse_index_versioned (header_of 4 (replicate 40 0) ++ encode two) ≡ err (unsupported 4)
parse_index-incompat_example =
    parse_index-incompat 4 (replicate 40 0) (encode two) (omega arith) (omega arith) (omega arith)
      (λ e. omega (arith, e))

index_from-parse_example :
    index_from (rings_header 2 drops store_id ++ encode two) (λ n. n - 1)
    ≡ map_ok
        (from_parsed (λ n. n - 1))
        (parse_index_versioned (rings_header 2 drops store_id ++ encode two))
index_from-parse_example =
    index_from-parse (rings_header 2 drops store_id ++ encode two) (λ n. n - 1)

all_bytes : List ℕ → Bool
all_bytes [] = true
all_bytes (b ∷ bs) = if ltb b 256 then all_bytes bs else false

checked : (bs : List ℕ) → all_bytes bs ≡ true → All IsByte bs
unfolding all_bytes
checked [] e = tt
checked (b ∷ bs) e = elim (Bool-cases (ltb b 256)) [
  | inl small ↦ (ltb→lt b 256 small, checked bs (rw small at e))
  | inr large ↦ cc
]

-- A v1 index of one record.
abbrev old : List ℕ
old = rings_magic_v1 ++ (3 ∷ replicate 47 0)

abbrev old_record : ChunkRecord
old_record = record {
  uncomp_start = 3;
  uncomp_len = 0;
  comp_start = 0;
  comp_len = 0;
  first_write_ms = 0;
  last_write_ms = 0;
  seq = 0;
}

parse_old : parse_index_versioned old ≡ ok (old_record ∷ [], v1)
unfolding parse_index_versioned from_le
parse_old = refl

old-IsByte : All IsByte old
unfolding all_bytes
old-IsByte = checked old refl

parse_index-migrate_rings_example :
    (rings' : List ℕ) × (migrate_rings store_id old ≡ ok rings')
    × (parse_index_versioned rings' ≡ ok (old_record ∷ [], v2))
parse_index-migrate_rings_example =
    parse_index-migrate_rings store_id old (old_record ∷ []) v1 old-IsByte (omega arith) refl
      parse_old

load_chunk_iff_example :
    (load_chunk z (1 ∷ 2 ∷ 3 ∷ 4 ∷ 5 ∷ []) second ≡ ok (4 ∷ 5 ∷ []))
    ↔ IsStored z (1 ∷ 2 ∷ 3 ∷ 4 ∷ 5 ∷ []) second (4 ∷ 5 ∷ [])
load_chunk_iff_example = load_chunk_iff z (1 ∷ 2 ∷ 3 ∷ 4 ∷ 5 ∷ []) second (4 ∷ 5 ∷ []) (omega arith)

-- The trunk ends inside the frame.
load_past_end : load_chunk z (1 ∷ 2 ∷ 3 ∷ 4 ∷ []) second ≡ err past_end
unfolding load_chunk
load_past_end = refl
