-- ===== src/Format/Header.antt =====
-- The v2 header: what `rings_header` writes, the three header readers and `index_layout` read back.
use timberfs.Prelude.{ℕ, ◌+◌, ◌≡◌, List, ◌++◌, length, arith}
use timberfs.Prelude.{false, Option, none, some, take-append_eq, length-append}
use timberfs.Prelude.{replicate}
use timberfs.Bytes.{IsU64, to_le, bytes_eq}
use timberfs.Bytes.LittleEndian.{from_le-u64}
use timberfs.Format.{Dropped, rings_header, header_store_id, header_dropped}
use timberfs.Format.{header_next_seq, id_field}

-- The three fields that `rings_header` takes fit their places; an all-zero id means "no id".
pub record IsHeader (n : ℕ) (d : Dropped) (id : Option (List ℕ)) : Type 0 where
  pub next_seq : IsU64 n
  pub uncomp_bytes : IsU64 d.uncomp_bytes
  pub comp_bytes : IsU64 d.comp_bytes
  pub id_len : length (id_field id) ≡ 16

abbrev pub IsId : Option (List ℕ) → Type 0
IsId none = Unit {0}
IsId (some id) = bytes_eq id (replicate 16 0) ≡ false

module _ (n : ℕ) (d : Dropped) (id : Option (List ℕ)) (h : IsHeader n d id) (rest : List ℕ) where
  long : length (id_field id ++ rest) ≡ 16 + length rest
  long = omega (arith, length-append (id_field id) rest, h.id_len)

  pub length-rings_header : length (rings_header n d id) ≡ 64
  unfolding rings_header to_le
  length-rings_header = omega (arith, h.id_len)

  -- The next chunk number that a header was written with is read back from it, whatever follows the header.
  pub header_next_seq-rings_header : header_next_seq (rings_header n d id ++ rest) ≡ n
  unfolding rings_header header_next_seq to_le
  header_next_seq-rings_header = ground (arith, long, from_le-u64 n h.next_seq)

  -- The two drop totals that a header was written with are read back from it, whatever follows the
  -- header.
  pub header_dropped-rings_header : header_dropped (rings_header n d id ++ rest) ≡ d
  unfolding rings_header header_dropped to_le
  header_dropped-rings_header = ground (
    arith,
    long,
    from_le-u64 64 (omega arith),
    from_le-u64 d.uncomp_bytes h.uncomp_bytes,
    from_le-u64 d.comp_bytes h.comp_bytes,
  )

  -- The store id that a header was written with, if any, is read back from it, whatever follows the
  -- header, provided that the id is not the one of zeros.
  pub header_store_id-rings_header : IsId id → header_store_id (rings_header n d id ++ rest) ≡ id
  unfolding rings_header header_store_id to_le
  header_store_id-rings_header k = ground (
    arith,
    long,
    k,
    from_le-u64 64 (omega arith),
    take-append_eq 16 (id_field id) rest (omega (arith, h.id_len)),
  )
