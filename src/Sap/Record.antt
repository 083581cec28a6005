-- ===== src/Sap/Record.antt =====
-- One record of the sidecar: a round of the parser on a whole record, and on a cut one.
use timberfs.Prelude.{
  ℕ, zero, suc, ◌+◌, ◌%◌, ◌^◌, ◌≤◌, ◌<◌, ◌≡◌, refl, ap, ◌∙◌, sym, List, [], ◌∷◌, ◌++◌, length, take,
  drop, arith,
}
use timberfs.Prelude.{
  length-append, append_assoc, take-append_eq, drop-append_eq, drop-drop, take-drop-take, le→ltb,
  lt→ltb, ==_iff,
}
use timberfs.Prelude.{append-nil}
use native.Mathlib.Decide.{dec_lt}
use native.Mathlib.Nat.{mod-eq_of_lt}
use timberfs.Bytes.{IsU32, IsU64, slice, u32_at, u64_at, to_le, from_le}
use timberfs.Bytes.LittleEndian.{from_le-u32, from_le-u64, length-to_le}
use timberfs.Sap.{SapEntry, crc32, record_body, encode_record, parse_loop, record_header_len}

-- What `append` can be given: the window is two `u64`s, and the length fits its `u32`.
pub record IsEntry (e : SapEntry) : Type 0 where
  pub wf : IsU64 e.wf
  pub wl : IsU64 e.wl
  pub payload : IsU32 (length e.payload)

abbrev pub size : SapEntry → ℕ
size e = 24 + length e.payload

crc32-IsU32 : (bytes : List ℕ) → IsU32 (crc32 bytes)
unfolding crc32
crc32-IsU32 bytes = omega arith

pub length-record_body : (e : SapEntry) → length (record_body e) ≡ 20 + length e.payload
unfolding record_body to_le
length-record_body e = omega arith

pub length-encode_record : (e : SapEntry) → length (encode_record e) ≡ size e
unfolding encode_record
length-encode_record e = omega (
  arith,
  length-append (record_body e) (to_le 4 (crc32 (record_body e))),
  length-record_body e,
  length-to_le 4 (crc32 (record_body e)),
)

module _ (e : SapEntry) (h : IsEntry e) (rest : List ℕ) where
  -- The record as body, checksum and what follows.
  parts : encode_record e ++ rest ≡ record_body e ++ (to_le 4 (crc32 (record_body e)) ++ rest)
  unfolding encode_record
  parts = append_assoc (record_body e) (to_le 4 (crc32 (record_body e))) rest

  len_field : u32_at 0 (encode_record e ++ rest) ≡ length e.payload
  unfolding encode_record record_body to_le
  len_field = from_le-u32 (length e.payload % 2 ^ 32) (omega arith) ∙ mod-eq_of_lt h.payload

  wf_field : u64_at 4 (encode_record e ++ rest) ≡ e.wf
  unfolding encode_record record_body to_le
  wf_field = from_le-u64 e.wf h.wf

  wl_field : u64_at 12 (encode_record e ++ rest) ≡ e.wl
  unfolding encode_record record_body to_le
  wl_field = from_le-u64 e.wl h.wl

  payload_field : slice 20 (length e.payload) (encode_record e ++ rest) ≡ e.payload
  unfolding encode_record record_body to_le
  payload_field =
      ap (take (length e.payload)) (append_assoc e.payload _ rest)
      ∙ take-append_eq (length e.payload) e.payload _ refl

  body_field : take (20 + length e.payload) (encode_record e ++ rest) ≡ record_body e
  body_field =
      rw parts
        (take-append_eq (20 + length e.payload) (record_body e) _ (sym (length-record_body e)))

  crc_field : u32_at (20 + length e.payload) (encode_record e ++ rest) ≡ crc32 (record_body e)
  crc_field =
      rw
        (
          parts,
          drop-append_eq (20 + length e.payload) (record_body e)
              (to_le 4 (crc32 (record_body e)) ++ rest) (sym (length-record_body e)),
        )
        (ap from_le (
            take-append_eq 4 (to_le 4 (crc32 (record_body e))) rest
              (sym (length-to_le 4 (crc32 (record_body e)))))
          ∙ from_le-u32 (crc32 (record_body e)) (crc32-IsU32 (record_body e)))

  -- A round on a whole record returns its entry and goes on behind it.
  pub parse_loop-record :
      (fuel off : ℕ) (buf : List ℕ)
      → drop off buf ≡ encode_record e ++ rest
      → off + size e ≤ length buf
      → parse_loop (suc fuel) off buf
        ≡ (e ∷ (parse_loop fuel (off + size e) buf).0, (parse_loop fuel (off + size e) buf).1)
  unfolding parse_loop
  parse_loop-record fuel off buf d fits =
      rw (d, len_field, at_4, at_12, at_20, at_crc, le→ltb (length buf) (off + 4) (omega arith))
        (rw (
          same_total,
          le→ltb (length buf) (off + size e) fits,
          body_field,
          crc_field,
          (==_iff (crc32 (record_body e)) (crc32 (record_body e))).1 refl,
          wf_field,
          wl_field,
          payload_field,
        ))
    where
      same_total : off + (record_header_len + length e.payload + 4) ≡ off + size e
      same_total = omega arith

      at_4 : drop (off + 4) buf ≡ drop 4 (encode_record e ++ rest)
      at_4 = sym (drop-drop off 4 (off + 4) buf refl) ∙ ap (drop 4) d

      at_12 : drop (off + 12) buf ≡ drop 12 (encode_record e ++ rest)
      at_12 = sym (drop-drop off 12 (off + 12) buf refl) ∙ ap (drop 12) d

      at_20 : drop (off + 20) buf ≡ drop 20 (encode_record e ++ rest)
      at_20 = sym (drop-drop off 20 (off + 20) buf refl) ∙ ap (drop 20) d

      at_crc :
          drop (off + record_header_len + length e.payload) buf
          ≡ drop (20 + length e.payload) (encode_record e ++ rest)
      at_crc =
          sym
            (drop-drop off (20 + length e.payload) (off + 20 + length e.payload) buf (omega arith))
          ∙ ap (drop (20 + length e.payload)) d

-- A cut record ends the parse where it starts, whatever the fuel.
pub parse_loop-cut :
    (e : SapEntry) (k fuel off : ℕ) (buf : List ℕ)
    → IsEntry e
    → drop off buf ≡ take k (encode_record e)
    → length buf ≡ off + k
    → k < size e
    → parse_loop fuel off buf ≡ ([], off)
unfolding parse_loop
parse_loop-cut e k zero off buf h d fits short = refl
parse_loop-cut e k (suc fuel) off buf h d fits short = elim (dec_lt k 4) [
  | yes p ↦ rw (lt→ltb (length buf) (off + 4) (omega arith))
  | no p ↦ rw (
    le→ltb (length buf) (off + 4) (omega arith),
    len p,
    lt→ltb (length buf) (off + (record_header_len + length e.payload + 4)) (omega arith),
  )
]
  where
    len : ¬ k < 4 → u32_at off buf ≡ length e.payload
    len p =
        ap (λ b. from_le (take 4 b)) d
        ∙ (ap from_le (take-drop-take 4 0 k (encode_record e) (omega arith))
            ∙ rw (append-nil (encode_record e)) at (len_field e h []))
