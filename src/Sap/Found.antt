-- ===== src/Sap/Found.antt =====
-- What the loop of `parse_records` finds in any buffer.
use timberfs.Prelude.{
  ℕ, zero, suc, ◌+◌, ◌-◌, ◌^◌, ◌≤◌, ◌<◌, ◌≡◌, refl, ap, ◌∙◌, sym, List, [], ◌∷◌, ◌++◌, length, take,
  drop, All, arith, true, ltb, ◌==◌, ==_iff, Bool-cases, inl, inr, ltb→le, length-take, length-drop,
  take-add, drop-drop, All-take, All-drop,
}
use native.Mathlib.Nat.{mod-eq_of_lt}
use mathlib.Core.Path.{subst}
use timberfs.Bytes.{IsByte, slice, to_le, from_le, u32_at, u64_at}
use timberfs.Bytes.LittleEndian.{to_le-from_le, from_le-lt}
use timberfs.Sap.{SapEntry, record_body, encode_record, crc32, parse_loop}
use timberfs.Sap.Crash.{encode_all}

-- Two parts of a buffer that lie side by side.
pub slice-add :
    (off m n next all : ℕ) (buf : List ℕ)
    → next ≡ off + m
    → all ≡ m + n
    → slice off m buf ++ slice next n buf ≡ slice off all buf
slice-add off m n next all buf e k =
    ap (λ t. slice off m buf ++ take n t) (sym (drop-drop off m next buf e))
    ∙ sym (take-add m n all (drop off buf) k)

length-slice : (off n : ℕ) (buf : List ℕ) → off + n ≤ length buf → length (slice off n buf) ≡ n
length-slice off n buf h = omega (arith, h, length-take n (drop off buf), length-drop off buf)

-- A field that was read is the bytes that it was read from.
pub to_le-slice :
    (off n : ℕ) (buf : List ℕ)
    → All IsByte buf
    → off + n ≤ length buf
    → to_le n (from_le (slice off n buf)) ≡ slice off n buf
to_le-slice off n buf h inside =
    ap (λ (i : ℕ). to_le i (from_le (slice off n buf))) (sym (length-slice off n buf inside))
    ∙ to_le-from_le (slice off n buf) (All-take IsByte n (drop off buf) (All-drop IsByte off buf h))

module _ (buf : List ℕ) (bytes : All IsByte buf) where
  -- The entry that the loop reads at `off`.
  abbrev entry_at : ℕ → SapEntry
  entry_at off = record {
    wf = u64_at (off + 4) buf;
    wl = u64_at (off + 12) buf;
    payload = slice (off + 20) (u32_at off buf) buf;
  }

  module _ (off : ℕ) (inside : off + (20 + u32_at off buf + 4) ≤ length buf) where
    body_read : record_body (entry_at off) ≡ slice off (20 + u32_at off buf) buf
    unfolding record_body
    body_read =
        rw
          (
            length-slice (off + 20) (u32_at off buf) buf (omega (arith, inside)),
            mod-eq_of_lt small,
            to_le-slice off 4 buf bytes (omega (arith, inside)),
            to_le-slice (off + 4) 8 buf bytes (omega (arith, inside)),
            to_le-slice (off + 12) 8 buf bytes (omega (arith, inside)),
          )
          joined
      where
        small : u32_at off buf < 2 ^ 32
        small =
            subst (λ (w : ℕ). u32_at off buf < 256 ^ w)
              (length-slice off 4 buf (omega (arith, inside)))
              (from_le-lt (slice off 4 buf)
                (All-take IsByte 4 (drop off buf) (All-drop IsByte off buf bytes)))

        joined :
            slice off 4 buf
              ++ (slice (off + 4) 8 buf
                  ++ (slice (off + 12) 8 buf ++ slice (off + 20) (u32_at off buf) buf))
            ≡ slice off (20 + u32_at off buf) buf
        joined =
            ap (λ t. slice off 4 buf ++ (slice (off + 4) 8 buf ++ t))
              (slice-add (off + 12) 8 (u32_at off buf) (off + 20) (8 + u32_at off buf) buf
                (omega arith) refl)
            ∙ ap (λ t. slice off 4 buf ++ t)
                (slice-add (off + 4) 8 (8 + u32_at off buf) (off + 12) (16 + u32_at off buf) buf
                  (omega arith) (omega arith))
            ∙ slice-add off 4 (16 + u32_at off buf) (off + 4) (20 + u32_at off buf) buf refl
                (omega arith)

    record_read :
        (crc32 (slice off (20 + u32_at off buf) buf) == u32_at (off + 20 + u32_at off buf) buf)
          ≡ true
        → encode_record (entry_at off) ≡ slice off (20 + u32_at off buf + 4) buf
    unfolding encode_record
    record_read e =
        rw (body_read, (==_iff _ _).0 e)
          (ap (λ t. slice off (20 + u32_at off buf) buf ++ t)
              (to_le-slice (off + 20 + u32_at off buf) 4 buf bytes (omega (arith, inside)))
            ∙ slice-add off (20 + u32_at off buf) 4 (off + 20 + u32_at off buf)
                (20 + u32_at off buf + 4) buf (omega arith) refl)

  -- What a run of the loop from `off` found: an end inside the buffer, and entries whose records are
  -- exactly the bytes up to there.
  abbrev pub Found : ℕ → List SapEntry × ℕ → Type 0
  Found off p = (off ≤ p.1) × (p.1 ≤ length buf) × (encode_all p.0 ≡ slice off (p.1 - off) buf)

  nothing : (off : ℕ) → off ≤ length buf → Found off ([], off)
  nothing off h =
      let none_left : 0 ≡ off - off = omega arith in
      (omega arith, h, ap (λ (n : ℕ). take n (drop off buf)) none_left)

  one_more :
      (off : ℕ) (e : SapEntry) (total : ℕ) (p : List SapEntry × ℕ)
      → encode_record e ≡ slice off total buf
      → Found (off + total) p
      → Found off (e ∷ p.0, p.1)
  one_more off e total p read (later, inside, all) = (
    omega (arith, later),
    inside,
    ap (λ t. t ++ encode_all p.0) read
        ∙ ap (λ t. slice off total buf ++ t) all
        ∙ slice-add off total (p.1 - (off + total)) (off + total) (p.1 - off) buf refl
            (omega (arith, later)),
  )

  pub parse_loop-Found : (fuel off : ℕ) → off ≤ length buf → Found off (parse_loop fuel off buf)
  unfolding parse_loop
  parse_loop-Found zero off h = nothing off h
  parse_loop-Found (suc fuel) off h = elim (Bool-cases (ltb (length buf) (off + 4))) [
    | inl short ↦ rw (short) (nothing off h)
    | inr long ↦ elim (Bool-cases (ltb (length buf) (off + (20 + u32_at off buf + 4)))) [
      | inl cut ↦ rw (long, cut) (nothing off h)
      | inr whole ↦
          elim (Bool-cases (
            crc32 (slice off (20 + u32_at off buf) buf)
            == u32_at (off + 20 + u32_at off buf) buf)) [
              | inr damaged ↦ rw (long, whole, damaged) (nothing off h)
              | inl good ↦
                  let inside : off + (20 + u32_at off buf + 4) ≤ length buf =
                    ltb→le (length buf) (off + (20 + u32_at off buf + 4)) whole in
                  rw (long, whole, good)
                    (one_more off (entry_at off) (20 + u32_at off buf + 4)
                      (parse_loop fuel (off + (20 + u32_at off buf + 4)) buf)
                      (record_read off inside good)
                      (parse_loop-Found fuel (off + (20 + u32_at off buf + 4)) inside))
            ]
    ]
  ]
