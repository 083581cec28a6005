-- ===== src/Sap/Crash.antt =====
-- What a crash leaves of a segment: its bytes up to any point.
use timberfs.Prelude.{
  ℕ, zero, suc, ◌+◌, ◌-◌, ◌≤◌, ◌<◌, ◌≡◌, refl, ap, ◌∙◌, sym, List, [], ◌∷◌, ◌++◌, map, concat,
  length, take, drop, All, arith, true, leb, if◌then◌else◌,
}
use timberfs.Prelude.{
  length-append, length-take, append-nil, append_assoc, take-append_le, take-append_ge, Bool-cases,
  leb→le, inl, inr, drop-append_eq, le→leb, lt→leb, leb→lt, lt→ltb, take_all,
}
use timberfs.Sap.{SapEntry, encode_record, parse_loop, parse_records}
use timberfs.Sap.Record.{IsEntry, size, length-encode_record, parse_loop-record, parse_loop-cut}

-- The bytes of the entries, in order.
abbrev pub encode_all : List SapEntry → List ℕ
encode_all es = concat (map encode_record es)

-- The entries whose records lie wholly within the first `k` bytes.
unfoldable pub whole_within : ℕ → List SapEntry → List SapEntry
whole_within k [] = []
whole_within k (e ∷ es) = if leb (size e) k then e ∷ whole_within (k - size e) es else []

-- At the end of the buffer there is nothing more to read.
parse_loop_end :
    (fuel off : ℕ) (buf : List ℕ) → length buf ≤ off → parse_loop fuel off buf ≡ ([], off)
unfolding parse_loop
parse_loop_end zero off buf h = refl
parse_loop_end (suc fuel) off buf h = rw (lt→ltb (length buf) (off + 4) (omega arith))

parse_loop-take :
    (es : List SapEntry) (k fuel : ℕ) (pre : List ℕ)
    → All IsEntry es
    → k ≤ length (encode_all es)
    → k ≤ fuel
    → parse_loop fuel (length pre) (pre ++ take k (encode_all es))
      ≡ (whole_within k es, length pre + length (encode_all (whole_within k es)))
unfolding whole_within
parse_loop-take [] k fuel pre h hk hf =
    rw (take_all {A = ℕ} k [] (omega arith), append-nil pre)
      (parse_loop_end fuel (length pre) pre (omega arith) ∙ ap (λ (n : ℕ). ([], n)) (omega arith))
parse_loop-take (e ∷ es) k zero pre (he, h) hk hf =
    rw (lt→leb (size e) k (omega arith))
      (unfold parse_loop in ap (λ (n : ℕ). ([], n)) (omega arith))
parse_loop-take (e ∷ es) k (suc fuel) pre (he, h) hk hf = elim (Bool-cases (leb (size e) k)) [
  | inl fits ↦
      let tail = take (k - size e) (encode_all es) in
      let buf = pre ++ (encode_record e ++ tail) in
      let ih =
        parse_loop-take es (k - size e) fuel (pre ++ encode_record e) h (rest_le fits)
          (omega (arith, leb→le (size e) k fits)) in
      rw (fits, cut_behind fits)
        (parse_loop-record e he tail fuel (length pre) buf (drop-append_eq (length pre) pre _ refl)
            (room tail)
          ∙ continued tail (k - size e) ih)
  | inr cut ↦
      let short : k < size e = leb→lt (size e) k cut in
      rw
        (
          cut,
          take-append_le k (encode_record e) (encode_all es)
              (omega (arith, short, length-encode_record e)),
        )
        (parse_loop-cut e k (suc fuel) (length pre) _ he (drop-append_eq (length pre) pre _ refl)
            (omega (
              arith,
              length-append pre (take k (encode_record e)),
              length-take k (encode_record e),
              length-encode_record e,
              short,
            ))
            short
          ∙ ap (λ (n : ℕ). ([], n)) (omega arith))
]
  where
    rest_le : leb (size e) k ≡ true → k - size e ≤ length (encode_all es)
    rest_le fits =
        omega (arith, hk, length-append (encode_record e) (encode_all es), length-encode_record e)

    cut_behind :
        leb (size e) k ≡ true
        → take k (encode_record e ++ encode_all es)
          ≡ encode_record e ++ take (k - size e) (encode_all es)
    cut_behind fits =
        take-append_ge k (k - size e) (encode_record e) (encode_all es)
          (omega (arith, leb→le (size e) k fits, length-encode_record e))

    continued :
        (tail : List ℕ) (j : ℕ)
        → parse_loop fuel (length (pre ++ encode_record e)) ((pre ++ encode_record e) ++ tail) ≡ (
          whole_within j es,
          length (pre ++ encode_record e) + length (encode_all (whole_within j es)),
        )
        → ◌≡◌ {A = List SapEntry × ℕ}
            (
              e ∷ (parse_loop fuel (length pre + size e) (pre ++ (encode_record e ++ tail))).0,
              (parse_loop fuel (length pre + size e) (pre ++ (encode_record e ++ tail))).1,
            )
            (
              e ∷ whole_within j es,
              length pre + length (encode_record e ++ encode_all (whole_within j es)),
            )
    continued tail j ih =
        rw (← append_assoc pre (encode_record e) tail, start)
          (ap (λ (p : List SapEntry × ℕ). (e ∷ p.0, p.1)) ih
            ∙ ap (λ (n : ℕ). (e ∷ whole_within j es, n)) ends)
      where
        start : length pre + size e ≡ length (pre ++ encode_record e)
        start = omega (arith, length-append pre (encode_record e), length-encode_record e)

        ends :
            length (pre ++ encode_record e) + length (encode_all (whole_within j es))
            ≡ length pre + length (encode_record e ++ encode_all (whole_within j es))
        ends = omega (
          arith,
          length-append pre (encode_record e),
          length-append (encode_record e) (encode_all (whole_within j es)),
        )

    room : (tail : List ℕ) → length pre + size e ≤ length (pre ++ (encode_record e ++ tail))
    room tail = omega (
      arith,
      length-append pre (encode_record e ++ tail),
      length-append (encode_record e) tail,
      length-encode_record e,
    )

-- Whatever is left of a sequence of records after a crash, cut at any byte `k`, the replay returns
-- exactly the entries whose records are whole before the cut, and the offset where the last of them
-- ends.
pub parse_records-take :
    (es : List SapEntry) (k : ℕ)
    → All IsEntry es
    → k ≤ length (encode_all es)
    → parse_records (take k (encode_all es))
      ≡ (whole_within k es, length (encode_all (whole_within k es)))
unfolding parse_records
parse_records-take es k h hk =
    parse_loop-take es k (length (take k (encode_all es))) [] h hk
      (omega (arith, length-take k (encode_all es)))
    ∙ ap (λ (n : ℕ). (whole_within k es, n)) (omega arith)

-- A longer cut keeps every entry of a shorter one: what was whole when the segment was synced with
-- `length (encode_all es)` bytes of records is recovered from any later crash.
pub whole_within-append :
    (es later : List SapEntry) (k : ℕ)
    → length (encode_all es) ≤ k
    → whole_within k (es ++ later) ≡ es ++ whole_within (k - length (encode_all es)) later
unfolding whole_within
whole_within-append [] later k h = ap (λ (n : ℕ). whole_within n later) (omega arith)
whole_within-append (e ∷ es) later k h =
    rw
      (
        le→leb (size e) k (omega (arith, sizes, h)),
        whole_within-append es later (k - size e) (omega (arith, sizes, h)),
      )
      (ap (λ (n : ℕ). e ∷ (es ++ whole_within n later)) (omega (arith, sizes)))
  where
    sizes : length (encode_record e ++ encode_all es) ≡ size e + length (encode_all es)
    sizes = omega (arith, length-append (encode_record e) (encode_all es), length-encode_record e)

-- Uncut, all of them.
pub whole_within_all : (es : List SapEntry) → whole_within (length (encode_all es)) es ≡ es
unfolding whole_within
whole_within_all es =
    ap (whole_within (length (encode_all es))) (sym (append-nil es))
    ∙ whole_within-append es [] (length (encode_all es)) (omega arith)
    ∙ append-nil es

pub whole_within-prefix :
    (k : ℕ) (es : List SapEntry) → whole_within k es ++ drop (length (whole_within k es)) es ≡ es
unfolding whole_within
whole_within-prefix k [] = refl
whole_within-prefix k (e ∷ es) = elim (Bool-cases (leb (size e) k)) [
  | inl fits ↦ rw (fits) (ap (λ t. e ∷ t) (whole_within-prefix (k - size e) es))
  | inr cut ↦ rw (cut)
]

pub length-whole_within : (k : ℕ) (es : List SapEntry) → length (encode_all (whole_within k es)) ≤ k
unfolding whole_within
length-whole_within k [] = omega arith
length-whole_within k (e ∷ es) = elim (Bool-cases (leb (size e) k)) [
  | inl fits ↦ rw (fits) (
      omega (
        arith,
        leb→le (size e) k fits,
        length-append (encode_record e) (encode_all (whole_within (k - size e) es)),
        length-encode_record e,
        length-whole_within (k - size e) es,
      ))
  | inr cut ↦ rw (cut) (omega arith)
]

pub All-whole_within :
    (k : ℕ) (es : List SapEntry) → All IsEntry es → All IsEntry (whole_within k es)
unfolding whole_within
All-whole_within k [] h = tt
All-whole_within k (e ∷ es) (he, h) = elim (Bool-cases (leb (size e) k)) [
  | inl fits ↦ rw (fits) (he, All-whole_within (k - size e) es h)
  | inr cut ↦ rw (cut) tt
]
