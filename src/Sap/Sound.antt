-- ===== src/Sap/Sound.antt =====
-- What a replay returns of a file that nothing is known of: damaged, cut, or not a segment.
use timberfs.Prelude.{
  ℕ, ◌+◌, ◌-◌, ◌≤◌, ◌≡◌, refl, ap, ◌∙◌, sym, List, ◌++◌, length, take, drop, All, arith, some, true,
  false, ltb, not, Bool-cases, inl, inr, ltb→le, length-drop, take-add, All-drop, none, Bool,
  Option, ◌||◌,
}
use mathlib.Core.Path.{subst}
use timberfs.Bytes.{bytes_eq, IsByte, slice, u64_at}
use timberfs.Bytes.LittleEndian.{bytes_eq→eq}
use timberfs.Bytes.File.{set_len_shorter}
use timberfs.Sap.{
  parse_records, resume, header_bytes, sap_magic, SapEntry, SapReplay, parse_loop, replay,
}
use timberfs.Sap.Crash.{encode_all}
use timberfs.Sap.Segment.{segment, Holds}
use timberfs.Sap.Found.{slice-add, to_le-slice, parse_loop-Found}

some_inj : (a b : SapReplay) → some a ≡ some b → a ≡ b
some_inj a b e = cc

none_not_some : (a : SapReplay) → ◌≡◌ {A = Option SapReplay} none (some a) → ⊥
none_not_some a e = cc

-- The bytes that a segment's replay accepts are its header and the records.
header_read :
    (file : List ℕ)
    → All IsByte file
    → 24 ≤ length file
    → take 8 file ≡ sap_magic
    → header_bytes (u64_at 8 file) (u64_at 16 file) ≡ take 24 file
unfolding header_bytes
header_read file bytes long magic =
    rw
      (
        to_le-slice 8 8 file bytes (omega (arith, long)),
        to_le-slice 16 8 file bytes (omega (arith, long)),
      )
      (ap (λ t. t ++ (slice 8 8 file ++ slice 16 8 file)) (sym magic)
        ∙ ap (λ t. take 8 file ++ t) (slice-add 8 8 8 16 16 file refl refl)
        ∙ slice-add 0 8 16 8 24 file refl refl)

accepted : (a b : Bool) → (a || not b) ≡ false → (a ≡ false) × (b ≡ true)
accepted a b h = ground arith

records_read :
    (buf : List ℕ)
    → All IsByte buf
    → ((parse_records buf).1 ≤ length buf)
      × (encode_all (parse_records buf).0 ≡ take (parse_records buf).1 buf)
unfolding parse_records
records_read buf bytes =
    let (start, inside, all) = parse_loop-Found buf bytes (length buf) 0 (omega arith) in
    let from_0 : (parse_loop (length buf) 0 buf).1 - 0 ≡ (parse_loop (length buf) 0 buf).1 =
      omega arith in
    (inside, all ∙ ap (λ (n : ℕ). take n buf) from_0)

-- Whatever bytes a file is made of, where its replay returns something, it is what they say: up to the
-- length to cut the file to, which lies in the file, they are exactly the segment of the entries under
-- the bases that it returned. Resumed with that, the segment holds exactly these entries: no damaged
-- or torn record is among them, nor left in the file.
pub replay-Holds :
    (file : List ℕ) (r : SapReplay)
    → All IsByte file
    → (replay (some file)).0 ≡ some r
    → (r.valid_len ≤ length file)
      × (take r.valid_len file ≡ segment r.base r.uncomp_base r.entries)
      × Holds (resume file r.base r.uncomp_base r.valid_len) r.entries
unfolding replay resume
replay-Holds file r bytes e =
    elim (Bool-cases (ltb (length file) 24 || not (bytes_eq (take 8 file) sap_magic))) [
      | inl bad ↦ absurd (none_not_some r (rw (bad) at e))
      | inr good ↦ subst Sound (some_inj read r (rw (good) at e)) (sound (accepted _ _ good))
    ]
  where
    Sound : SapReplay → Type 0
    Sound q =
        (q.valid_len ≤ length file)
        × (take q.valid_len file ≡ segment q.base q.uncomp_base q.entries)
        × Holds (resume file q.base q.uncomp_base q.valid_len) q.entries

    parsed : List SapEntry × ℕ
    parsed = parse_records (drop 24 file)

    read : SapReplay
    read = record {
      base = u64_at 8 file;
      uncomp_base = u64_at 16 file;
      entries = parsed.0;
      valid_len = 24 + parsed.1;
    }

    sound : (ltb (length file) 24 ≡ false) × (bytes_eq (take 8 file) sap_magic ≡ true) → Sound read
    sound (long, magic) =
        (fits, prefix, record { bytes = set_len_shorter (24 + parsed.1) file fits ∙ prefix })
      where
        behind : All IsByte (drop 24 file)
        behind = All-drop IsByte 24 file bytes

        fits : 24 + parsed.1 ≤ length file
        fits = omega (
          arith,
          ltb→le (length file) 24 long,
          (records_read (drop 24 file) behind).0,
          length-drop 24 file,
        )

        prefix : take (24 + parsed.1) file ≡ segment (u64_at 8 file) (u64_at 16 file) parsed.0
        prefix =
            take-add 24 parsed.1 (24 + parsed.1) file refl
            ∙ ap (λ t. take 24 file ++ t) (sym (records_read (drop 24 file) behind).1)
            ∙ ap (λ t. t ++ encode_all parsed.0)
                (sym (
                  header_read file bytes (ltb→le (length file) 24 long)
                    (bytes_eq→eq (take 8 file) sap_magic magic)))
