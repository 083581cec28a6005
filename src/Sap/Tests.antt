-- ===== src/Sap/Tests.antt =====
-- Tests of the write-ahead sidecar, and its theorems at concrete inputs.
use timberfs.Prelude.{ℕ, ◌+◌, ◌-◌, ◌≡◌, refl, List, [], ◌∷◌, ◌++◌, some, length, take, arith}
use timberfs.Bytes.{to_le, from_le, IsByte}
use timberfs.Sap.{
  header_bytes, SapEntry, SapReplay, encode_record, record_body, crc32, replay, create, append,
  resume, refresh_base,
}
use timberfs.Sap.Record.{IsEntry}
use timberfs.Sap.Crash.{encode_all, whole_within}
use timberfs.Sap.Segment.{
  segment, Holds, create-Holds, append-Holds, refresh_base-segment, replay-segment, replay-synced,
}
use timberfs.Prelude.{Bool, true, false, ltb, ltb→lt, Bool-cases, inl, inr, if◌then◌else◌, All, ◌≤◌}
use timberfs.Sap.Sound.{replay-Holds}
use timberfs.Sap.Resume.{replay-resume}

-- The check value of CRC-32, over "123456789".
crc32_check : crc32 (b'1' ∷ b'2' ∷ b'3' ∷ b'4' ∷ b'5' ∷ b'6' ∷ b'7' ∷ b'8' ∷ b'9' ∷ []) ≡ 0xCBF43926
unfolding crc32
crc32_check = refl

abbrev one : SapEntry
one = record { wf = 5; wl = 6; payload = 1 ∷ 2 ∷ [] }

abbrev other : SapEntry
other = record { wf = 7; wl = 9; payload = 3 ∷ [] }

one-IsEntry : IsEntry one
one-IsEntry = record { wf = omega arith; wl = omega arith; payload = omega arith }

other-IsEntry : IsEntry other
other-IsEntry = record { wf = omega arith; wl = omega arith; payload = omega arith }

abbrev both : List SapEntry
both = one ∷ other ∷ []

-- The first record takes 26 bytes and the second 25; the cut at byte 40 is inside the second.
both_bytes : length (encode_all both) ≡ 51
unfolding encode_record record_body to_le
both_bytes = refl

one_bytes : length (encode_all (one ∷ [])) ≡ 26
unfolding encode_record record_body to_le
one_bytes = refl

whole_at_40 : whole_within 40 both ≡ one ∷ []
unfolding whole_within
whole_at_40 = refl

replay-segment_example : replay (some (take (24 + 40) (segment 100 1000 both))) ≡ (
  some (record {
    base = 100;
    uncomp_base = 1000;
    entries = whole_within 40 both;
    valid_len = 24 + length (encode_all (whole_within 40 both));
  }),
  some (take (24 + 40) (segment 100 1000 both)),
)
replay-segment_example =
    replay-segment 100 1000 both 40 (omega arith) (omega arith) (one-IsEntry, (other-IsEntry, tt))
      (omega (arith, both_bytes))

replay-synced_example :
    (r : SapReplay) × ((replay
        (some (take (24 + 40) (segment 100 1000 ((one ∷ []) ++ (other ∷ [])))))).0
      ≡ some r)
    × (r.entries ≡ (one ∷ []) ++ whole_within (40 - length (encode_all (one ∷ []))) (other ∷ []))
replay-synced_example =
    replay-synced 100 1000 (one ∷ []) (other ∷ []) 40 (omega arith) (omega arith)
      (one-IsEntry, (other-IsEntry, tt)) (omega (arith, one_bytes)) (omega (arith, both_bytes))

refresh_base-segment_example :
    ((refresh_base 90 1000 (append one (create 100 1000))).bytes ≡ segment 90 1000 (one ∷ []))
    × ((refresh_base 90 1000 (append one (create 100 1000))).base ≡ 90)
    × ((refresh_base 90 1000 (append one (create 100 1000))).uncomp_base ≡ 1000)
    × (replay (some (refresh_base 90 1000 (append one (create 100 1000))).bytes) ≡ (
      some (record {
        base = 90;
        uncomp_base = 1000;
        entries = one ∷ [];
        valid_len = 24 + length (encode_all (one ∷ []));
      }),
      some (segment 90 1000 (one ∷ [])),
    ))
refresh_base-segment_example =
    refresh_base-segment 90 1000 (append one (create 100 1000)) (one ∷ []) (omega arith)
      (omega arith) (one-IsEntry, tt)
      (append-Holds one (create 100 1000) [] (create-Holds 100 1000))

abbrev cut_at_40 : List ℕ
cut_at_40 = take (24 + 40) (segment 100 1000 both)

replay-resume_example :
    (r : SapReplay) × ((replay (some cut_at_40)).0 ≡ some r)
    × Holds (resume cut_at_40 r.base r.uncomp_base r.valid_len) (whole_within 40 both)
    × ((replay (some (append other (resume cut_at_40 r.base r.uncomp_base r.valid_len)).bytes)).0
        ≡ some (record {
          base = 100;
          uncomp_base = 1000;
          entries = whole_within 40 both ++ (other ∷ []);
          valid_len = 24 + length (encode_all (whole_within 40 both ++ (other ∷ [])));
        }))
replay-resume_example =
    replay-resume 100 1000 both other 40 (omega arith) (omega arith)
      (one-IsEntry, (other-IsEntry, tt)) other-IsEntry (omega (arith, both_bytes))

-- Both records whole, and the last byte of the second one's checksum changed.
abbrev damaged : List ℕ
damaged = take (24 + 50) (segment 100 1000 both) ++ (7 ∷ [])

all_bytes : List ℕ → Bool
all_bytes [] = true
all_bytes (b ∷ bs) = if ltb b 256 then all_bytes bs else false

checked : (bs : List ℕ) → all_bytes bs ≡ true → All IsByte bs
unfolding all_bytes
checked [] e = tt
checked (b ∷ bs) e = elim (Bool-cases (ltb b 256)) [
  | inl small ↦ (ltb→lt b 256 small, checked bs (rw small at e))
  | inr large ↦ cc
]

damaged-IsByte : All IsByte damaged
unfolding all_bytes encode_record record_body crc32 to_le header_bytes
damaged-IsByte = checked damaged refl

abbrev found : SapReplay
found = record { base = 100; uncomp_base = 1000; entries = one ∷ []; valid_len = 50 }

damaged_result : (replay (some damaged)).0 ≡ some found
unfolding replay encode_record record_body crc32 to_le from_le header_bytes
damaged_result = refl

replay-Holds_example :
    (50 ≤ length damaged)
    × (take 50 damaged ≡ segment 100 1000 (one ∷ []))
    × Holds (resume damaged 100 1000 50) (one ∷ [])
replay-Holds_example = replay-Holds damaged found damaged-IsByte damaged_result
