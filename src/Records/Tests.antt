-- ===== src/Records/Tests.antt =====
-- Tests of the walk over a record stream, and its theorems at concrete inputs.
use timberfs.Prelude.{ℕ, ◌≡◌, refl, List, [], ◌∷◌, ◌++◌, Option, none, some, take, arith, ok}
use timberfs.Records.{FrameError, position, kind_of, has_payload, number, entry_kind, next, frames}
use timberfs.Records.Walk.{encode, IsRecord, Parts, encode_all, frames_of, AllRecords}
use timberfs.Records.Streams.{frames-encode, frames-cut}

-- "entry" with "len=2", and a payload with a NUL in it
abbrev entry : List ℕ
entry = entry_kind ++ (0x1f ∷ b'l' ∷ b'e' ∷ b'n' ∷ b'=' ∷ b'2' ∷ [])

abbrev payload : Option (List ℕ)
payload = some (b'a' ∷ 0 ∷ [])

entry-IsRecord : IsRecord entry payload
unfolding position kind_of has_payload number
entry-IsRecord = record { no_nul = refl; framed = (refl, refl) }

abbrev end_kind : List ℕ
end_kind = b'e' ∷ b'n' ∷ b'd' ∷ []

end-IsRecord : IsRecord end_kind none
unfolding position kind_of has_payload
end-IsRecord = record { no_nul = refl; framed = refl }

abbrev stream : List Parts
stream = (entry, payload) ∷ (end_kind, none) ∷ []

stream-AllRecords : AllRecords stream
stream-AllRecords = (entry-IsRecord, (end-IsRecord, tt))

frames-encode_example : frames (encode_all stream) ≡ (frames_of stream, none)
frames-encode_example = frames-encode stream stream-AllRecords (omega arith)

frames-cut_example :
    (e : FrameError) × (frames (encode_all stream ++ take 14 (encode entry payload))
      ≡ (frames_of stream, some e))
frames-cut_example =
    frames-cut stream entry payload 13 stream-AllRecords entry-IsRecord (omega arith) (omega arith)

-- "len=18446744073709551583": the sum with the 33 bytes around it wraps to nothing, and the walk does
-- not move.
abbrev huge : List ℕ
huge =
    entry_kind
    ++ (0x1f ∷ b'l' ∷ b'e' ∷ b'n' ∷ b'=' ∷ b'1' ∷ b'8' ∷ b'4' ∷ b'4' ∷ b'6' ∷ b'7' ∷ b'4' ∷ b'4'
        ∷ b'0' ∷ b'7' ∷ b'3' ∷ b'7' ∷ b'0' ∷ b'9' ∷ b'5' ∷ b'5' ∷ b'1' ∷ b'5' ∷ b'8' ∷ b'3' ∷ [])

huge_stays :
    next (0x1e ∷ (huge ++ (0 ∷ []))) 0
    ≡ some (ok (record { kind = entry_kind; bytes = []; hdr = 0x1e ∷ huge }, 0))
unfolding next
huge_stays = refl
