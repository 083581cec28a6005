-- ===== src/Protobuf/Tests.antt =====
-- Tests of the wire codec, and its theorems at concrete inputs.
use timberfs.Prelude.{◌≡◌, refl, [], ◌∷◌, ◌++◌, ok, arith}
use timberfs.Protobuf.{put_varint, read_key}
use timberfs.Protobuf.Field.{number, write, read, body, read-write}

three_hundred : put_varint 300 ≡ 172 ∷ 2 ∷ []
unfolding put_varint
three_hundred = refl

read-write_example :
    (read_key (write 9 (number 300) ++ (7 ∷ [])) ≡ ok ((9, 0), body (number 300) ++ (7 ∷ [])))
    × (read (number 300) (body (number 300) ++ (7 ∷ [])) ≡ ok (number 300, 7 ∷ []))
read-write_example = read-write 9 (number 300) (7 ∷ []) (omega arith) (omega arith) (omega arith)
