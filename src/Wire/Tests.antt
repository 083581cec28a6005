-- ===== src/Wire/Tests.antt =====
-- Tests of the wire codec, and its theorems at concrete inputs.
use timberfs.Prelude.{◌<◌, ◌≡◌, refl, [], ◌∷◌, ◌++◌, none, some, length, take, replicate, arith, ok}
use timberfs.Bytes.{to_le}
use timberfs.Wire.{chunk, Framed, payload_of, encode}
use timberfs.Wire.Decode.{decode}
use timberfs.Wire.RoundTrip.{IsFramed, decode-encode}
use timberfs.Wire.Partial.{decode-take}

-- A chunk of two stored bytes, with one sidecar.
abbrev frame : Framed
frame = record {
  stream = 3;
  frame =
      chunk 5 10 2 (some (1 ∷ 2 ∷ [])) 7 8 (record { kind = replicate 8 65; bytes = 9 ∷ [] } ∷ []);
}

frame-IsFramed : IsFramed frame
unfolding payload_of
frame-IsFramed = record {
  stream = omega arith;
  kind = omega arith;
  fields = (
    omega arith,
    omega arith,
    omega arith,
    omega arith,
    omega arith,
    (omega arith, refl),
    record { number = omega arith; tags = (refl, tt); lengths = (omega arith, tt) },
  );
  capped = omega arith;
}

decode-encode_example :
    decode (encode frame ++ (1 ∷ 2 ∷ 3 ∷ [])) ≡ ok (some (frame, length (encode frame)))
decode-encode_example = decode-encode frame (1 ∷ 2 ∷ 3 ∷ []) frame-IsFramed

decode-take_example : decode (take 40 (encode frame)) ≡ ok none
decode-take_example = decode-take frame 40 frame-IsFramed longer
  where
    longer : 40 < length (encode frame)
    longer = unfold encode payload_of to_le in omega arith
