-- ===== src/Wire/Partial.antt =====
-- `decode` of src/frame.rs on a buffer that does not hold a whole frame.
use timberfs.Prelude.{
  ℕ, suc, ◌+◌, ◌-◌, ◌≤◌, ◌<◌, ◌≡◌, refl, ap, ◌∙◌, List, none, length, take, arith, ok, ltb, le→ltb,
  lt→ltb, ltb→lt, ltb→le, length-take, Bool-cases, inl, inr,
}
use timberfs.Bytes.{to_le}
use timberfs.Wire.{Framed, wire_kind, max_payload, payload_of, encode}
use timberfs.Wire.Decode.{decode}
use timberfs.Wire.RoundTrip.{IsFramed, header_then, len_read, length-header, length-encode}

short_header : (buf : List ℕ) → length buf < 12 → decode buf ≡ ok none
unfolding decode
short_header buf h = rw (lt→ltb (length buf) 12 h) refl

short_payload :
    (a b n : ℕ) (t : List ℕ)
    → n ≤ max_payload
    → length t < n
    → decode (header_then a b n t) ≡ ok none
unfolding decode
short_payload a b n t capped h =
    rw
      (
        len_read a b n t (omega (arith, capped)),
        le→ltb (length (header_then a b n t)) 12 (omega (arith, length-header a b n t)),
        le→ltb max_payload n capped,
        lt→ltb (length (header_then a b n t)) (12 + n) (omega (arith, length-header a b n t, h)),
      )
      refl

take-header :
    (a b n j k : ℕ) (t : List ℕ)
    → k ≡ 12 + j
    → take k (header_then a b n t) ≡ header_then a b n (take j t)
unfolding to_le
take-header a b n j k t e =
    let twelve : k ≡ suc (suc (suc (suc (suc (suc (suc (suc (suc (suc (suc (suc j))))))))))) =
      omega (arith, e) in
    rw twelve refl

take-encode :
    (f : Framed) (j k : ℕ)
    → k ≡ 12 + j
    → take k (encode f)
      ≡ header_then f.stream
          (wire_kind f.frame)
          (length (payload_of f.frame))
          (take j (payload_of f.frame))
unfolding encode
take-encode f j k e =
    take-header f.stream (wire_kind f.frame) (length (payload_of f.frame)) j k (payload_of f.frame)
      e

-- A part of a frame is neither a frame nor an error: the reader is told to wait for more.
pub decode-take :
    (f : Framed) (k : ℕ) → IsFramed f → k < length (encode f) → decode (take k (encode f)) ≡ ok none
decode-take f k h short = elim (Bool-cases (ltb k 12)) [
  | inl e ↦
      short_header (take k (encode f)) (omega (arith, ltb→lt k 12 e, length-take k (encode f)))
  | inr e ↦
      ap decode (take-encode f (k - 12) k (omega (arith, ltb→le k 12 e)))
      ∙ short_payload f.stream (wire_kind f.frame) (length (payload_of f.frame))
          (take (k - 12) (payload_of f.frame)) h.capped
          (omega (
            arith,
            short,
            length-encode f,
            length-take (k - 12) (payload_of f.frame),
            ltb→le k 12 e,
          ))
]
