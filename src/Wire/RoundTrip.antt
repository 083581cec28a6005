-- ===== src/Wire/RoundTrip.antt =====
-- `decode` of src/frame.rs against `encode`.
use timberfs.Prelude.{
  ℕ, ◌+◌, ◌≤◌, ◌≡◌, refl, ap, ◌∙◌, sym, List, ◌++◌, some, length, take, arith, ok, le→ltb,
  length-append, take-append_eq,
}
use timberfs.Bytes.{to_le, u32_at, slice, IsU32}
use timberfs.Bytes.LittleEndian.{from_le-u32}
use timberfs.Wire.{Framed, wire_kind, max_payload, payload_of, encode}
use timberfs.Wire.Decode.{decode}
use timberfs.Wire.Payloads.{IsFields, get_frame-payload}

-- The twelve bytes before the payload.
abbrev pub header_then : ℕ → ℕ → ℕ → List ℕ → List ℕ
header_then a b n t = to_le 4 a ++ (to_le 4 b ++ (to_le 4 n ++ t))

module _ (a b n : ℕ) (t : List ℕ) where
  stream_read : IsU32 a → u32_at 0 (header_then a b n t) ≡ a
  unfolding to_le
  stream_read h = from_le-u32 a h

  kind_read : IsU32 b → u32_at 4 (header_then a b n t) ≡ b
  unfolding to_le
  kind_read h = from_le-u32 b h

  pub len_read : IsU32 n → u32_at 8 (header_then a b n t) ≡ n
  unfolding to_le
  len_read h = from_le-u32 n h

  pub length-header : length (header_then a b n t) ≡ 12 + length t
  unfolding to_le
  length-header = omega arith

  payload_read : slice 12 n (header_then a b n t) ≡ take n t
  unfolding to_le
  payload_read = refl

-- What a peer may send: fields that fit, and a payload within the cap.
pub record IsFramed (f : Framed) : Type 0 where
  pub stream : IsU32 f.stream
  pub kind : IsU32 (wire_kind f.frame)
  pub fields : IsFields f.frame
  pub capped : length (payload_of f.frame) ≤ max_payload

pub length-encode : (f : Framed) → length (encode f) ≡ 12 + length (payload_of f.frame)
unfolding encode
length-encode f =
    length-header f.stream (wire_kind f.frame) (length (payload_of f.frame)) (payload_of f.frame)

encode-append :
    (f : Framed) (rest : List ℕ)
    → encode f ++ rest
      ≡ header_then f.stream
          (wire_kind f.frame)
          (length (payload_of f.frame))
          (payload_of f.frame ++ rest)
unfolding encode to_le
encode-append f rest = refl

whole :
    (f : Framed) (rest : List ℕ)
    → IsFramed f
    → decode (
        header_then f.stream
          (wire_kind f.frame)
          (length (payload_of f.frame))
          (payload_of f.frame ++ rest))
      ≡ ok (some (f, 12 + length (payload_of f.frame)))
unfolding decode
whole f rest h =
    rw
      (
        len_read f.stream (wire_kind f.frame) (length (payload_of f.frame))
            (payload_of f.frame ++ rest) (omega (arith, h.capped)),
        le→ltb
            (length (
              header_then f.stream (wire_kind f.frame) (length (payload_of f.frame))
                (payload_of f.frame ++ rest)))
            12 (omega (arith, size)),
        le→ltb max_payload (length (payload_of f.frame)) h.capped,
        le→ltb
            (length (
              header_then f.stream (wire_kind f.frame) (length (payload_of f.frame))
                (payload_of f.frame ++ rest)))
            (12 + length (payload_of f.frame))
            (omega (arith, size, length-append (payload_of f.frame) rest)),
        payload_read f.stream (wire_kind f.frame) (length (payload_of f.frame))
            (payload_of f.frame ++ rest),
        take-append_eq (length (payload_of f.frame)) (payload_of f.frame) rest refl,
        kind_read f.stream (wire_kind f.frame) (length (payload_of f.frame))
            (payload_of f.frame ++ rest) h.kind,
        get_frame-payload f.frame h.fields,
        stream_read f.stream (wire_kind f.frame) (length (payload_of f.frame))
            (payload_of f.frame ++ rest) h.stream,
      )
      refl
  where
    size :
        length (
          header_then f.stream
            (wire_kind f.frame)
            (length (payload_of f.frame))
            (payload_of f.frame ++ rest))
        ≡ 12 + length (payload_of f.frame ++ rest)
    size =
        length-header f.stream (wire_kind f.frame) (length (payload_of f.frame))
          (payload_of f.frame ++ rest)

-- A frame that was sent is decoded as itself, with its length, whatever follows it in the buffer: every
-- kind of frame, those of a later version included.
pub decode-encode :
    (f : Framed) (rest : List ℕ)
    → IsFramed f
    → decode (encode f ++ rest) ≡ ok (some (f, length (encode f)))
decode-encode f rest h =
    ap decode (encode-append f rest)
    ∙ whole f rest h
    ∙ ap (λ (n : ℕ). ok (some (f, n))) (sym (length-encode f))
