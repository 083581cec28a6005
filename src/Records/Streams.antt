-- ===== src/Records/Streams.antt =====
-- What a consumer of src/records.rs gets of a whole stream, and of one that is cut inside a record.
use timberfs.Prelude.{
  ℕ, zero, suc, ◌+◌, ◌-◌, ◌^◌, ◌≤◌, ◌<◌, ◌≡◌, refl, ap, ◌∙◌, sym, true, List, [], ◌∷◌, ◌++◌, Option,
  none, some, length, take, drop, arith, err, ltb, leb, ◌==◌, lt→ltb, le→leb, leb→le, leb→lt,
  append-nil, length-append, length-drop, length-take, take-append_le, take-append_ge,
  drop-append_eq, Bool-cases, inl, inr,
}
use timberfs.Records.{
  record_mark, map_suc, position, FrameError, mid_record, mid_payload, add_usize, with_body,
  with_nul, next, frames,
}
use timberfs.Records.Walk.{
  encode, IsRecord, Parts, encode_all, frames_of, AllRecords, frames_loop-records, one_round,
  header_read, more_left,
}

length-records : (rs : List Parts) → length rs ≤ length (encode_all rs)
length-records [] = omega arith
length-records ((body, none) ∷ rs) =
    omega (arith, length-records rs, length-append (encode body none) (encode_all rs))
length-records ((body, some p) ∷ rs) =
    omega (arith, length-records rs, length-append (encode body (some p)) (encode_all rs))

at_end : (buf : List ℕ) (at : ℕ) → length buf ≤ at → next buf at ≡ none
unfolding next
at_end buf at h = rw (le→leb (length buf) at h)

-- A stream of whole records is walked as these records, each with the bytes it was written with.
pub frames-encode :
    (rs : List Parts)
    → AllRecords rs
    → length (encode_all rs) < 2 ^ 64
    → frames (encode_all rs) ≡ (frames_of rs, none)
unfolding frames
frames-encode rs h fits =
    frames_loop-records (encode_all rs) fits rs [] (suc (length (encode_all rs))) (suc k) 0 fuel h
      (omega arith) (sym (append-nil (encode_all rs)))
    ∙ rw
        (
          one_round (encode_all rs) fits k (0 + length (encode_all rs)),
          at_end (encode_all rs) (0 + length (encode_all rs)) (omega arith),
          append-nil (frames_of rs),
        )
        refl
  where
    k : ℕ
    k = length (encode_all rs) - length rs

    fuel : suc (length (encode_all rs)) ≡ length rs + suc k
    fuel = omega (arith, length-records rs)

position-take : (k : ℕ) (body : List ℕ) → position 0 body ≡ none → position 0 (take k body) ≡ none
unfolding position
position-take zero body e = refl
position-take (suc k) [] e = refl
position-take (suc k) (b ∷ bs) e = elim (Bool-cases (b == 0)) [
  | inl t ↦ cc (rw t at e)
  | inr t ↦ rw (t, position-take k bs (later (position 0 bs) (rw t at e))) refl
]
  where
    later : (o : Option ℕ) → map_suc o ≡ none → o ≡ none
    later none h = refl
    later (some n) h = cc

-- The header itself is cut.
cut_header :
    (buf : List ℕ) (at : ℕ) (body : List ℕ) (k : ℕ)
    → position 0 body ≡ none
    → drop at buf ≡ record_mark ∷ take k body
    → next buf at ≡ some (err mid_record)
unfolding position
cut_header buf at body k no_nul e =
    more_left buf at (omega (arith, length-drop at buf, ap length e))
    ∙ ap (λ rest. some (with_nul buf at rest (position 0 rest))) e
    ∙ ap (λ o. some (with_nul buf at (record_mark ∷ take k body) (map_suc o)))
        (position-take k body no_nul)

-- Its payload is.
cut_payload :
    (buf : List ℕ) (at : ℕ) (body p : List ℕ) (m : ℕ)
    → IsRecord body (some p)
    → at + length (encode body (some p)) < 2 ^ 64
    → m < length p + 1
    → drop at buf ≡ record_mark ∷ (body ++ (0 ∷ take m (p ++ (0 ∷ []))))
    → next buf at ≡ some (err mid_payload)
unfolding with_body
cut_payload buf at body p m r fits short e =
    header_read buf at body (take m (p ++ (0 ∷ []))) r.no_nul e
    ∙ rw (r.framed.0, r.framed.1, cut) refl
  where
    size : length (encode body (some p)) ≡ length body + (length p + 3)
    size = omega (arith, length-append body (0 ∷ (p ++ (0 ∷ []))), length-append p (0 ∷ []))

    there : length buf ≡ at + (length body + 2 + m)
    there = omega (
      arith,
      length-drop at buf,
      ap length e,
      length-append body (0 ∷ take m (p ++ (0 ∷ []))),
      length-take m (p ++ (0 ∷ [])),
      length-append p (0 ∷ []),
    )

    cut :
        ltb (length buf) (add_usize at (add_usize (suc (length body) + 1) (add_usize (length p) 1)))
        ≡ true
    cut = lt→ltb (length buf) _ (omega (arith, size, there, fits, short))

-- What is left is a part of a record, its first byte at least and not the whole.
cut_record :
    (buf : List ℕ) (at : ℕ) (body : List ℕ) (payload : Option (List ℕ)) (k : ℕ)
    → IsRecord body payload
    → at + length (encode body payload) < 2 ^ 64
    → suc k < length (encode body payload)
    → drop at buf ≡ take (suc k) (encode body payload)
    → (e : FrameError) × (next buf at ≡ some (err e))
cut_record buf at body none k r fits short e = (
  mid_record,
  cut_header buf at body k r.no_nul (
      e
      ∙ ap (λ t. record_mark ∷ t)
          (take-append_le k body (0 ∷ []) (omega (arith, short, length-append body (0 ∷ []))))),
)
cut_record buf at body (some p) k r fits short e = elim (Bool-cases (leb k (length body))) [
  | inl h ↦ (
    mid_record,
    cut_header buf at body k r.no_nul (
        e
        ∙ ap (λ t. record_mark ∷ t)
            (take-append_le k body (0 ∷ (p ++ (0 ∷ []))) (leb→le k (length body) h))),
  )
  | inr h ↦ (
    mid_payload,
    cut_payload buf at body p (k - suc (length body)) r fits
        (omega (
          arith,
          short,
          leb→lt k (length body) h,
          length-append body (0 ∷ (p ++ (0 ∷ []))),
          length-append p (0 ∷ []),
        ))
        (e
          ∙ ap (λ t. record_mark ∷ t)
              (take-append_ge k (suc (k - suc (length body))) body (0 ∷ (p ++ (0 ∷ [])))
                (omega (arith, leb→lt k (length body) h)))),
  )
]

-- A stream that is cut inside a record, by one byte of it or by all but one, is walked as the whole
-- records before that, and then an error: never as a shorter stream that is complete.
pub frames-cut :
    (rs : List Parts) (body : List ℕ) (payload : Option (List ℕ)) (k : ℕ)
    → AllRecords rs
    → IsRecord body payload
    → length (encode_all rs) + length (encode body payload) < 2 ^ 64
    → suc k < length (encode body payload)
    → (e : FrameError) × (frames (encode_all rs ++ take (suc k) (encode body payload))
        ≡ (frames_of rs, some e))
unfolding frames
frames-cut rs body payload k h r fits short = (
  found.0,
  frames_loop-records buf small rs (take (suc k) (encode body payload)) (suc (length buf))
        (suc left) 0 fuel h (omega arith) refl
      ∙ rw
          (
            one_round buf small left (0 + length (encode_all rs)),
            found.1,
            append-nil (frames_of rs),
          )
          refl,
)
  where
    buf : List ℕ
    buf = encode_all rs ++ take (suc k) (encode body payload)

    size :
        length (encode_all rs ++ take (suc k) (encode body payload))
        ≡ length (encode_all rs) + suc k
    size = omega (
      arith,
      short,
      length-append (encode_all rs) (take (suc k) (encode body payload)),
      length-take (suc k) (encode body payload),
    )

    small : length (encode_all rs ++ take (suc k) (encode body payload)) < 2 ^ 64
    small = omega (arith, size, fits, short)

    left : ℕ
    left = length (encode_all rs ++ take (suc k) (encode body payload)) - length rs

    fuel : suc (length (encode_all rs ++ take (suc k) (encode body payload))) ≡ length rs + suc left
    fuel = omega (arith, length-records rs, size)

    found : (e : FrameError) × (next buf (0 + length (encode_all rs)) ≡ some (err e))
    found =
        cut_record buf (0 + length (encode_all rs)) body payload k r (omega (arith, fits)) short (
          drop-append_eq (0 + length (encode_all rs)) (encode_all rs)
            (take (suc k) (encode body payload)) (omega arith))
