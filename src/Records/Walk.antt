-- ===== src/Records/Walk.antt =====
-- Whole streams, and streams that are cut, under the walk of src/records.rs.
use timberfs.Prelude.{
  ℕ, zero, suc, ◌+◌, ◌-◌, ◌^◌, ◌≤◌, ◌<◌, ◌≡◌, refl, ap, ◌∙◌, sym, true, false, List, [], ◌∷◌, ◌++◌,
  map, concat, Option, none, some, length, drop, All, arith, ok, ltb, ◌==◌, lt→leb, le→ltb,
  append_assoc, length-append, length-drop, take_len_append, drop-append_eq, drop-drop, Bool-cases,
  inl, inr,
}
use timberfs.Records.{
  record_mark, map_suc, position, strip_prefix, kind_of, has_payload, number, len_key, Frame,
  FrameError, add_usize, frame_at, with_body, with_nul, next, frames_from, frames_loop,
}

-- A record as a producer writes it: its header, and the payload where its kind has one.
abbrev pub encode : List ℕ → Option (List ℕ) → List ℕ
encode body none = record_mark ∷ (body ++ (0 ∷ []))
encode body (some p) = record_mark ∷ (body ++ (0 ∷ (p ++ (0 ∷ []))))

abbrev pub Framed : List ℕ → Option (List ℕ) → Type 0
Framed body none = has_payload (kind_of body) ≡ false
Framed body (some p) =
    (has_payload (kind_of body) ≡ true) × (number (record_mark ∷ body) len_key ≡ some (length p))

-- No NUL in the header; and a payload of the length that the header states, for the kinds that have one.
pub record IsRecord (body : List ℕ) (payload : Option (List ℕ)) : Type 0 where
  pub no_nul : position 0 body ≡ none
  pub framed : Framed body payload

abbrev pub frame_of : List ℕ → Option (List ℕ) → Frame
frame_of body payload = record {
  kind = kind_of body;
  bytes = encode body payload;
  hdr = record_mark ∷ body;
}

position-append :
    (body post : List ℕ)
    → position 0 body ≡ none
    → position 0 (body ++ (0 ∷ post)) ≡ some (length body)
unfolding position
position-append [] post e = refl
position-append (b ∷ bs) post e = elim (Bool-cases (b == 0)) [
  | inl t ↦ cc (rw t at e)
  | inr t ↦ rw (t, position-append bs post (later (position 0 bs) (rw t at e))) refl
]
  where
    later : (o : Option ℕ) → map_suc o ≡ none → o ≡ none
    later none h = refl
    later (some n) h = cc

module _ (buf : List ℕ) (at : ℕ) where
  pub more_left :
      at < length buf
      → next buf at ≡ some (with_nul buf at (drop at buf) (position 0 (drop at buf)))
  unfolding next
  more_left h = rw (lt→leb (length buf) at h) refl

  nul_read :
      (body tail : List ℕ)
      → position 0 body ≡ none
      → with_nul buf at
          (record_mark ∷ (body ++ (0 ∷ tail)))
          (position 0 (record_mark ∷ (body ++ (0 ∷ tail))))
        ≡ with_body buf at (suc (length body)) (record_mark ∷ body) (some body)
  unfolding position strip_prefix
  nul_read body tail no_nul =
      rw (position-append body tail no_nul, take_len_append body (0 ∷ tail)) refl

  pub header_read :
      (body tail : List ℕ)
      → position 0 body ≡ none
      → drop at buf ≡ record_mark ∷ (body ++ (0 ∷ tail))
      → next buf at ≡ some (with_body buf at (suc (length body)) (record_mark ∷ body) (some body))
  header_read body tail no_nul e =
      more_left (omega (arith, length-drop at buf, ap length e))
      ∙ ap (λ rest. some (with_nul buf at rest (position 0 rest))) e
      ∙ ap some (nul_read body tail no_nul)

module _ (buf : List ℕ) (at : ℕ) (fits : length buf < 2 ^ 64) (inside : at ≤ length buf) where
  frame_at-encode :
      (enc post hdr kind : List ℕ) (end : ℕ)
      → drop at buf ≡ enc ++ post
      → end ≡ length enc
      → frame_at buf at end hdr kind
        ≡ ok (record { kind = kind; bytes = enc; hdr = hdr }, at + length enc)
  frame_at-encode enc post hdr kind end e ends =
      rw (sum, le→ltb (at + length enc) at (omega arith), e, cancel, take_len_append enc post) refl
    where
      room : at + length enc ≤ length buf
      room = omega (arith, inside, length-drop at buf, ap length e, length-append enc post)

      sum : add_usize at end ≡ at + length enc
      sum = omega (arith, ends, room, fits)

      cancel : at + length enc - at ≡ length enc
      cancel = omega arith

  -- The walk takes a whole record off the front of what is left.
  next-encode :
      (body : List ℕ) (payload : Option (List ℕ)) (post : List ℕ)
      → IsRecord body payload
      → drop at buf ≡ encode body payload ++ post
      → next buf at ≡ some (ok (frame_of body payload, at + length (encode body payload)))
  unfolding with_body
  next-encode body none post r e =
      header_read buf at body post r.no_nul
        (e ∙ ap (λ t. record_mark ∷ t) (append_assoc body (0 ∷ []) post))
      ∙ rw r.framed (
          ap some (
            frame_at-encode (encode body none) post (record_mark ∷ body) (kind_of body)
              (suc (length body) + 1) e (omega (arith, length-append body (0 ∷ [])))))
  next-encode body (some p) post r e =
      header_read buf at body (p ++ (0 ∷ post)) r.no_nul (
        e
        ∙ ap (λ t. record_mark ∷ t)
            (append_assoc body (0 ∷ (p ++ (0 ∷ []))) post
              ∙ ap (λ t. body ++ (0 ∷ t)) (append_assoc p (0 ∷ []) post)))
      ∙ rw (r.framed.0, r.framed.1, whole)
          (ap some (
            frame_at-encode (encode body (some p)) post (record_mark ∷ body) (kind_of body) _ e
              past))
    where
      size : length (encode body (some p)) ≡ length body + (length p + 3)
      size = omega (arith, length-append body (0 ∷ (p ++ (0 ∷ []))), length-append p (0 ∷ []))

      room : at + length (encode body (some p)) ≤ length buf
      room = omega (
        arith,
        inside,
        length-drop at buf,
        ap length e,
        length-append (encode body (some p)) post,
      )

      past :
          add_usize (suc (length body) + 1) (add_usize (length p) 1) ≡ length (encode body (some p))
      past = omega (arith, size, room, fits)

      whole :
          ltb
            (length buf)
            (add_usize at (add_usize (suc (length body) + 1) (add_usize (length p) 1)))
          ≡ false
      whole = le→ltb (length buf) _ (omega (arith, past, room, fits))

-- A record's header behind the mark, and its payload.
abbrev pub Parts : Type 0
Parts = List ℕ × Option (List ℕ)

abbrev encode_parts : Parts → List ℕ
encode_parts r = encode r.0 r.1

abbrev pub encode_all : List Parts → List ℕ
encode_all rs = concat (map encode_parts rs)

abbrev frame_parts : Parts → Frame
frame_parts r = frame_of r.0 r.1

abbrev pub frames_of : List Parts → List Frame
frames_of rs = map frame_parts rs

abbrev pub AllRecords : List Parts → Type 0
AllRecords rs = All (λ (r : Parts). IsRecord r.0 r.1) rs

-- What the loop has still to do once these records are behind it.
abbrev behind : List Frame → List Frame × Option FrameError → List Frame × Option FrameError
behind fs r = (fs ++ r.0, r.1)

module _ (buf : List ℕ) (fits : length buf < 2 ^ 64) where
  pub one_round :
      (fuel at : ℕ)
      → frames_loop (suc fuel) buf at
        ≡ frames_from (next buf at) (λ later. frames_loop fuel buf later)
  unfolding frames_loop
  one_round fuel at = refl

  pub frames_loop-records :
      (rs : List Parts) (tail : List ℕ) (fuel k at : ℕ)
      → fuel ≡ length rs + k
      → AllRecords rs
      → at ≤ length buf
      → drop at buf ≡ encode_all rs ++ tail
      → frames_loop fuel buf at
        ≡ behind (frames_of rs) (frames_loop k buf (at + length (encode_all rs)))
  frames_loop-records [] tail fuel k at ef h inside e =
      λ i. frames_loop (same_fuel i) buf (same_at i)
    where
      same_fuel : fuel ≡ k
      same_fuel = omega (arith, ef)

      same_at : at ≡ at + 0
      same_at = omega arith
  frames_loop-records (r ∷ rs) tail zero k at ef h inside e = absurd (omega (arith, ef))
  frames_loop-records (r ∷ rs) tail (suc fuel) k at ef (h, hs) inside e =
      one_round fuel at
      ∙ rw
          (
            next-encode buf at fits inside r.0 r.1 (encode_all rs ++ tail) h
                (e ∙ append_assoc (encode_parts r) (encode_all rs) tail),
            frames_loop-records rs tail fuel k (at + length (encode_parts r)) (omega (arith, ef)) hs
                room later,
            further,
          )
          refl
    where
      room : at + length (encode_parts r) ≤ length buf
      room = omega (
        arith,
        inside,
        length-drop at buf,
        ap length e,
        length-append (encode_parts r ++ encode_all rs) tail,
        length-append (encode_parts r) (encode_all rs),
      )

      later : drop (at + length (encode_parts r)) buf ≡ encode_all rs ++ tail
      later =
          sym (drop-drop at (length (encode_parts r)) (at + length (encode_parts r)) buf refl)
          ∙ ap (drop (length (encode_parts r)))
              (e ∙ append_assoc (encode_parts r) (encode_all rs) tail)
          ∙ drop-append_eq (length (encode_parts r)) (encode_parts r) (encode_all rs ++ tail) refl

      further :
          at + length (encode_parts r) + length (encode_all rs)
          ≡ at + length (encode_parts r ++ encode_all rs)
      further = omega (arith, length-append (encode_parts r) (encode_all rs))
