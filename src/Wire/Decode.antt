-- ===== src/Wire/Decode.antt =====
-- The readers of src/frame.rs: `decode`, and the cursor over a payload.
use timberfs.Prelude.{
  ℕ, zero, suc, ◌+◌, ◌-◌, ◌*◌, ◌^◌, min, List, [], ◌∷◌, Option, none, some, length, take, drop,
}
use timberfs.Prelude.{Result, ok, err, ◌>>=◌, ltb, ◌==◌, if◌then◌else◌}
use timberfs.Bytes.{slice, from_le, u32_at, bytes_eq}
use timberfs.Records.{utf8_loop}
use timberfs.Wire.{
  magic, version, hello_len, frame_header_len, sidecar_entry_len, max_payload, from_wire, Hello,
  Run, Sidecar, Frame, Framed, What, FrameError, stream_open, chunk, coverage, accepted, conflict,
  stream_close, unknown, bad_magic, bad_version, incompatible, too_large, inconsistent, bad_utf8,
  what_chunk_payload, what_comp_len, what_first_seq, what_first_write, what_holder_origin,
  what_last_seq, what_last_write, what_mode_field, what_neither_absent_nor_comp_len, what_origin_id,
  what_provenance, what_provenance_length, what_reason, what_reason_length, what_registration_id,
  what_run_count, what_run_count_exceeds, what_run_end, what_run_ends_before, what_run_start,
  what_sender_id, what_seq, what_sidecar_bodies_exceed, what_sidecar_body, what_sidecar_count,
  what_sidecar_count_exceeds, what_sidecar_kind, what_sidecar_length, what_uncomp_len,
}

-- `Cur::take`; a length is below 2^32, and the position with it does not overflow.
unfoldable pub take_bytes : ℕ → What → List ℕ → Result FrameError (List ℕ × List ℕ)
take_bytes n what c = if ltb (length c) n then err (inconsistent what) else ok (take n c, drop n c)

abbrev number_of : List ℕ × List ℕ → Result FrameError (ℕ × List ℕ)
number_of p = ok (from_le p.0, p.1)

unfoldable pub get_u32 : What → List ℕ → Result FrameError (ℕ × List ℕ)
unfolding take_bytes
get_u32 what c = take_bytes 4 what c >>= number_of

unfoldable pub get_u64 : What → List ℕ → Result FrameError (ℕ × List ℕ)
unfolding take_bytes
get_u64 what c = take_bytes 8 what c >>= number_of

-- `Ok(c)` only where `n` entries of this size can be there.
abbrev pub check_count : ℕ → ℕ → What → List ℕ → Result FrameError (List ℕ)
check_count n size what c =
    if ltb (length c) (min (n * size) (2 ^ 64 - 1)) then err (inconsistent what) else ok c

abbrev pub run_of : ℕ → ℕ → Result FrameError Run
run_of start end =
    if ltb end start
    then err (inconsistent what_run_ends_before)
    else ok (record { start = start; end = end })

unfoldable pub runs_loop : ℕ → List ℕ → Result FrameError (List Run × List ℕ)
unfolding get_u64
runs_loop zero c = ok ([], c)
runs_loop (suc n) c = do
  (start, c1) ← get_u64 what_run_start c
  (end, c2) ← get_u64 what_run_end c1
  r ← run_of start end
  (rs, c3) ← runs_loop n c2
  ok (r ∷ rs, c3)

unfoldable pub get_runs : List ℕ → Result FrameError (List Run × List ℕ)
unfolding get_u32 runs_loop
get_runs c = do
  (n, c1) ← get_u32 what_run_count c
  c2 ← check_count n 16 what_run_count_exceeds c1
  runs_loop n c2

unfoldable pub table_loop : ℕ → List ℕ → Result FrameError (List (List ℕ × ℕ) × List ℕ)
unfolding take_bytes get_u32
table_loop zero c = ok ([], c)
table_loop (suc n) c = do
  (kind, c1) ← take_bytes 8 what_sidecar_kind c
  (len, c2) ← get_u32 what_sidecar_length c1
  (table, c3) ← table_loop n c2
  ok ((kind, len) ∷ table, c3)

unfoldable pub get_sidecar_table : List ℕ → Result FrameError (List (List ℕ × ℕ) × List ℕ)
unfolding get_u32 table_loop
get_sidecar_table c = do
  (n, c1) ← get_u32 what_sidecar_count c
  c2 ← check_count n sidecar_entry_len what_sidecar_count_exceeds c1
  table_loop n c2

unfoldable pub get_sidecars : List (List ℕ × ℕ) → List ℕ → Result FrameError (List Sidecar × List ℕ)
unfolding take_bytes
get_sidecars [] c = ok ([], c)
get_sidecars ((kind, len) ∷ table) c = do
  (bytes, c1) ← take_bytes len what_sidecar_body c
  (sidecars, c2) ← get_sidecars table c1
  ok (record { kind = kind; bytes = bytes } ∷ sidecars, c2)

abbrev pub sum_lengths : List (List ℕ × ℕ) → ℕ
sum_lengths [] = 0
sum_lengths ((kind, len) ∷ table) = len + sum_lengths table

-- `remaining().checked_sub(..)`
abbrev pub rest_of : List ℕ → ℕ → Result FrameError ℕ
rest_of c n =
    if ltb (length c) n then err (inconsistent what_sidecar_bodies_exceed) else ok (length c - n)

abbrev pub some_bytes : List ℕ × List ℕ → Result FrameError (Option (List ℕ) × List ℕ)
some_bytes p = ok (some p.0, p.1)

abbrev pub get_comp : ℕ → ℕ → List ℕ → Result FrameError (Option (List ℕ) × List ℕ)
get_comp rest comp_len c =
    if rest == 0
    then ok (none, c)
    else if rest == comp_len
    then (take_bytes rest what_chunk_payload c >>= some_bytes)
    else err (inconsistent what_neither_absent_nor_comp_len)

unfoldable pub get_stream_open : List ℕ → Result FrameError Frame
unfolding take_bytes get_u32 get_u64 get_sidecar_table get_sidecars
get_stream_open c = do
  (origin, c1) ← take_bytes 16 what_origin_id c
  (sender, c2) ← take_bytes 16 what_sender_id c1
  (first, c3) ← get_u64 what_first_seq c2
  (last, c4) ← get_u64 what_last_seq c3
  (v, c5) ← get_u32 what_mode_field c4
  mode ← from_wire v
  (n, c6) ← get_u32 what_provenance_length c5
  (table, c7) ← get_sidecar_table c6
  (prov, c8) ← take_bytes n what_provenance c7
  (sidecars, c9) ← get_sidecars table c8
  ok (stream_open origin sender first last mode prov sidecars)

unfoldable pub get_chunk : List ℕ → Result FrameError Frame
unfolding get_u64 get_sidecar_table get_sidecars take_bytes
get_chunk c = do
  (seq, c1) ← get_u64 what_seq c
  (uncomp, c2) ← get_u64 what_uncomp_len c1
  (comp_len, c3) ← get_u64 what_comp_len c2
  (first, c4) ← get_u64 what_first_write c3
  (last, c5) ← get_u64 what_last_write c4
  (table, c6) ← get_sidecar_table c5
  rest ← rest_of c6 (sum_lengths table)
  (comp, c7) ← get_comp rest comp_len c6
  (sidecars, c8) ← get_sidecars table c7
  ok (chunk seq uncomp comp_len comp first last sidecars)

unfoldable pub get_accepted : List ℕ → Result FrameError Frame
unfolding take_bytes get_runs
get_accepted c = do
  (id, c1) ← take_bytes 16 what_registration_id c
  (runs, c2) ← get_runs c1
  ok (accepted id runs)

abbrev pub text_of : List ℕ → Result FrameError (List ℕ)
text_of bytes = if utf8_loop [] bytes then ok bytes else err bad_utf8

unfoldable pub get_conflict : List ℕ → Result FrameError Frame
unfolding take_bytes get_runs get_u32 utf8_loop
get_conflict c = do
  (holder, c1) ← take_bytes 16 what_holder_origin c
  (runs, c2) ← get_runs c1
  (n, c3) ← get_u32 what_reason_length c2
  (bytes, c4) ← take_bytes n what_reason c3
  text ← text_of bytes
  ok (conflict holder runs text)

abbrev coverage_of : List Run × List ℕ → Result FrameError Frame
coverage_of p = ok (coverage p.0)

unfoldable pub get_frame : ℕ → List ℕ → Result FrameError Frame
unfolding get_stream_open get_chunk get_runs get_accepted get_conflict
get_frame kind payload =
    if kind == 1
    then get_stream_open payload
    else if kind == 2
    then get_chunk payload
    else if kind == 3
    then (get_runs payload >>= coverage_of)
    else if kind == 4
    then get_accepted payload
    else if kind == 5
    then get_conflict payload
    else if kind == 6
    then ok stream_close
    else ok (unknown kind payload)

abbrev pub framed_of : ℕ → ℕ → Frame → Result FrameError (Option (Framed × ℕ))
framed_of stream total f = ok (some (record { stream = stream; frame = f }, total))

-- `none` where the buffer does not hold a whole frame yet.
unfoldable pub decode : List ℕ → Result FrameError (Option (Framed × ℕ))
unfolding get_frame
decode buf =
    let len = u32_at 8 buf in
    let total = frame_header_len + len in
    if ltb (length buf) frame_header_len
    then ok none
    else if ltb max_payload len
    then err (too_large len)
    else if ltb (length buf) total
    then ok none
    else (get_frame (u32_at 4 buf) (slice frame_header_len len buf)
        >>= framed_of (u32_at 0 buf) total)

unfoldable pub decode_hello : List ℕ → Result FrameError (Option (Hello × ℕ))
unfolding bytes_eq
decode_hello buf =
    if ltb (length buf) hello_len
    then ok none
    else if bytes_eq (take 8 buf) magic
    then (if u32_at 8 buf == version
        then (if u32_at 12 buf == 0
            then ok (some (record { version = u32_at 8 buf; incompat = u32_at 12 buf }, hello_len))
            else err (incompatible (u32_at 12 buf)))
        else err (bad_version (u32_at 8 buf)))
    else err bad_magic
