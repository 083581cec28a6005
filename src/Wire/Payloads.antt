-- ===== src/Wire/Payloads.antt =====
-- The payloads of src/frame.rs under their readers, kind by kind.
use timberfs.Prelude.{
  ℕ, ◌-◌, ◌≤◌, ◌<◌, ◌≡◌, refl, ap, ◌∙◌, sym, ◌⊎◌, true, false, List, [], ◌++◌, map, Option, none,
  some, length, All, arith, ok, ◌==◌, ==_iff, le→ltb, append-nil, length-append, inl, inr,
}
use timberfs.Bytes.{to_le, IsU32, IsU64}
use timberfs.Records.{utf8_loop}
use timberfs.Wire.{
  Mode, coverage_mode, index_mode, frames_mode, Run, Sidecar, Frame, stream_open, chunk, coverage,
  accepted, conflict, stream_close, unknown, wire, from_wire, wire_kind, put_runs,
  put_sidecar_bodies, put_comp, payload_of,
}
use timberfs.Wire.Decode.{
  take_bytes, get_sidecars, get_runs, sum_lengths, get_comp, get_stream_open, get_chunk,
  get_accepted, get_conflict, get_frame,
}
use timberfs.Wire.{
  what_origin_id, what_sender_id, what_first_seq, what_last_seq, what_mode_field,
  what_provenance_length, what_provenance, what_seq, what_uncomp_len, what_comp_len,
  what_first_write, what_last_write, what_chunk_payload, what_registration_id, what_holder_origin,
  what_reason_length, what_reason,
}
use timberfs.Wire.Fields.{
  take_bytes-append, get_u32-to_le, get_u64-to_le, IsRun, IsSidecar, IsSmall, entry_of,
  get_runs-put_runs, get_sidecar_table-put, get_sidecars-put, sum_lengths-put,
}

-- Sidecars whose number and lengths fit their fields.
pub record Sidecars (ss : List Sidecar) : Type 0 where
  pub number : IsU32 (length ss)
  pub tags : All IsSidecar ss
  pub lengths : All IsSmall ss

pub record Runs (rs : List Run) : Type 0 where
  pub number : IsU32 (length rs)
  pub runs : All IsRun rs

-- The bytes of a chunk are absent, or as long as the chunk says.
abbrev pub Comp : ℕ → Option (List ℕ) → Type 0
Comp n none = Unit {0}
Comp n (some bytes) = (0 < length bytes) × (length bytes ≡ n)

-- The fields of a frame fit their places.
abbrev pub IsFields : Frame → Type 0
IsFields (stream_open o s f l m p ss) =
    (length o ≡ 16) × (length s ≡ 16) × IsU64 f × IsU64 l × IsU32 (length p) × Sidecars ss
IsFields (chunk q u n c f l ss) =
    IsU64 q × IsU64 u × IsU64 n × IsU64 f × IsU64 l × Comp n c × Sidecars ss
IsFields (coverage rs) = Runs rs
IsFields (accepted id rs) = (length id ≡ 16) × Runs rs
IsFields (conflict holder rs text) =
    (length holder ≡ 16) × Runs rs × IsU32 (length text) × (utf8_loop [] text ≡ true)
IsFields stream_close = Unit {0}
IsFields (unknown kind payload) = IsU32 kind × ((kind ≡ 0) ⊎ (6 < kind))

from_wire-wire : (m : Mode) → from_wire (wire m) ≡ ok m
from_wire-wire coverage_mode = refl
from_wire-wire index_mode = refl
from_wire-wire frames_mode = refl

wire-IsU32 : (m : Mode) → IsU32 (wire m)
wire-IsU32 coverage_mode = omega arith
wire-IsU32 index_mode = omega arith
wire-IsU32 frames_mode = omega arith

last_sidecars :
    (ss : List Sidecar) → get_sidecars (map entry_of ss) (put_sidecar_bodies ss) ≡ ok (ss, [])
last_sidecars ss =
    ap (get_sidecars (map entry_of ss)) (sym (append-nil (put_sidecar_bodies ss)))
    ∙ get_sidecars-put ss []

last-Runs : (rs : List Run) → Runs rs → get_runs (put_runs rs) ≡ ok (rs, [])
last-Runs rs h =
    ap get_runs (sym (append-nil (put_runs rs))) ∙ get_runs-put_runs rs [] h.number h.runs

last_bytes : (xs : List ℕ) → take_bytes (length xs) what_reason xs ≡ ok (xs, [])
last_bytes xs =
    ap (take_bytes (length xs) what_reason) (sym (append-nil xs))
    ∙ take_bytes-append (length xs) what_reason xs [] refl

get_stream_open-payload :
    (o s : List ℕ) (f l : ℕ) (m : Mode) (p : List ℕ) (ss : List Sidecar)
    → IsFields (stream_open o s f l m p ss)
    → get_stream_open (payload_of (stream_open o s f l m p ss)) ≡ ok (stream_open o s f l m p ss)
unfolding get_stream_open payload_of
get_stream_open-payload o s f l m p ss (ho, hs, hf, hl, hp, h) =
    rw
      (
        take_bytes-append 16 what_origin_id o _ (sym ho),
        take_bytes-append 16 what_sender_id s _ (sym hs),
        get_u64-to_le what_first_seq f _ hf,
        get_u64-to_le what_last_seq l _ hl,
        get_u32-to_le what_mode_field (wire m) _ (wire-IsU32 m),
        from_wire-wire m,
        get_u32-to_le what_provenance_length (length p) _ hp,
        get_sidecar_table-put ss (p ++ put_sidecar_bodies ss) h.number h.tags h.lengths,
        take_bytes-append (length p) what_provenance p (put_sidecar_bodies ss) refl,
        last_sidecars ss,
      )
      refl

-- The bytes of the chunk are told from their absence by what the sidecars leave.
get_comp-put :
    (n : ℕ) (c : Option (List ℕ)) (ys : List ℕ)
    → Comp n c
    → get_comp (length (put_comp c)) n (put_comp c ++ ys) ≡ ok (c, ys)
get_comp-put n none ys h = refl
get_comp-put n (some bytes) ys (pos, e) =
    rw
      (
        not_zero,
        (==_iff (length bytes) n).1 e,
        take_bytes-append (length bytes) what_chunk_payload bytes ys refl,
      )
      refl
  where
    not_zero : (length bytes == 0) ≡ false
    not_zero = ground (arith, pos)

get_chunk-payload :
    (q u n : ℕ) (c : Option (List ℕ)) (f l : ℕ) (ss : List Sidecar)
    → IsFields (chunk q u n c f l ss)
    → get_chunk (payload_of (chunk q u n c f l ss)) ≡ ok (chunk q u n c f l ss)
unfolding get_chunk payload_of
get_chunk-payload q u n c f l ss (hq, hu, hn, hf, hl, hc, h) =
    rw
      (
        get_u64-to_le what_seq q _ hq,
        get_u64-to_le what_uncomp_len u _ hu,
        get_u64-to_le what_comp_len n _ hn,
        get_u64-to_le what_first_write f _ hf,
        get_u64-to_le what_last_write l _ hl,
        get_sidecar_table-put ss (put_comp c ++ put_sidecar_bodies ss) h.number h.tags h.lengths,
        le→ltb (length (put_comp c ++ put_sidecar_bodies ss)) _ enough,
        left,
        get_comp-put n c (put_sidecar_bodies ss) hc,
        last_sidecars ss,
      )
      refl
  where
    enough : sum_lengths (map entry_of ss) ≤ length (put_comp c ++ put_sidecar_bodies ss)
    enough = omega (arith, sum_lengths-put ss, length-append (put_comp c) (put_sidecar_bodies ss))

    left :
        length (put_comp c ++ put_sidecar_bodies ss) - sum_lengths (map entry_of ss)
        ≡ length (put_comp c)
    left = omega (arith, sum_lengths-put ss, length-append (put_comp c) (put_sidecar_bodies ss))

get_accepted-payload :
    (id : List ℕ) (rs : List Run)
    → IsFields (accepted id rs)
    → get_accepted (payload_of (accepted id rs)) ≡ ok (accepted id rs)
unfolding get_accepted payload_of
get_accepted-payload id rs (hi, h) =
    rw (take_bytes-append 16 what_registration_id id _ (sym hi), last-Runs rs h) refl

get_conflict-payload :
    (holder : List ℕ) (rs : List Run) (text : List ℕ)
    → IsFields (conflict holder rs text)
    → get_conflict (payload_of (conflict holder rs text)) ≡ ok (conflict holder rs text)
unfolding get_conflict payload_of
get_conflict-payload holder rs text (hh, h, ht, valid) =
    rw
      (
        take_bytes-append 16 what_holder_origin holder _ (sym hh),
        get_runs-put_runs rs (to_le 4 (length text) ++ text) h.number h.runs,
        get_u32-to_le what_reason_length (length text) text ht,
        last_bytes text,
        valid,
      )
      refl

-- A payload is read back under the frame's own kind.
pub get_frame-payload : (f : Frame) → IsFields f → get_frame (wire_kind f) (payload_of f) ≡ ok f
unfolding get_frame payload_of
get_frame-payload (stream_open o s f l m p ss) h = get_stream_open-payload o s f l m p ss h
get_frame-payload (chunk q u n c f l ss) h = get_chunk-payload q u n c f l ss h
get_frame-payload (coverage rs) h = rw (last-Runs rs h) refl
get_frame-payload (accepted id rs) h = get_accepted-payload id rs h
get_frame-payload (conflict holder rs text) h = get_conflict-payload holder rs text h
get_frame-payload stream_close h = refl
get_frame-payload (unknown kind payload) (small, other) =
    rw
      (
        differs 1 (omega arith, omega arith),
        differs 2 (omega arith, omega arith),
        differs 3 (omega arith, omega arith),
        differs 4 (omega arith, omega arith),
        differs 5 (omega arith, omega arith),
        differs 6 (omega arith, omega arith),
      )
      refl
  where
    differs : (n : ℕ) → (0 < n) × (n < 7) → (kind == n) ≡ false
    differs n (lo, hi) = elim other [
      | inl e ↦ ground (arith, lo, e)
      | inr h ↦ ground (arith, hi, h)
    ]
