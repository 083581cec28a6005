-- ===== src/Wire.antt =====
-- src/frame.rs: the replication wire. A `Vec` that is written to is the list of what is written, and
-- the cursor over a payload is what is left of it.
pub mod Decode
pub mod Fields
pub mod Payloads
pub mod RoundTrip
pub mod Partial
mod Tests
use timberfs.Prelude.{
  ℕ, zero, suc, ◌+◌, ◌-◌, ◌*◌, ◌^◌, min, Bool, true, false, List, [], ◌∷◌, ◌++◌, Option, none, some,
  length, take, drop,
}
use timberfs.Prelude.{Result, ok, err, ◌>>=◌, ltb, ◌==◌, if◌then◌else◌}
use timberfs.Bytes.{slice, to_le, from_le, u32_at, bytes_eq}
use timberfs.Records.{utf8_loop}

-- "TIMBSTR1"
abbrev pub magic : List ℕ
magic = b'T' ∷ b'I' ∷ b'M' ∷ b'B' ∷ b'S' ∷ b'T' ∷ b'R' ∷ b'1' ∷ []

abbrev pub version : ℕ
version = 1

abbrev pub hello_len : ℕ
hello_len = 16

abbrev pub frame_header_len : ℕ
frame_header_len = 12

abbrev pub sidecar_entry_len : ℕ
sidecar_entry_len = 12

abbrev pub max_payload : ℕ
max_payload = 64 * 2 ^ 20

pub record Hello : Type 0 where
  pub version : ℕ
  pub incompat : ℕ

pub data Mode : Type 0 where
  coverage_mode index_mode frames_mode : Mode

pub record Run : Type 0 where
  pub start : ℕ
  pub end : ℕ

pub record Sidecar : Type 0 where
  pub kind : List ℕ
  pub bytes : List ℕ

-- A chunk's bytes may be absent.
pub data Frame : Type 0 where
  stream_open :
      (origin_id sender_id : List ℕ) (first_seq last_seq : ℕ)
      → Mode
      → (provenance : List ℕ) → List Sidecar
      → Frame
  chunk :
      (seq uncomp_len comp_len : ℕ) (comp : Option (List ℕ)) (first_write_ms last_write_ms : ℕ)
      → List Sidecar
      → Frame
  coverage : List Run → Frame
  accepted : (registration_id : List ℕ) → List Run → Frame
  conflict : (holder_origin : List ℕ) → List Run → (reason : List ℕ) → Frame
  stream_close : Frame
  unknown : (kind : ℕ) (payload : List ℕ) → Frame

pub record Framed : Type 0 where
  pub stream : ℕ
  pub frame : Frame

-- The texts of `Inconsistent`.
pub data What : Type 0 where
  what_origin_id what_sender_id what_first_seq what_last_seq what_mode_field what_provenance_length
        what_provenance :
      What
  what_seq what_uncomp_len what_comp_len what_first_write what_last_write : What
  what_sidecar_count what_sidecar_count_exceeds what_sidecar_kind what_sidecar_length
        what_sidecar_body what_sidecar_bodies_exceed :
      What
  what_chunk_payload what_neither_absent_nor_comp_len : What
  what_run_count what_run_count_exceeds what_run_start what_run_end what_run_ends_before : What
  what_registration_id what_holder_origin what_reason_length what_reason : What

pub data FrameError : Type 0 where
  bad_magic : FrameError
  bad_version incompatible too_large bad_mode : ℕ → FrameError
  inconsistent : What → FrameError
  bad_utf8 : FrameError

abbrev pub wire : Mode → ℕ
wire coverage_mode = 1
wire index_mode = 2
wire frames_mode = 3

abbrev pub from_wire : ℕ → Result FrameError Mode
from_wire v =
    if v == 1
    then ok coverage_mode
    else if v == 2
    then ok index_mode
    else if v == 3
    then ok frames_mode
    else err (bad_mode v)

abbrev pub wire_kind : Frame → ℕ
wire_kind (stream_open a b c d e f g) = 1
wire_kind (chunk a b c d e f g) = 2
wire_kind (coverage a) = 3
wire_kind (accepted a b) = 4
wire_kind (conflict a b c) = 5
wire_kind stream_close = 6
wire_kind (unknown kind payload) = kind

abbrev pub put_run_list : List Run → List ℕ
put_run_list [] = []
put_run_list (r ∷ rs) = to_le 8 r.start ++ (to_le 8 r.end ++ put_run_list rs)

abbrev pub put_runs : List Run → List ℕ
put_runs rs = to_le 4 (length rs) ++ put_run_list rs

abbrev pub put_entries : List Sidecar → List ℕ
put_entries [] = []
put_entries (s ∷ ss) = s.kind ++ (to_le 4 (length s.bytes) ++ put_entries ss)

abbrev pub put_sidecar_table : List Sidecar → List ℕ
put_sidecar_table ss = to_le 4 (length ss) ++ put_entries ss

abbrev pub put_sidecar_bodies : List Sidecar → List ℕ
put_sidecar_bodies [] = []
put_sidecar_bodies (s ∷ ss) = s.bytes ++ put_sidecar_bodies ss

abbrev pub put_comp : Option (List ℕ) → List ℕ
put_comp none = []
put_comp (some bytes) = bytes

unfoldable pub payload_of : Frame → List ℕ
unfolding to_le
payload_of (stream_open origin sender first last mode prov sidecars) =
    origin
    ++ (sender
        ++ (to_le 8 first
            ++ (to_le 8 last
                ++ (to_le 4 (wire mode)
                    ++ (to_le 4 (length prov)
                        ++ (put_sidecar_table sidecars
                            ++ (prov ++ put_sidecar_bodies sidecars)))))))
payload_of (chunk seq uncomp comp_len comp first last sidecars) =
    to_le 8 seq
    ++ (to_le 8 uncomp
        ++ (to_le 8 comp_len
            ++ (to_le 8 first
                ++ (to_le 8 last
                    ++ (put_sidecar_table sidecars
                        ++ (put_comp comp ++ put_sidecar_bodies sidecars))))))
payload_of (coverage runs) = put_runs runs
payload_of (accepted id runs) = id ++ put_runs runs
payload_of (conflict holder runs reason) =
    holder ++ (put_runs runs ++ (to_le 4 (length reason) ++ reason))
payload_of stream_close = []
payload_of (unknown kind payload) = payload

-- What `encode` appends.
unfoldable pub encode : Framed → List ℕ
unfolding to_le payload_of
encode f =
    to_le 4 f.stream
    ++ (to_le 4 (wire_kind f.frame)
        ++ (to_le 4 (length (payload_of f.frame)) ++ payload_of f.frame))

unfoldable pub encode_hello : Hello → List ℕ
unfolding to_le
encode_hello h = magic ++ (to_le 4 h.version ++ to_le 4 h.incompat)
