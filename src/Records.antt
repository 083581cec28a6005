-- ===== src/Records.antt =====
-- `Frames` of src/records.rs: a record stream walked by record, each with its own bytes. The buffer is
-- the list of its bytes, and positions are `usize` numbers of 64 bits whose sums wrap around.
pub mod Walk
pub mod Streams
mod Tests
use timberfs.Prelude.{
  ℕ, zero, suc, ◌+◌, ◌-◌, ◌*◌, ◌%◌, ◌^◌, Bool, true, false, ◌&&◌, ◌||◌, List, [], ◌∷◌, ◌++◌, Option,
  none, some, length, take, drop,
}
use timberfs.Prelude.{Result, ok, err, ltb, leb, ◌==◌, if◌then◌else◌}
use timberfs.Bytes.{bytes_eq}

abbrev pub record_mark : ℕ
record_mark = 0x1e

abbrev pub field_mark : ℕ
field_mark = 0x1f

-- "entry", "chunk" and "len"
abbrev pub entry_kind : List ℕ
entry_kind = b'e' ∷ b'n' ∷ b't' ∷ b'r' ∷ b'y' ∷ []

abbrev pub chunk_kind : List ℕ
chunk_kind = b'c' ∷ b'h' ∷ b'u' ∷ b'n' ∷ b'k' ∷ []

abbrev pub len_key : List ℕ
len_key = b'l' ∷ b'e' ∷ b'n' ∷ []

abbrev pub map_suc : Option ℕ → Option ℕ
map_suc none = none
map_suc (some n) = some (suc n)

-- `iter().position(|&b| b == c)`
unfoldable pub position : ℕ → List ℕ → Option ℕ
position c [] = none
position c (b ∷ bs) = if b == c then some 0 else map_suc (position c bs)

abbrev on_first : ℕ → List (List ℕ) → List (List ℕ)
on_first b [] = (b ∷ []) ∷ []
on_first b (p ∷ ps) = (b ∷ p) ∷ ps

-- `split(|&b| b == c)`, which gives one part at least
unfoldable pub split : ℕ → List ℕ → List (List ℕ)
split c [] = [] ∷ []
split c (b ∷ bs) = if b == c then [] ∷ split c bs else on_first b (split c bs)

unfoldable pub strip_prefix : List ℕ → List ℕ → Option (List ℕ)
strip_prefix [] bs = some bs
strip_prefix (p ∷ ps) [] = none
strip_prefix (p ∷ ps) (b ∷ bs) = if b == p then strip_prefix ps bs else none

abbrev between : ℕ → ℕ → ℕ → Bool
between lo hi b = leb lo b && leb b hi

-- The ranges of the bytes that must follow a first byte, or `none` where it starts no character.
unfoldable pub utf8_start : ℕ → Option (List (ℕ × ℕ))
utf8_start b =
    if ltb b 0x80
    then some []
    else if between 0xC2 0xDF b
    then some ((0x80, 0xBF) ∷ [])
    else if b == 0xE0
    then some ((0xA0, 0xBF) ∷ (0x80, 0xBF) ∷ [])
    else if b == 0xED
    then some ((0x80, 0x9F) ∷ (0x80, 0xBF) ∷ [])
    else if between 0xE1 0xEF b
    then some ((0x80, 0xBF) ∷ (0x80, 0xBF) ∷ [])
    else if b == 0xF0
    then some ((0x90, 0xBF) ∷ (0x80, 0xBF) ∷ (0x80, 0xBF) ∷ [])
    else if between 0xF1 0xF3 b
    then some ((0x80, 0xBF) ∷ (0x80, 0xBF) ∷ (0x80, 0xBF) ∷ [])
    else if b == 0xF4
    then some ((0x80, 0x8F) ∷ (0x80, 0xBF) ∷ (0x80, 0xBF) ∷ [])
    else none

-- `str::from_utf8(..).is_ok()`, where bytes of these ranges are still to come.
unfoldable pub utf8_loop : List (ℕ × ℕ) → List ℕ → Bool
unfolding utf8_start
utf8_loop [] [] = true
utf8_loop (r ∷ rs) [] = false
utf8_loop ((lo, hi) ∷ rs) (b ∷ bs) = between lo hi b && utf8_loop rs bs
utf8_loop [] (b ∷ bs) = elim (utf8_start b) [ none ↦ false | some rs ↦ utf8_loop rs bs ]

-- `str::parse::<u64>` behind the sign
unfoldable pub parse_digits : ℕ → List ℕ → Option ℕ
parse_digits v [] = some v
parse_digits v (b ∷ bs) =
    let next = v * 10 + (b - b'0') in
    if between b'0' b'9' b then (if ltb next (2 ^ 64) then parse_digits next bs else none) else none

unfoldable pub parse_u64 : List ℕ → Option ℕ
unfolding parse_digits
parse_u64 [] = none
parse_u64 (b ∷ []) = parse_digits 0 (b ∷ [])
parse_u64 (b ∷ c ∷ bs) = if b == b'+' then parse_digits 0 (c ∷ bs) else parse_digits 0 (b ∷ c ∷ bs)

abbrev strip_key : List ℕ → List ℕ → Option (List ℕ)
strip_key key p = elim (strip_prefix key p) [
  | none ↦ none
  | some rest ↦ strip_prefix (b'=' ∷ []) rest
]

abbrev or_else : {A : Type 0} → Option A → Option A → Option A
or_else none later = later
or_else (some a) later = some a

-- `filter_map(..).find_map(..)` over the parts behind the first
unfoldable pub find_field : List ℕ → List (List ℕ) → Option (List ℕ)
unfolding utf8_loop strip_prefix
find_field key [] = none
find_field key (p ∷ ps) =
    let later = find_field key ps in
    if utf8_loop [] p then or_else (strip_key key p) later else later

unfoldable pub field : List ℕ → List ℕ → Option (List ℕ)
unfolding split find_field
field hdr key = find_field key (drop 1 (split field_mark hdr))

abbrev parse_field : Option (List ℕ) → Option ℕ
parse_field none = none
parse_field (some text) = parse_u64 text

unfoldable pub number : List ℕ → List ℕ → Option ℕ
unfolding field parse_u64
number hdr key = parse_field (field hdr key)

pub record Frame : Type 0 where
  pub kind : List ℕ
  pub bytes : List ℕ
  pub hdr : List ℕ

-- The four messages, and the panic of a slice that ends before its start.
pub data FrameError : Type 0 where
  mid_record unmarked no_len mid_payload slice_panic : FrameError

-- `len + 1` and the sums with it, in `usize`
abbrev pub add_usize : ℕ → ℕ → ℕ
add_usize a b = (a + b) % 2 ^ 64

abbrev pub up_to : Option ℕ → ℕ → ℕ
up_to none all = all
up_to (some n) all = n

unfoldable pub kind_of : List ℕ → List ℕ
unfolding position
kind_of body = take (up_to (position field_mark body) (length body)) body

unfoldable pub has_payload : List ℕ → Bool
unfolding bytes_eq
has_payload kind = bytes_eq kind entry_kind || bytes_eq kind chunk_kind

abbrev pub frame_at : List ℕ → ℕ → ℕ → List ℕ → List ℕ → Result FrameError (Frame × ℕ)
frame_at buf start end hdr kind =
    if ltb (add_usize start end) start
    then err slice_panic
    else ok (
      record {
        kind = kind;
        bytes = take (add_usize start end - start) (drop start buf);
        hdr = hdr;
      },
      add_usize start end,
    )

abbrev pub with_len : List ℕ → ℕ → ℕ → List ℕ → List ℕ → Option ℕ → Result FrameError (Frame × ℕ)
with_len buf start end hdr kind none = err no_len
with_len buf start end hdr kind (some len) =
    let past = add_usize end (add_usize len 1) in
    if ltb (length buf) (add_usize start past)
    then err mid_payload
    else frame_at buf start past hdr kind

unfoldable pub with_body : List ℕ → ℕ → ℕ → List ℕ → Option (List ℕ) → Result FrameError (Frame × ℕ)
unfolding kind_of has_payload number
with_body buf start nul hdr none = err unmarked
with_body buf start nul hdr (some body) =
    if has_payload (kind_of body)
    then with_len buf start (nul + 1) hdr (kind_of body) (number hdr len_key)
    else frame_at buf start (nul + 1) hdr (kind_of body)

abbrev pub with_nul : List ℕ → ℕ → List ℕ → Option ℕ → Result FrameError (Frame × ℕ)
with_nul buf start rest none = err mid_record
with_nul buf start rest (some nul) =
    with_body buf start nul (take nul rest) (strip_prefix (record_mark ∷ []) (take nul rest))

-- `Frames::next`: the frame and the position behind it. An error leaves the position where it is.
unfoldable pub next : List ℕ → ℕ → Option (Result FrameError (Frame × ℕ))
unfolding position strip_prefix with_body
next buf at =
    if leb (length buf) at
    then none
    else some (with_nul buf at (drop at buf) (position 0 (drop at buf)))

-- `frame?`: the loop goes on behind a frame, and ends at an error.
abbrev pub frames_from :
    Option (Result FrameError (Frame × ℕ))
    → (ℕ → List Frame × Option FrameError)
    → List Frame × Option FrameError
frames_from none later = ([], none)
frames_from (some (err e)) later = ([], some e)
frames_from (some (ok (f, at))) later = (f ∷ (later at).0, (later at).1)

-- A consumer's loop over the frames.
unfoldable pub frames_loop : ℕ → List ℕ → ℕ → List Frame × Option FrameError
unfolding next
frames_loop zero buf at = ([], none)
frames_loop (suc fuel) buf at = frames_from (next buf at) (λ later. frames_loop fuel buf later)

unfoldable pub frames : List ℕ → List Frame × Option FrameError
unfolding frames_loop
frames buf = frames_loop (suc (length buf)) buf 0
