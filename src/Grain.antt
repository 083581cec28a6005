-- ===== src/Grain.antt =====
-- src/grain.rs: the token index, one Bloom filter for each chunk in the order of the index. The file
-- is its bytes, with an inode number that a rename replaces; the `.grain.commit` file beside it is the
-- five values of its line. Calls on the files succeed.
pub mod Tokens
pub mod Header
pub mod Bloom
pub mod Pages
pub mod Update
pub mod Reads
mod Tests
use timberfs.Prelude.{
  ℕ, zero, suc, ◌+◌, ◌-◌, ◌*◌, ◌/◌, ◌%◌, ◌^◌, min, Bool, true, false, ◌&&◌, ◌||◌, not, List, [],
  ◌∷◌, ◌++◌, Option, none, some, length, take, drop, replicate, get_elem?,
}
use timberfs.Prelude.{Result, ok, err, ltb, leb, ◌==◌, if◌then◌else◌, ◌>>=◌}
use timberfs.Bytes.{slice, to_le, u32_at, bytes_eq, write_at, set_len}
use timberfs.Format.{ChunkRecord, parse_index_versioned}
use timberfs.Format
use timberfs.Format.Chunk.{Zstd, ChunkError, read_frame, decode_frame}
use timberfs.Format.Last.{read_index_tail}
use timberfs.Grain.Tokens.{tokenize}
use timberfs.Grain.Bloom.{build_filter, filter_contains}

-- "GRAIN001" and "GRAIN002"
abbrev pub grain_magic : List ℕ
grain_magic = b'G' ∷ b'R' ∷ b'A' ∷ b'I' ∷ b'N' ∷ b'0' ∷ b'0' ∷ b'1' ∷ []

abbrev pub grain_magic_v2 : List ℕ
grain_magic_v2 = b'G' ∷ b'R' ∷ b'A' ∷ b'I' ∷ b'N' ∷ b'0' ∷ b'0' ∷ b'2' ∷ []

abbrev pub header_len : ℕ
header_len = 16

abbrev pub lead_len : ℕ
lead_len = 16

-- Case folding, the two bounds on a token, the number of hashes.
abbrev pub parameters : List ℕ
parameters = 0 ∷ 3 ∷ 64 ∷ 7 ∷ []

unfoldable pub header_bytes : ℕ → List ℕ
unfolding to_le
header_bytes first_rec =
    if first_rec == header_len
    then grain_magic ++ (parameters ++ to_le 4 0)
    else grain_magic_v2 ++ (parameters ++ to_le 4 (first_rec % 2 ^ 32))

unfoldable pub header_first_rec : List ℕ → ℕ → Option ℕ
unfolding bytes_eq
header_first_rec h file_len =
    let off = u32_at 12 h in
    if ltb (length h) header_len
    then none
    else if bytes_eq (take 8 h) grain_magic
    then some header_len
    else if bytes_eq (take 8 h) grain_magic_v2
    then (if leb header_len off && leb off file_len then some off else none)
    else none

unfoldable pub first_record_offset : List ℕ → Option ℕ
unfolding header_first_rec
first_record_offset buf = header_first_rec buf (length buf)

-- A grain header from elsewhere, built with the same parameters.
unfoldable pub header_matches : List ℕ → Bool
unfolding bytes_eq header_bytes
header_matches bytes =
    if ltb (length bytes) header_len
    then false
    else (bytes_eq (take 8 bytes) grain_magic || bytes_eq (take 8 bytes) grain_magic_v2)
      && bytes_eq (slice 8 4 bytes) (slice 8 4 (header_bytes header_len))

pub record Stamp : Type 0 where
  pub ino : ℕ
  pub header : List ℕ
  pub lead : List ℕ
  pub first : ℕ
  pub len : ℕ

pub record Tail : Type 0 where
  pub count : ℕ
  pub end : ℕ

-- The line of the `.grain.commit` file.
pub record Commit : Type 0 where
  pub ino : ℕ
  pub header : List ℕ
  pub lead : List ℕ
  pub tail : Tail

pub record GrainFiles : Type 0 where
  pub grain : Option (List ℕ)
  pub ino : ℕ
  pub commit : Option Commit

pub data GrainError : Type 0 where
  index : Format.Error → GrainError
  chunk : ChunkError → GrainError

abbrev pub stamp_at : ℕ → List ℕ → Option ℕ → Option Stamp
stamp_at ino file none = none
stamp_at ino file (some first) = some (record {
  ino = ino;
  header = take header_len file;
  lead =
      slice first (min (length file - first) lead_len) file
      ++ replicate (lead_len - (length file - first)) 0;
  first = first;
  len = length file;
})

unfoldable pub stamp : ℕ → List ℕ → Option Stamp
unfolding header_first_rec
stamp ino file =
    if ltb (length file) header_len
    then none
    else stamp_at ino file (header_first_rec (take header_len file) (length file))

-- The loop of `walk`; a round takes four bytes at least.
unfoldable pub walk_loop : ℕ → List ℕ → ℕ → ℕ → Tail → Tail
walk_loop zero file len max tail = tail
walk_loop (suc fuel) file len max tail =
    let body = u32_at tail.end file in
    let later =
      walk_loop fuel file len max
        (record { count = tail.count + 1; end = tail.end + (4 + body) }) in
    if ltb tail.count max && leb (tail.end + 4) len
    then (if ltb len (tail.end + 4 + body) then tail else later)
    else tail

unfoldable pub walk : List ℕ → ℕ → ℕ → ℕ → Tail
unfolding walk_loop
walk file first len max = walk_loop (length file) file len max (record { count = 0; end = first })

abbrev pub u64_max : ℕ
u64_max = 2 ^ 64 - 1

-- The recorded tail, where the commit still describes this file.
unfoldable pub load_commit : Option Commit → Stamp → Option Tail
unfolding bytes_eq
load_commit none s = none
load_commit (some c) s =
    if (c.ino == s.ino)
      && (bytes_eq c.header s.header
          && (bytes_eq c.lead s.lead && (leb s.first c.tail.end && leb c.tail.end s.len)))
    then some c.tail
    else none

abbrev pub commit_of : Tail → Option Stamp → Option Commit
commit_of t none = none
commit_of t (some s) = some (record { ino = s.ino; header = s.header; lead = s.lead; tail = t })

unfoldable pub save_commit : ℕ → List ℕ → Tail → Option Commit
unfolding stamp
save_commit ino file t = commit_of t (stamp ino file)

abbrev pub known_or_walked : List ℕ → Stamp → Option Tail → Tail × Bool
known_or_walked file s (some t) = (t, true)
known_or_walked file s none = (walk file s.first s.len u64_max, false)

abbrev pub locate_at : Option Commit → List ℕ → Option Stamp → Option (Tail × Bool)
locate_at commit file none = none
locate_at commit file (some s) = some (known_or_walked file s (load_commit commit s))

-- Where the records end, and whether the commit says so.
unfoldable pub locate : ℕ → Option Commit → List ℕ → Option (Tail × Bool)
unfolding stamp load_commit walk
locate ino commit file = locate_at commit file (stamp ino file)

-- The loop of `load` from `off`; a round takes four bytes at least.
unfoldable pub load_loop : ℕ → ℕ → List ℕ → List (List ℕ)
load_loop zero off buf = []
load_loop (suc fuel) off buf =
    let len = u32_at off buf in
    let later = load_loop fuel (off + 4 + len) buf in
    if ltb (length buf) (off + 4)
    then []
    else if ltb (length buf) (off + 4 + len)
    then []
    else slice (off + 4) len buf ∷ later

abbrev load_from : List ℕ → Option ℕ → Option (List (List ℕ))
load_from buf none = none
load_from buf (some first) = some (load_loop (length buf) first buf)

-- The filters, or `none` for "not a grain index".
unfoldable pub load : List ℕ → Option (List (List ℕ))
unfolding first_record_offset load_loop
load buf = load_from buf (first_record_offset buf)

unfoldable pub all_contained : List ℕ → List (List ℕ) → Bool
unfolding filter_contains
all_contained filter [] = true
all_contained filter (t ∷ ts) = filter_contains filter t && all_contained filter ts

abbrev may_contain : Option (List ℕ) → List (List ℕ) → Bool
may_contain none tokens = true
may_contain (some filter) tokens = all_contained filter tokens

unfoldable pub may_contain_all : List (List ℕ) → ℕ → List (List ℕ) → Bool
unfolding all_contained
may_contain_all filters idx tokens = may_contain (get_elem? filters idx) tokens
