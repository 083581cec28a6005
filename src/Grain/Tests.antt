-- ===== src/Grain/Tests.antt =====
-- Tests of the token index, and its theorems at concrete inputs. The zstd library of the tests stores
-- the bytes as they are, behind one byte.
use timberfs.Prelude.{
  ℕ, ◌^◌, ◌<◌, ◌≡◌, ◌↔◌, refl, List, [], ◌∷◌, ◌++◌, Option, none, some, length, take, replicate,
  arith, true, false, inl,
}
use timberfs.Bytes.{to_le, from_le, bytes_eq, write_at}
use timberfs.Format.{ChunkRecord, rings_header, no_drops, v2}
use timberfs.Format.Record.{IsRecord}
use timberfs.Format.Index.{encode}
use timberfs.Format.Header.{IsHeader}
use timberfs.Format.Parse.{parse_index-encode}
use timberfs.Format.Chunk.{Zstd}
use timberfs.Store.Inv.{Frames}
use timberfs.Grain.Tokens.{is_alphanumeric, tokenize, contains}
use timberfs.Grain.Tokens.Runs.{IsToken}
use timberfs.Grain.Tokens.Sound.{tokenize_iff}
use timberfs.Grain.Bloom.{build_filter, filter_contains}
use timberfs.Grain.Bloom.Member.{filter_contains-build_filter}
use timberfs.Grain.{
  GrainFiles, header_len, header_bytes, first_record_offset, load, may_contain_all, locate,
}
use timberfs.Grain.Header.{first_record_offset-header_bytes}
use timberfs.Grain.Pages.{encode_pages, IsGrain, load-IsGrain}
use timberfs.Grain.Reads.{read_pages, read_pages-IsGrain}
use timberfs.Grain.Update.{extend_grain, append_page, rebase_head}
use timberfs.Grain.Update.Build.{page_of, page_of-IsPage}
use timberfs.Grain.Update.Covers.{Covers}
use timberfs.Grain.Update.Extend.{Leaves}
use timberfs.Grain.Update.Answers.{may_contain_all-extend_grain}
use timberfs.Grain.Update.Adopt.{append_page-Covers}
use timberfs.Grain.Update.Rebase.{rebase_head-Covers}
use timberfs.Grain.Update.Rebase.Kept.{Rebased}

-- " ERR1", and the run in it
abbrev line : List ℕ
line = 32 ∷ b'E' ∷ b'R' ∷ b'R' ∷ b'1' ∷ []

abbrev word : List ℕ
word = b'E' ∷ b'R' ∷ b'R' ∷ b'1' ∷ []

-- A run of two bytes is no token, and neither is the dash.
tokens_of_line : tokenize (line ++ (b'-' ∷ b'o' ∷ b'k' ∷ [])) ≡ word ∷ []
unfolding tokenize
tokens_of_line = refl

word-IsToken : IsToken line word
unfolding is_alphanumeric
word-IsToken = record {
  before = 32 ∷ [];
  after = [];
  within = refl;
  run = (refl, (refl, (refl, (refl, tt))));
  clear_left = refl;
  clear_right = tt;
  long = omega arith;
  short = omega arith;
}

tokenize_iff_example : (contains word (tokenize line) ≡ true) ↔ IsToken line word
tokenize_iff_example = tokenize_iff line word

filter_contains-build_filter_example : filter_contains (build_filter (tokenize line)) word ≡ true
filter_contains-build_filter_example = filter_contains-build_filter word (tokenize line) found
  where
    found : contains word (tokenize line) ≡ true
    found = (tokenize_iff line word).1 word-IsToken

page_of-IsPage_example : length (page_of line) < 2 ^ 32
page_of-IsPage_example = page_of-IsPage line (omega arith)

first_record_offset-header_bytes_example :
    first_record_offset (header_bytes 20 ++ replicate 6 0) ≡ some 20
first_record_offset-header_bytes_example =
    first_record_offset-header_bytes 20 (replicate 6 0) (omega arith) (omega arith) (omega arith)

-- Two pages of two bytes and of one, and a length of which one byte is there.
abbrev two_pages : List (List ℕ)
two_pages = (7 ∷ 8 ∷ []) ∷ (9 ∷ []) ∷ []

abbrev two_file : List ℕ
two_file = header_bytes header_len ++ (encode_pages two_pages ++ (5 ∷ []))

two-IsGrain : IsGrain two_file 16 two_pages (5 ∷ [])
unfolding first_record_offset header_bytes to_le bytes_eq
two-IsGrain = record {
  offset = refl;
  inside = omega arith;
  behind = refl;
  pages = (omega arith, (omega arith, tt));
  cut_short = inl (omega arith);
}

load-IsGrain_example : load two_file ≡ some two_pages
load-IsGrain_example = load-IsGrain two_file 16 two_pages (5 ∷ []) two-IsGrain (omega arith)

read_pages-IsGrain_example : read_pages 3 two_file 1 5 ≡ (9 ∷ []) ∷ []
read_pages-IsGrain_example =
    read_pages-IsGrain 3 two_file 16 two_pages (5 ∷ []) 1 5 two-IsGrain (omega arith)

abbrev two_files : GrainFiles
two_files = record { grain = some two_file; ino = 3; commit = none }

two-Covers : Covers two_files two_file 16 two_pages (5 ∷ []) 2
unfolding locate header_bytes to_le bytes_eq from_le
two-Covers = record {
  on_disk = refl;
  grain = two-IsGrain;
  counted = omega arith;
  within = omega arith;
  known = false;
  located = refl;
}

append_page-Covers_example :
    Covers
      (append_page 4 (1 ∷ 2 ∷ []) two_files)
      (take 16 two_file ++ encode_pages (two_pages ++ ((1 ∷ 2 ∷ []) ∷ [])))
      16
      (two_pages ++ ((1 ∷ 2 ∷ []) ∷ []))
      []
      3
append_page-Covers_example =
    append_page-Covers (1 ∷ 2 ∷ []) (omega arith) 4 two_files two_file 16 two_pages (5 ∷ []) 2
      two-Covers (omega arith)

-- The first page ends at byte 22: a block of four comes off the front, and the records start at 18.
rebase_head-Covers_example : Rebased (rebase_head true 4 4 1 two_files) 1 two_pages 2
rebase_head-Covers_example =
    rebase_head-Covers true 4 4 1 two_files two_file 16 two_pages (5 ∷ []) 2 two-Covers
      (omega arith) (omega arith) (omega arith) (omega arith)

rebase_collapses :
    (rebase_head true 4 4 1 two_files).grain
    ≡ some (header_bytes 18 ++ (7 ∷ 8 ∷ 1 ∷ 0 ∷ 0 ∷ 0 ∷ 9 ∷ 5 ∷ []))
unfolding rebase_head header_bytes write_at bytes_eq to_le from_le
rebase_collapses = refl

abbrev z : Zstd
z = record { encode = λ level bytes. 0xFD ∷ bytes; decode = decode_behind }
  where
    decode_behind : List ℕ → Option (List ℕ)
    decode_behind [] = none
    decode_behind (b ∷ bs) = some bs

abbrev trunk : List ℕ
trunk = 0xFD ∷ line

abbrev chunk : ChunkRecord
chunk = record {
  uncomp_start = 0;
  uncomp_len = 5;
  comp_start = 0;
  comp_len = 6;
  first_write_ms = 10;
  last_write_ms = 20;
  seq = 0;
}

abbrev rings : List ℕ
rings = rings_header 1 no_drops none ++ (encode (chunk ∷ []) ++ [])

chunk-Frames : Frames z trunk 0 0 5 6 (chunk ∷ []) (line ∷ [])
chunk-Frames = (
  record {
    uncomp_start = refl;
    uncomp_len = refl;
    comp_start = refl;
    inside = omega arith;
    frame_len = omega arith;
    chunk_len = omega arith;
    nonempty = omega arith;
    fits = omega arith;
    decoded = refl;
  },
  (refl, refl),
)

chunk-IsRecord : IsRecord chunk
chunk-IsRecord = record {
  uncomp_start = omega arith;
  uncomp_len = omega arith;
  comp_start = omega arith;
  comp_len = omega arith;
  first_write_ms = omega arith;
  last_write_ms = omega arith;
  seq = omega arith;
}

rings-IsHeader : IsHeader 1 no_drops none
rings-IsHeader = record {
  next_seq = omega arith;
  uncomp_bytes = omega arith;
  comp_bytes = omega arith;
  id_len = refl;
}

abbrev empty_files : GrainFiles
empty_files = record { grain = some (header_bytes header_len); ino = 3; commit = none }

empty-Covers : Covers empty_files (header_bytes header_len) 16 [] [] 0
unfolding locate first_record_offset header_bytes to_le bytes_eq
empty-Covers = record {
  on_disk = refl;
  grain = record {
    offset = refl;
    inside = omega arith;
    behind = refl;
    pages = tt;
    cut_short = inl (omega arith);
  };
  counted = omega arith;
  within = omega arith;
  known = false;
  located = refl;
}

may_contain_all-extend_grain_example :
    (left : Leaves (extend_grain z rings trunk 4 empty_files) (page_of line ∷ [])) × (load left.file
      ≡ some (page_of line ∷ []))
    × (may_contain_all (page_of line ∷ []) 0 (word ∷ []) ≡ true)
may_contain_all-extend_grain_example =
    may_contain_all-extend_grain z trunk rings 4 0 5 6 v2 (chunk ∷ []) (line ∷ [])
      (parse_index-encode 1 no_drops none (chunk ∷ []) [] rings-IsHeader (chunk-IsRecord, tt)
        (omega arith))
      chunk-Frames empty_files (header_bytes header_len) 16 [] [] 0 empty-Covers (λ h. refl) 0 line
      (word ∷ []) refl (word-IsToken, tt)
