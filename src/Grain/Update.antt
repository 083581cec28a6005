-- ===== src/Grain/Update.antt =====
-- `build_grain`, `extend_grain`, `append_page` and `rebase_head` of src/grain.rs: how the token index
-- follows its store.
pub mod Covers
pub mod Located
pub mod Chunks
pub mod Answers
pub mod Adopt
pub mod Build
pub mod Extend
pub mod Rebase
use timberfs.Prelude.{
  ℕ, zero, suc, ◌+◌, ◌-◌, ◌*◌, ◌/◌, ◌%◌, ◌^◌, min, Bool, true, false, ◌&&◌, ◌||◌, not, List, [],
  ◌∷◌, ◌++◌, Option, none, some, length, take, drop, replicate, get_elem?,
}
use timberfs.Prelude.{Result, ok, err, ltb, leb, ◌==◌, if◌then◌else◌, ◌>>=◌}
use timberfs.Bytes.{slice, to_le, u32_at, bytes_eq, write_at, set_len}
use timberfs.Format.{ChunkRecord, parse_index_versioned}
use timberfs.Format
use timberfs.Format.Chunk.{Zstd, ChunkError, read_frame, decode_frame}
use timberfs.Format.Last.{read_index_tail}
use timberfs.Grain.Tokens.{tokenize}
use timberfs.Grain.Bloom.{build_filter, filter_contains}
use timberfs.Grain.{
  grain_magic, grain_magic_v2, header_len, lead_len, header_bytes, Stamp, Tail, Commit, GrainFiles,
  GrainError, index, chunk, stamp, walk, load_commit, save_commit, locate,
}

-- The two writes of one record.
unfoldable pub write_page : List ℕ → ℕ → List ℕ → List ℕ
unfolding write_at to_le
write_page file off filter =
    write_at (write_at file off (to_le 4 (length filter % 2 ^ 32))) (off + 4) filter

abbrev pub chunk_error : {A : Type 0} → Result ChunkError A → Result GrainError A
chunk_error (ok a) = ok a
chunk_error (err e) = err (chunk e)

abbrev pub index_error : {A : Type 0} → Result Format.Error A → Result GrainError A
index_error (ok a) = ok a
index_error (err e) = err (index e)

-- The loop over the chunks that are not indexed yet: the file, and where its records end.
unfoldable pub index_chunks :
    Zstd → List ℕ → List ChunkRecord → List ℕ → ℕ → Result GrainError (List ℕ × ℕ)
unfolding read_frame decode_frame build_filter tokenize write_page
index_chunks z trunk [] file off = ok (file, off)
index_chunks z trunk (c ∷ cs) file off = do
  comp ← chunk_error (read_frame trunk c)
  bytes ← chunk_error (decode_frame z comp c.uncomp_len)
  let filter = build_filter (tokenize bytes)
  index_chunks z trunk cs (write_page file off filter) (off + 4 + length filter)

abbrev pub committed : ℕ → ℕ → List ℕ × ℕ → GrainFiles
committed ino count p = record {
  grain = some p.0;
  ino = ino;
  commit = save_commit ino p.0 (record { count = count; end = p.1 });
}

-- `fresh` is the inode of the file that is staged and renamed into place.
unfoldable pub build_grain : Zstd → List ℕ → List ℕ → ℕ → Result GrainError GrainFiles
unfolding parse_index_versioned index_chunks save_commit header_bytes
build_grain z rings trunk fresh = do
  (records, version) ← index_error (parse_index_versioned rings)
  p ← index_chunks z trunk records (header_bytes header_len) header_len
  ok (committed fresh (length records) p)

-- `extend_grain` of a grain whose records end at `tail`, known from the commit or walked to, against
-- the number of chunks and the ones behind those covered.
abbrev pub extend_by :
    Zstd
    → List ℕ
    → List ℕ
    → ℕ
    → GrainFiles
    → List ℕ
    → Tail
    → Bool
    → ℕ × List ChunkRecord
    → Result GrainError GrainFiles
extend_by z rings trunk fresh g cut tail known (chunks, new) =
    if ltb chunks tail.count
    then build_grain z rings trunk fresh
    else if tail.count == chunks
    then ok (record {
      grain = some cut;
      ino = g.ino;
      commit = (if known then g.commit else save_commit g.ino cut tail);
    })
    else (index_chunks z trunk new cut tail.end >>= λ p. ok (committed g.ino chunks p))

-- What lies past the committed end is cut off.
abbrev pub cut_tail : List ℕ → Tail → List ℕ
cut_tail file tail = if ltb tail.end (length file) then set_len tail.end file else file

abbrev pub extend_from :
    Zstd → List ℕ → List ℕ → ℕ → GrainFiles → List ℕ → Tail → Bool → Result GrainError GrainFiles
extend_from z rings trunk fresh g file tail known = do
  counted ← index_error (read_index_tail rings tail.count)
  extend_by z rings trunk fresh g (cut_tail file tail) tail known counted

abbrev pub extend_located :
    Zstd
    → List ℕ
    → List ℕ
    → ℕ
    → GrainFiles
    → List ℕ
    → Option (Tail × Bool)
    → Result GrainError GrainFiles
extend_located z rings trunk fresh g file none = build_grain z rings trunk fresh
extend_located z rings trunk fresh g file (some (tail, known)) =
    extend_from z rings trunk fresh g file tail known

abbrev pub extend_file :
    Zstd → List ℕ → List ℕ → ℕ → GrainFiles → Option (List ℕ) → Result GrainError GrainFiles
extend_file z rings trunk fresh g none = build_grain z rings trunk fresh
extend_file z rings trunk fresh g (some file) =
    extend_located z rings trunk fresh g file (locate g.ino g.commit file)

unfoldable pub extend_grain : Zstd → List ℕ → List ℕ → ℕ → GrainFiles → Result GrainError GrainFiles
unfolding build_grain locate index_chunks save_commit read_index_tail set_len
extend_grain z rings trunk fresh g = extend_file z rings trunk fresh g g.grain

abbrev pub empty_tail : Tail
empty_tail = record { count = 0; end = header_len }

-- A page adopted behind the records of the grain, or of a fresh one.
abbrev pub page_behind : ℕ → List ℕ → Tail → List ℕ → GrainFiles
page_behind ino file tail page = committed ino (tail.count + 1) (
  write_at (cut_tail file tail) tail.end (to_le 4 (length page % 2 ^ 32) ++ page),
  tail.end + (4 + length page),
)

abbrev pub append_located : ℕ → ℕ → List ℕ → List ℕ → Option (Tail × Bool) → GrainFiles
append_located ino fresh file page none =
    page_behind fresh (header_bytes header_len) empty_tail page
append_located ino fresh file page (some (tail, known)) = page_behind ino file tail page

abbrev pub append_file : ℕ → Option Commit → ℕ → Option (List ℕ) → List ℕ → GrainFiles
append_file ino commit fresh none page = page_behind fresh (header_bytes header_len) empty_tail page
append_file ino commit fresh (some file) page =
    append_located ino fresh file page (locate ino commit file)

unfoldable pub append_page : ℕ → List ℕ → GrainFiles → GrainFiles
unfolding locate header_bytes write_at set_len save_commit to_le
append_page fresh page g = append_file g.ino g.commit fresh g.grain page

-- `known.map(..)` and `recommit`
abbrev pub recommit : ℕ → List ℕ → Option Tail → Option Commit
recommit ino file none = none
recommit ino file (some t) = save_commit ino file t

abbrev pub collapsed_tail : ℕ → ℕ → Option Tail → Option Tail
collapsed_tail k aligned none = none
collapsed_tail k aligned (some t) = some (record { count = t.count - k; end = t.end - aligned })

abbrev pub copied_tail : ℕ → ℕ → Option Tail → Option Tail
copied_tail k survivors none = none
copied_tail k survivors (some t) =
    some (record { count = t.count - k; end = header_len + (t.end - survivors) })

-- `.filter(..)`
abbrev pub usable : ℕ → ℕ → Option Tail → Option Tail
usable k survivors none = none
usable k survivors (some t) = if leb k t.count && leb survivors t.end then some t else none

abbrev pub end_of : Option Tail → ℕ → ℕ
end_of none len = len
end_of (some t) len = t.end

-- The whole blocks come off the front and the header is written over what is left of the dead bytes;
-- or the tail is copied behind a new header.
unfoldable pub rebase_known : Bool → ℕ → ℕ → ℕ → ℕ → List ℕ → ℕ → ℕ → Option Tail → GrainFiles
unfolding write_at header_bytes save_commit
rebase_known can_collapse bsize fresh k ino file len survivors known =
    let aligned = (survivors - header_len) / bsize * bsize in
    let collapsed = write_at (drop aligned file) 0 (header_bytes (survivors - aligned)) in
    let copied = header_bytes header_len ++ slice survivors (end_of known len - survivors) file in
    if ltb 0 aligned && can_collapse
    then record {
      grain = some collapsed;
      ino = ino;
      commit = recommit ino collapsed (collapsed_tail k aligned known);
    }
    else record {
      grain = some copied;
      ino = fresh;
      commit = recommit fresh copied (copied_tail k survivors known);
    }

abbrev pub no_grain : GrainFiles → GrainFiles
no_grain g = record g { grain = none; commit = none }

abbrev pub rebase_stamped : Bool → ℕ → ℕ → ℕ → GrainFiles → List ℕ → Option Stamp → GrainFiles
rebase_stamped can_collapse bsize fresh k g file none = no_grain g
rebase_stamped can_collapse bsize fresh k g file (some s) =
    let t = walk file s.first s.len k in
    if t.count == k
    then rebase_known can_collapse bsize fresh k g.ino file s.len t.end
        (usable k t.end (load_commit g.commit s))
    else no_grain g

abbrev pub rebase_file : Bool → ℕ → ℕ → ℕ → GrainFiles → Option (List ℕ) → GrainFiles
rebase_file can_collapse bsize fresh k g none = g
rebase_file can_collapse bsize fresh k g (some file) =
    rebase_stamped can_collapse bsize fresh k g file (stamp g.ino file)

-- `can_collapse` is whether the file system supports the collapse.
unfoldable pub rebase_head : Bool → ℕ → ℕ → ℕ → GrainFiles → GrainFiles
unfolding stamp walk load_commit rebase_known
rebase_head can_collapse bsize fresh k g =
    if k == 0 then g else rebase_file can_collapse bsize fresh k g g.grain
