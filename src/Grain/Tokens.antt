-- ===== src/Grain/Tokens.antt =====
-- `tokenize` of src/grain.rs: the distinct ASCII-alphanumeric runs of 3 to 64 bytes. The `HashSet` is
-- the list of its elements.
pub mod Runs
pub mod Sound
pub mod Count
use timberfs.Prelude.{
  ℕ, ◌+◌, ◌-◌, Bool, true, false, ◌&&◌, ◌||◌, List, [], ◌∷◌, ◌++◌, Option, none, some, length,
}
use timberfs.Prelude.{leb, if◌then◌else◌}
use timberfs.Bytes.{slice, bytes_eq}

abbrev pub min_token : ℕ
min_token = 3

abbrev pub max_token : ℕ
max_token = 64

-- `u8::is_ascii_alphanumeric`
unfoldable pub is_alphanumeric : ℕ → Bool
is_alphanumeric b =
    (leb b'0' b && leb b b'9') || ((leb b'A' b && leb b b'Z') || (leb b'a' b && leb b b'z'))

unfoldable pub contains : List ℕ → List (List ℕ) → Bool
unfolding bytes_eq
contains t [] = false
contains t (x ∷ xs) = bytes_eq t x || contains t xs

-- `HashSet::insert`
unfoldable pub insert : List ℕ → List (List ℕ) → List (List ℕ)
unfolding contains
insert t ts = if contains t ts then ts else t ∷ ts

abbrev pub in_range : ℕ → Bool
in_range n = leb min_token n && leb n max_token

-- The run that began at `start`, if any, ends before the byte at `i`.
unfoldable pub end_run : List ℕ → Option ℕ → ℕ → List (List ℕ) → List (List ℕ)
unfolding insert
end_run bytes none i out = out
end_run bytes (some s) i out = if in_range (i - s) then insert (slice s (i - s) bytes) out else out

abbrev pub start_run : Option ℕ → ℕ → Option ℕ
start_run none i = some i
start_run (some s) i = some s

-- The loop over the bytes from the `i`-th on, and the run that the end of the data ends.
unfoldable pub tokenize_loop : List ℕ → ℕ → Option ℕ → List (List ℕ) → List ℕ → List (List ℕ)
unfolding end_run is_alphanumeric
tokenize_loop bytes i start out [] = end_run bytes start i out
tokenize_loop bytes i start out (b ∷ rest) =
    if is_alphanumeric b
    then tokenize_loop bytes (i + 1) (start_run start i) out rest
    else tokenize_loop bytes (i + 1) none (end_run bytes start i out) rest

unfoldable pub tokenize : List ℕ → List (List ℕ)
unfolding tokenize_loop
tokenize bytes = tokenize_loop bytes 0 none [] bytes
