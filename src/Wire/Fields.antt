-- ===== src/Wire/Fields.antt =====
-- The readers of src/frame.rs against its writers, one field after the other.
use timberfs.Prelude.{
  ℕ, ◌-◌, ◌*◌, ◌^◌, ◌≤◌, ◌<◌, ◌≡◌, refl, sym, min, List, [], ◌∷◌, ◌++◌, map, length, All, arith, ok,
  le→ltb, append_assoc, length-append, take-append_eq, drop-append_eq,
}
use timberfs.Bytes.{to_le, IsU32, IsU64}
use timberfs.Bytes.LittleEndian.{from_le-u32, from_le-u64}
use timberfs.Wire.{
  Run, Sidecar, What, what_sidecar_body, what_run_start, what_run_end, what_run_count,
  what_sidecar_kind, what_sidecar_length, what_sidecar_count, put_run_list, put_runs, put_entries,
  put_sidecar_table, put_sidecar_bodies,
}
use timberfs.Wire.Decode.{
  take_bytes, get_u32, get_u64, runs_loop, get_runs, table_loop, get_sidecar_table, get_sidecars,
  sum_lengths,
}

pub take_bytes-append :
    (n : ℕ) (what : What) (xs ys : List ℕ)
    → n ≡ length xs
    → take_bytes n what (xs ++ ys) ≡ ok (xs, ys)
unfolding take_bytes
take_bytes-append n what xs ys e =
    rw
      (
        le→ltb (length (xs ++ ys)) n (omega (arith, e, length-append xs ys)),
        take-append_eq n xs ys e,
        drop-append_eq n xs ys e,
      )
      refl

length-u32 : (v : ℕ) → 4 ≡ length (to_le 4 v)
unfolding to_le
length-u32 v = refl

length-u64 : (v : ℕ) → 8 ≡ length (to_le 8 v)
unfolding to_le
length-u64 v = refl

pub get_u32-to_le :
    (what : What) (v : ℕ) (ys : List ℕ) → IsU32 v → get_u32 what (to_le 4 v ++ ys) ≡ ok (v, ys)
unfolding get_u32
get_u32-to_le what v ys h =
    rw (take_bytes-append 4 what (to_le 4 v) ys (length-u32 v), from_le-u32 v h) refl

pub get_u64-to_le :
    (what : What) (v : ℕ) (ys : List ℕ) → IsU64 v → get_u64 what (to_le 8 v ++ ys) ≡ ok (v, ys)
unfolding get_u64
get_u64-to_le what v ys h =
    rw (take_bytes-append 8 what (to_le 8 v) ys (length-u64 v), from_le-u64 v h) refl

-- A run as the coverage of a store has it.
pub record IsRun (r : Run) : Type 0 where
  pub start : IsU64 r.start
  pub end : IsU64 r.end
  pub ordered : r.start ≤ r.end

-- An eight-byte tag.
abbrev pub IsSidecar : Sidecar → Type 0
IsSidecar s = length s.kind ≡ 8

pub length-put_run_list : (rs : List Run) → length (put_run_list rs) ≡ 16 * length rs
unfolding to_le
length-put_run_list [] = omega arith
length-put_run_list (r ∷ rs) = omega (arith, length-put_run_list rs)

pub length-put_entries :
    (ss : List Sidecar) → All IsSidecar ss → length (put_entries ss) ≡ 12 * length ss
unfolding to_le
length-put_entries [] h = omega arith
length-put_entries (s ∷ ss) (h, hs) = omega (
  arith,
  h,
  length-put_entries ss hs,
  length-append s.kind (to_le 4 (length s.bytes) ++ put_entries ss),
)

runs_loop-put :
    (rs : List Run) (ys : List ℕ)
    → All IsRun rs
    → runs_loop (length rs) (put_run_list rs ++ ys) ≡ ok (rs, ys)
unfolding runs_loop
runs_loop-put [] ys h = refl
runs_loop-put (r ∷ rs) ys (h, hs) =
    rw
      (
        append_assoc (to_le 8 r.start) (to_le 8 r.end ++ put_run_list rs) ys,
        append_assoc (to_le 8 r.end) (put_run_list rs) ys,
        get_u64-to_le what_run_start r.start (to_le 8 r.end ++ (put_run_list rs ++ ys)) h.start,
        get_u64-to_le what_run_end r.end (put_run_list rs ++ ys) h.end,
        le→ltb r.end r.start h.ordered,
        runs_loop-put rs ys hs,
      )
      refl

-- A list of runs is read back, whatever follows it.
pub get_runs-put_runs :
    (rs : List Run) (ys : List ℕ)
    → IsU32 (length rs)
    → All IsRun rs
    → get_runs (put_runs rs ++ ys) ≡ ok (rs, ys)
unfolding get_runs
get_runs-put_runs rs ys small h =
    rw
      (
        append_assoc (to_le 4 (length rs)) (put_run_list rs) ys,
        get_u32-to_le what_run_count (length rs) (put_run_list rs ++ ys) small,
        le→ltb (length (put_run_list rs ++ ys)) (min (length rs * 16) (2 ^ 64 - 1))
            (omega (arith, length-append (put_run_list rs) ys, length-put_run_list rs)),
        runs_loop-put rs ys h,
      )
      refl

-- What the table keeps of a sidecar.
abbrev pub entry_of : Sidecar → List ℕ × ℕ
entry_of s = (s.kind, length s.bytes)

abbrev pub IsSmall : Sidecar → Type 0
IsSmall s = IsU32 (length s.bytes)

table_loop-put :
    (ss : List Sidecar) (ys : List ℕ)
    → All IsSidecar ss
    → All IsSmall ss
    → table_loop (length ss) (put_entries ss ++ ys) ≡ ok (map entry_of ss, ys)
unfolding table_loop
table_loop-put [] ys h k = refl
table_loop-put (s ∷ ss) ys (h, hs) (k, ks) =
    rw
      (
        append_assoc s.kind (to_le 4 (length s.bytes) ++ put_entries ss) ys,
        append_assoc (to_le 4 (length s.bytes)) (put_entries ss) ys,
        take_bytes-append 8 what_sidecar_kind s.kind
            (to_le 4 (length s.bytes) ++ (put_entries ss ++ ys)) (sym h),
        get_u32-to_le what_sidecar_length (length s.bytes) (put_entries ss ++ ys) k,
        table_loop-put ss ys hs ks,
      )
      refl

-- The table of the sidecars is read back, whatever follows it.
pub get_sidecar_table-put :
    (ss : List Sidecar) (ys : List ℕ)
    → IsU32 (length ss)
    → All IsSidecar ss
    → All IsSmall ss
    → get_sidecar_table (put_sidecar_table ss ++ ys) ≡ ok (map entry_of ss, ys)
unfolding get_sidecar_table
get_sidecar_table-put ss ys small h k =
    rw
      (
        append_assoc (to_le 4 (length ss)) (put_entries ss) ys,
        get_u32-to_le what_sidecar_count (length ss) (put_entries ss ++ ys) small,
        le→ltb (length (put_entries ss ++ ys)) (min (length ss * 12) (2 ^ 64 - 1))
            (omega (arith, length-append (put_entries ss) ys, length-put_entries ss h)),
        table_loop-put ss ys h k,
      )
      refl

pub get_sidecars-put :
    (ss : List Sidecar) (ys : List ℕ)
    → get_sidecars (map entry_of ss) (put_sidecar_bodies ss ++ ys) ≡ ok (ss, ys)
unfolding get_sidecars
get_sidecars-put [] ys = refl
get_sidecars-put (s ∷ ss) ys =
    rw
      (
        append_assoc s.bytes (put_sidecar_bodies ss) ys,
        take_bytes-append (length s.bytes) what_sidecar_body s.bytes (put_sidecar_bodies ss ++ ys)
            refl,
        get_sidecars-put ss ys,
      )
      refl

pub sum_lengths-put :
    (ss : List Sidecar) → sum_lengths (map entry_of ss) ≡ length (put_sidecar_bodies ss)
sum_lengths-put [] = refl
sum_lengths-put (s ∷ ss) =
    omega (arith, sum_lengths-put ss, length-append s.bytes (put_sidecar_bodies ss))

-- What fits the length field of the frame fits those inside.
pub sidecars-IsSmall :
    (ss : List Sidecar) (n : ℕ) → length (put_sidecar_bodies ss) ≤ n → n < 2 ^ 32 → All IsSmall ss
sidecars-IsSmall [] n h small = tt
sidecars-IsSmall (s ∷ ss) n h small = (
  omega (arith, h, small, length-append s.bytes (put_sidecar_bodies ss)),
  sidecars-IsSmall ss n (omega (arith, h, length-append s.bytes (put_sidecar_bodies ss))) small,
)
