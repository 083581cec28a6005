-- ===== src/Bytes/File.antt =====
-- Positioned writes: a write at the end appends, one past it keeps what stands before it.
use timberfs.Prelude.{ℕ, ◌+◌, ◌-◌, ◌≤◌, ◌≡◌, ap, arith}
use timberfs.Prelude.{List, [], ◌++◌, length, take, drop, replicate, append-nil, append_assoc}
use timberfs.Prelude.{length-append, length-take, take_all, drop_all}
use timberfs.Prelude.{take-append_eq}
use timberfs.Prelude.{max, refl, ◌∙◌, length-drop, drop-append_eq}
use timberfs.Bytes.{write_at, set_len, slice}

pad_none : (n m : ℕ) → n ≤ m → replicate {A = ℕ} (n - m) 0 ≡ []
pad_none n m h = ap (λ (t : ℕ). replicate {A = ℕ} t 0) (zero_sub n m h)
  where
    zero_sub : (n m : ℕ) → n ≤ m → n - m ≡ 0
    zero_sub n m h = omega arith

pub write_at_end : (file bytes : List ℕ) → write_at file (length file) bytes ≡ file ++ bytes
unfolding write_at
write_at_end file bytes = rw (
  take_all (length file) file (omega arith),
  pad_none (length file) (length file) (omega arith),
  drop_all (length file + length bytes) file (omega arith),
  append-nil bytes,
  append-nil file,
)

-- What stands behind `off` is lost where the write covers it: the orphan bytes past the last chunk.
pub write_at_inside :
    (file bytes : List ℕ) (off : ℕ)
    → off ≤ length file
    → write_at file off bytes ≡ take off file ++ (bytes ++ drop (off + length bytes) file)
unfolding write_at
write_at_inside file bytes off h = rw (pad_none off (length file) h, append-nil (take off file))

pub take-write_at :
    (file bytes : List ℕ) (off : ℕ)
    → off ≤ length file
    → take (off + length bytes) (write_at file off bytes) ≡ take off file ++ bytes
take-write_at file bytes off h =
    rw
      (
        write_at_inside file bytes off h,
        ← append_assoc (take off file) bytes (drop (off + length bytes) file),
      )
      (take-append_eq (off + length bytes) (take off file ++ bytes) _
        (omega (arith, length-append (take off file) bytes, length-take off file)))

pub set_len_shorter : (n : ℕ) (file : List ℕ) → n ≤ length file → set_len n file ≡ take n file
unfolding set_len
set_len_shorter n file h = rw (pad_none n (length file) h, append-nil (take n file))

module _ (file bytes : List ℕ) (off : ℕ) (h : off ≤ length file) where
  pub length-write_at : length (write_at file off bytes) ≡ max (length file) (off + length bytes)
  length-write_at = rw (write_at_inside file bytes off h) (
      omega (
        arith,
        length-append (take off file) (bytes ++ drop (off + length bytes) file),
        length-append bytes (drop (off + length bytes) file),
        length-take off file,
        length-drop (off + length bytes) file,
        h,
      ))

  -- What stands before the write stays, and what was written is read back.
  pub write_at-before : take off (write_at file off bytes) ≡ take off file
  write_at-before = rw (write_at_inside file bytes off h) (
      take-append_eq off (take off file) (bytes ++ drop (off + length bytes) file)
        (omega (arith, length-take off file, h)))

  pub slice-write_at : slice off (length bytes) (write_at file off bytes) ≡ bytes
  slice-write_at = rw (write_at_inside file bytes off h) (
      ap (take (length bytes)) (
        drop-append_eq off (take off file) (bytes ++ drop (off + length bytes) file)
          (omega (arith, length-take off file, h)))
      ∙ take-append_eq (length bytes) bytes (drop (off + length bytes) file) refl)
