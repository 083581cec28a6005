-- ===== src/Bytes.antt =====
-- Byte strings as the code handles them: slices, little-endian integers (`to_le_bytes`,
-- `from_le_bytes`) and positioned writes into a file (`write_all_at`, `set_len`).
-- A byte is a number below 256, a file is the list of its bytes.
pub mod LittleEndian
pub mod File
use timberfs.Prelude.{ℕ, zero, suc, ◌+◌, ◌-◌, ◌*◌, ◌/◌, ◌%◌, ◌^◌, ◌<◌}
use timberfs.Prelude.{Bool, true, false, ◌&&◌, List, [], ◌∷◌, ◌++◌, length, take, drop}
use timberfs.Prelude.{replicate, ◌==◌}

abbrev pub IsByte : ℕ → Type 0
IsByte b = b < 256

abbrev pub IsU32 : ℕ → Type 0
IsU32 v = v < 2 ^ 32

abbrev pub IsU64 : ℕ → Type 0
IsU64 v = v < 2 ^ 64

-- `&b[from..from + len]`; short where the buffer is (each caller tests the length first).
abbrev pub slice : ℕ → ℕ → List ℕ → List ℕ
slice from len b = take len (drop from b)

-- The low `n` bytes of `v`, lowest first: `to_le_bytes` at `n = 4` and `n = 8`.
unfoldable pub to_le : ℕ → ℕ → List ℕ
to_le zero v = []
to_le (suc n) v = v % 256 ∷ to_le n (v / 256)

unfoldable pub from_le : List ℕ → ℕ
from_le [] = 0
from_le (b ∷ bs) = b + 256 * from_le bs

-- `u64::from_le_bytes(b[i..i + 8])` and its 32-bit sibling
abbrev pub u64_at : ℕ → List ℕ → ℕ
u64_at i b = from_le (slice i 8 b)

abbrev pub u32_at : ℕ → List ℕ → ℕ
u32_at i b = from_le (slice i 4 b)

-- `==` of two byte strings
unfoldable pub bytes_eq : List ℕ → List ℕ → Bool
bytes_eq [] [] = true
bytes_eq [] (b ∷ bs) = false
bytes_eq (a ∷ as') [] = false
bytes_eq (a ∷ as') (b ∷ bs) = (a == b) && bytes_eq as' bs

-- `File::write_all_at`: bytes past the old end appear as zeros.
unfoldable pub write_at : List ℕ → ℕ → List ℕ → List ℕ
write_at file off bytes =
    (take off file ++ replicate (off - length file) 0) ++ (bytes ++ drop (off + length bytes) file)

-- `File::set_len`
unfoldable pub set_len : ℕ → List ℕ → List ℕ
set_len n file = take n file ++ replicate (n - length file) 0
