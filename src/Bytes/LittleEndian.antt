-- ===== src/Bytes/LittleEndian.antt =====
-- Round trips of the little-endian integers.
use timberfs.Prelude.{ℕ, zero, suc, ◌/◌, ◌^◌, ◌<◌, ◌≡◌, refl, ap, arith}
use timberfs.Prelude.{List, [], ◌∷◌, length, All, true}
use native.Mathlib.Nat.{pow-suc}
use timberfs.Prelude.{◌≤◌, drop, All-take, All-drop, length-take}
use timberfs.Bytes.{slice, u64_at, IsByte, IsU32, IsU64, to_le, from_le, bytes_eq}

pub length-to_le : (n v : ℕ) → length (to_le n v) ≡ n
unfolding to_le
length-to_le zero v = refl
length-to_le (suc n) v = ap suc (length-to_le n (v / 256))

pub to_le-IsByte : (n v : ℕ) → All IsByte (to_le n v)
unfolding to_le
to_le-IsByte zero v = tt
to_le-IsByte (suc n) v = (omega arith, to_le-IsByte n (v / 256))

pub from_le-to_le : (n v : ℕ) → v < 256 ^ n → from_le (to_le n v) ≡ v
unfolding to_le from_le
from_le-to_le zero v h = omega arith
from_le-to_le (suc n) v h = let ih = from_le-to_le n (v / 256) (small n v h) in omega (arith, ih)
  where
    small : (n v : ℕ) → v < 256 ^ suc n → v / 256 < 256 ^ n
    small n v h = omega arith

pub from_le-u64 : (v : ℕ) → IsU64 v → from_le (to_le 8 v) ≡ v
from_le-u64 v h = from_le-to_le 8 v h

pub from_le-u32 : (v : ℕ) → IsU32 v → from_le (to_le 4 v) ≡ v
from_le-u32 v h = from_le-to_le 4 v h

-- Reading is below the width, and writing back what was read gives the same bytes.
pub from_le-lt : (bs : List ℕ) → All IsByte bs → from_le bs < 256 ^ length bs
unfolding from_le
from_le-lt [] h = omega arith
from_le-lt (b ∷ bs) (hb, h) = omega (arith, from_le-lt bs h, pow-suc 256 (length bs))

pub to_le-from_le : (bs : List ℕ) → All IsByte bs → to_le (length bs) (from_le bs) ≡ bs
unfolding from_le to_le
to_le-from_le [] h = refl
to_le-from_le (b ∷ bs) (hb, h) = grind (arith, to_le-from_le bs h)

pub bytes_eq_refl : (bs : List ℕ) → bytes_eq bs bs ≡ true
unfolding bytes_eq
bytes_eq_refl [] = refl
bytes_eq_refl (b ∷ bs) = ground (arith, bytes_eq_refl bs)

pub bytes_eq→eq : (as' bs : List ℕ) → bytes_eq as' bs ≡ true → as' ≡ bs
unfolding bytes_eq
bytes_eq→eq [] [] h = refl
bytes_eq→eq [] (b ∷ bs) h = cc
bytes_eq→eq (a ∷ as') [] h = cc
bytes_eq→eq (a ∷ as') (b ∷ bs) h = ground (arith, bytes_eq→eq as' bs)

-- As `from_le-lt`, for a width that the bytes do not fill.
pub from_le-lt_pow : (n : ℕ) (bs : List ℕ) → All IsByte bs → length bs ≤ n → from_le bs < 256 ^ n
unfolding from_le
from_le-lt_pow zero [] h e = omega arith
from_le-lt_pow zero (b ∷ bs) h e = absurd (omega arith)
from_le-lt_pow (suc n) [] h e = omega (arith, pow-suc 256 n, from_le-lt_pow n [] tt (omega arith))
from_le-lt_pow (suc n) (b ∷ bs) (hb, h) e =
    omega (arith, pow-suc 256 n, from_le-lt_pow n bs h (omega arith))

pub u64_at-IsU64 : (i : ℕ) (b : List ℕ) → All IsByte b → IsU64 (u64_at i b)
u64_at-IsU64 i b h =
    from_le-lt_pow 8 (slice i 8 b) (All-take IsByte 8 (drop i b) (All-drop IsByte i b h))
      (omega (arith, length-take 8 (drop i b)))
