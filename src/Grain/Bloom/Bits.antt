-- ===== src/Grain/Bloom/Bits.antt =====
-- Setting and testing one bit of a byte, checked over all bytes.
use timberfs.Prelude.{
  ℕ, zero, suc, ◌^◌, ◌<◌, ◌≡◌, refl, bit_and, bit_or, Bool, true, false, ◌&&◌, ◌||◌, not, arith,
  ltb, ltb→lt, ◌==◌, if◌then◌else◌,
}

all_below : ℕ → (ℕ → Bool) → Bool
all_below zero p = true
all_below (suc n) p = if p n then all_below n p else false

all_below-at : (n : ℕ) (p : ℕ → Bool) (x : ℕ) → all_below n p ≡ true → x < n → p x ≡ true
unfolding all_below
all_below-at zero p x h k = absurd (omega (arith, k))
all_below-at (suc n) p x h k = ground (arith, all_below-at n p x)

abbrev pub has_bit : ℕ → ℕ → Bool
has_bit b k = not (bit_and b (2 ^ k) == 0)

set_table :
    all_below 8
      (λ k. all_below 256 (λ b. has_bit (bit_or b (2 ^ k)) k && ltb (bit_or b (2 ^ k)) 256))
    ≡ true
unfolding all_below
set_table = refl

keep_table :
    all_below 8 (λ j.
      all_below 8 (λ k. all_below 256 (λ b. not (has_bit b j) || has_bit (bit_or b (2 ^ k)) j)))
    ≡ true
unfolding all_below
keep_table = refl

and_parts : (a b : Bool) → (a && b) ≡ true → (a ≡ true) × (b ≡ true)
and_parts true b h = (refl, h)
and_parts false b h = cc

-- After setting a bit it is set, the byte is a byte, and every bit that was set still is.
pub has_bit-set :
    (b k : ℕ) → b < 256 → k < 8 → (has_bit (bit_or b (2 ^ k)) k ≡ true) × (bit_or b (2 ^ k) < 256)
has_bit-set b k hb hk =
    let (set, small) = and_parts (has_bit (bit_or b (2 ^ k)) k) (ltb (bit_or b (2 ^ k)) 256) (
      all_below-at 256 (λ b. has_bit (bit_or b (2 ^ k)) k && ltb (bit_or b (2 ^ k)) 256) b
        (all_below-at 8
          (λ k. all_below 256 (λ b. has_bit (bit_or b (2 ^ k)) k && ltb (bit_or b (2 ^ k)) 256)) k
          set_table hk)
        hb) in
    (set, ltb→lt (bit_or b (2 ^ k)) 256 small)

pub has_bit-kept :
    (b j k : ℕ) → b < 256 → j < 8 → k < 8 → has_bit b j ≡ true → has_bit (bit_or b (2 ^ k)) j ≡ true
has_bit-kept b j k hb hj hk h = implied (has_bit b j) (has_bit (bit_or b (2 ^ k)) j) h (
    all_below-at 256 (λ b. not (has_bit b j) || has_bit (bit_or b (2 ^ k)) j) b
      (all_below-at 8 (λ k. all_below 256 (λ b. not (has_bit b j) || has_bit (bit_or b (2 ^ k)) j))
        k
        (all_below-at 8
          (λ j.
            all_below 8
              (λ k. all_below 256 (λ b. not (has_bit b j) || has_bit (bit_or b (2 ^ k)) j)))
          j keep_table hj)
        hk)
      hb)
  where
    implied : (a b : Bool) → a ≡ true → (not a || b) ≡ true → b ≡ true
    implied true b h k = k
    implied false b h k = cc
