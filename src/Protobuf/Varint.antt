-- ===== src/Protobuf/Varint.antt =====
-- Varints: what is written is read back.
use timberfs.Prelude.{
  ℕ, zero, suc, ◌+◌, ◌*◌, ◌/◌, ◌%◌, ◌^◌, ◌<◌, ◌≡◌, refl, ap, ◌∙◌, List, ◌++◌, arith, ok, ◌==◌,
  ==_iff, le→ltb, lt→ltb, lt→leb, Bool-cases, inl, inr, true,
}
use native.Mathlib.Nat.{mod-eq_of_lt, div-add-mod}
use native.Mathlib.Numerals.{towards_suc}
use timberfs.Bytes.{IsU64}
use timberfs.Protobuf.{varint_loop, varint_rounds, read_varint, put_varint}

seven_bits : (n : ℕ) → 2 ^ (n + 7) ≡ 2 ^ n * 128
seven_bits n = simp towards_suc (omega arith)

-- The value at a shift is its low seven bits there and the others seven bits higher.
low_and_high : (v n : ℕ) → v % 128 * 2 ^ n + v / 128 * 2 ^ (n + 7) ≡ v * 2 ^ n
low_and_high v n =
    let high : v / 128 * 2 ^ (n + 7) ≡ v / 128 * (2 ^ n * 128) =
      ap (λ (p : ℕ). v / 128 * p) (seven_bits n) in
    let both : (128 * (v / 128) + v % 128) * 2 ^ n ≡ v * 2 ^ n =
      ap (λ (x : ℕ). x * 2 ^ n) (div-add-mod v 128) in
    omega (arith, high, both)

varint_loop-rounds :
    (fuel out shift v : ℕ) (rest : List ℕ)
    → shift + 7 * fuel ≡ 63
    → out + v * 2 ^ shift < 2 ^ 64
    → v < 128 ^ suc fuel
    → varint_loop out shift (varint_rounds (suc fuel) v ++ rest) ≡ ok (out + v * 2 ^ shift, rest)
unfolding varint_loop varint_rounds
varint_loop-rounds zero out shift v rest h fits k =
    let small : v < 128 = omega (arith, k) in
    let none_left : (v / 128 == 0) ≡ true = (==_iff (v / 128) 0).1 (omega (arith, small)) in
    let low : (v % 128) % 128 ≡ v = omega (arith, small) in
    rw none_left (
      rw (lt→ltb (v % 128) 128 (omega arith), low)
        (ap (λ (n : ℕ). ok (n, rest)) (mod-eq_of_lt fits)))
varint_loop-rounds (suc fuel) out shift v rest h fits k = elim (Bool-cases (v / 128 == 0)) [
  | inl last ↦
      let low : (v % 128) % 128 ≡ v = omega (arith, (==_iff (v / 128) 0).0 last) in
      rw last (
        rw (lt→ltb (v % 128) 128 (omega arith), low)
          (ap (λ (n : ℕ). ok (n, rest)) (mod-eq_of_lt fits)))
  | inr more ↦
      let low : (v % 128 + 128) % 128 ≡ v % 128 = omega arith in
      let within : out + v % 128 * 2 ^ shift < 2 ^ 64 = omega (arith, fits, low_and_high v shift) in
      let sum : out + v % 128 * 2 ^ shift + v / 128 * 2 ^ (shift + 7) ≡ out + v * 2 ^ shift =
        omega (arith, low_and_high v shift) in
      rw more (
        rw
          (
            le→ltb (v % 128 + 128) 128 (omega arith),
            lt→leb 64 (shift + 7) (omega (arith, h)),
            low,
            mod-eq_of_lt within,
          )
          (varint_loop-rounds fuel (out + v % 128 * 2 ^ shift) (shift + 7) (v / 128) rest
              (omega (arith, h)) (omega (arith, sum, fits)) (omega (arith, k))
            ∙ ap (λ (n : ℕ). ok (n, rest)) sum))
]

-- A 64-bit value is read back from its varint, and what follows is left.
pub read_varint-put_varint :
    (v : ℕ) (rest : List ℕ) → IsU64 v → read_varint (put_varint v ++ rest) ≡ ok (v, rest)
unfolding read_varint put_varint
read_varint-put_varint v rest h =
    varint_loop-rounds 9 0 0 v rest refl (omega (arith, h)) (omega (arith, h))
    ∙ ap (λ (n : ℕ). ok (n, rest)) (omega arith)
