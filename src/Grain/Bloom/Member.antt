-- ===== src/Grain/Bloom/Member.antt =====
-- The Bloom filter of src/grain.rs that is built from tokens, asked for a token.
use timberfs.Prelude.{
  ℕ, zero, suc, ◌*◌, ◌/◌, ◌%◌, ◌^◌, ◌<◌, ◌≡◌, refl, ap, ◌∙◌, sym, Bool, true, false, ◌&&◌, List, [],
  ◌∷◌, length, replicate, All, arith, Bool-cases, inl, inr, ◌==◌, length-replicate,
}
use mathlib.Core.Path.{subst}
use native.Mathlib.Nat.{mod-lt}
use timberfs.Bytes.{IsByte, bytes_eq}
use timberfs.Bytes.LittleEndian.{bytes_eq→eq}
use timberfs.Grain.Tokens.{contains}
use timberfs.Grain.Bloom.{
  wrapping_add, wrapping_mul, positions, bit_positions, or_byte, set_bits, add_tokens, filter_bits,
  build_filter, test_byte, test_bits, filter_contains,
}
use timberfs.Grain.Bloom.Bits.{has_bit-set, has_bit-kept}

module _ (k : ℕ) (hk : k < 8) where
  length-or_byte : (i : ℕ) (bits : List ℕ) → length (or_byte i (2 ^ k) bits) ≡ length bits
  unfolding or_byte
  length-or_byte i [] = refl
  length-or_byte zero (b ∷ bs) = refl
  length-or_byte (suc i) (b ∷ bs) = ap suc (length-or_byte i bs)

  or_byte-IsByte : (i : ℕ) (bits : List ℕ) → All IsByte bits → All IsByte (or_byte i (2 ^ k) bits)
  unfolding or_byte
  or_byte-IsByte i [] h = tt
  or_byte-IsByte zero (b ∷ bs) (hb, h) = ((has_bit-set b k hb hk).1, h)
  or_byte-IsByte (suc i) (b ∷ bs) (hb, h) = (hb, or_byte-IsByte i bs h)

  test_byte-set :
      (i : ℕ) (bits : List ℕ)
      → All IsByte bits
      → i < length bits
      → test_byte i (2 ^ k) (or_byte i (2 ^ k) bits) ≡ true
  unfolding test_byte or_byte
  test_byte-set i [] h l = absurd (omega (arith, l))
  test_byte-set zero (b ∷ bs) (hb, h) l = (has_bit-set b k hb hk).0
  test_byte-set (suc i) (b ∷ bs) (hb, h) l = test_byte-set i bs h (omega (arith, l))

  test_byte-kept :
      (i j m : ℕ) (bits : List ℕ)
      → m < 8
      → All IsByte bits
      → test_byte i (2 ^ m) bits ≡ true
      → test_byte i (2 ^ m) (or_byte j (2 ^ k) bits) ≡ true
  unfolding test_byte or_byte
  test_byte-kept i j m [] hm h t = t
  test_byte-kept zero zero m (b ∷ bs) hm (hb, h) t = has_bit-kept b m k hb hm hk t
  test_byte-kept zero (suc j) m (b ∷ bs) hm (hb, h) t = t
  test_byte-kept (suc i) zero m (b ∷ bs) hm (hb, h) t = t
  test_byte-kept (suc i) (suc j) m (b ∷ bs) hm (hb, h) t = test_byte-kept i j m bs hm h t

and_true : (a b : Bool) → a ≡ true → b ≡ true → (a && b) ≡ true
and_true true b h k = k
and_true false b h k = cc

and_parts : (a b : Bool) → (a && b) ≡ true → (a ≡ true) × (b ≡ true)
and_parts true b h = (refl, h)
and_parts false b h = cc

-- What a filter keeps while bits are set in it.
record Grows (bits bits' : List ℕ) : Type 0 where
  len : length bits' ≡ length bits
  IsBytes : All IsByte bits'
  keeps : (qs : List ℕ) → test_bits qs bits ≡ true → test_bits qs bits' ≡ true

one_bit :
    (p : ℕ) (bits : List ℕ) → All IsByte bits → Grows bits (or_byte (p / 8) (2 ^ (p % 8)) bits)
unfolding test_bits
one_bit p bits h = record {
  len = length-or_byte (p % 8) (omega arith) (p / 8) bits;
  IsBytes = or_byte-IsByte (p % 8) (omega arith) (p / 8) bits h;
  keeps = go;
}
  where
    go :
        (qs : List ℕ)
        → test_bits qs bits ≡ true
        → test_bits qs (or_byte (p / 8) (2 ^ (p % 8)) bits) ≡ true
    go [] t = refl
    go (q ∷ qs) t =
        let (here, later) =
          and_parts (test_byte (q / 8) (2 ^ (q % 8)) bits) (test_bits qs bits) t in
        and_true _ _
          (test_byte-kept (p % 8) (omega arith) (q / 8) (p / 8) (q % 8) bits (omega arith) h here)
          (go qs later)

then-Grows : {a b c : List ℕ} → Grows a b → Grows b c → Grows a c
then-Grows f g = record {
  len = g.len ∙ f.len;
  IsBytes = g.IsBytes;
  keeps = λ qs t. g.keeps qs (f.keeps qs t);
}

set_bits-Grows : (ps bits : List ℕ) → All IsByte bits → Grows bits (set_bits ps bits)
unfolding set_bits
set_bits-Grows [] bits h = record { len = refl; IsBytes = h; keeps = λ qs t. t }
set_bits-Grows (p ∷ ps) bits h =
    let first = one_bit p bits h in then-Grows first (set_bits-Grows ps _ first.IsBytes)

add_tokens-Grows :
    (ts : List (List ℕ)) (m : ℕ) (bits : List ℕ)
    → All IsByte bits
    → Grows bits (add_tokens ts m bits)
unfolding add_tokens
add_tokens-Grows [] m bits h = record { len = refl; IsBytes = h; keeps = λ qs t. t }
add_tokens-Grows (t ∷ ts) m bits h =
    let first = set_bits-Grows (bit_positions t m) bits h in
    then-Grows first (add_tokens-Grows ts m _ first.IsBytes)

-- Positions within the filter are set once they have been set.
test_bits-set_bits :
    (ps bits : List ℕ)
    → All IsByte bits
    → All (λ p. p < 8 * length bits) ps
    → test_bits ps (set_bits ps bits) ≡ true
unfolding test_bits set_bits
test_bits-set_bits [] bits h within = refl
test_bits-set_bits (p ∷ ps) bits h (hp, within) =
    let first = one_bit p bits h in
    let rest = set_bits-Grows ps (or_byte (p / 8) (2 ^ (p % 8)) bits) first.IsBytes in
    and_true _ _
      (and_parts _ _ (
        rest.keeps (p ∷ []) (
          and_true _ _ (test_byte-set (p % 8) (omega arith) (p / 8) bits h (omega (arith, hp)))
            refl))).0
      (test_bits-set_bits ps (or_byte (p / 8) (2 ^ (p % 8)) bits) first.IsBytes
        (rw first.len within))

positions-lt : (h1 h2 m n : ℕ) → 0 < m → All (λ p. p < m) (positions h1 h2 m n)
unfolding positions
positions-lt h1 h2 m zero h = tt
positions-lt h1 h2 m (suc n) h =
    (mod-lt (wrapping_add h1 (wrapping_mul n h2)) h, positions-lt h1 h2 m n h)

add_tokens-contains :
    (t : List ℕ) (ts : List (List ℕ)) (m : ℕ) (bits : List ℕ)
    → 0 < m
    → m ≡ 8 * length bits
    → All IsByte bits
    → contains t ts ≡ true
    → test_bits (bit_positions t m) (add_tokens ts m bits) ≡ true
unfolding add_tokens contains
add_tokens-contains t [] m bits pos e h k = cc
add_tokens-contains t (u ∷ ts) m bits pos e h k =
    let first = set_bits-Grows (bit_positions u m) bits h in
    elim (Bool-cases (bytes_eq t u)) [
      | inl same ↦
          (add_tokens-Grows ts m (set_bits (bit_positions u m) bits) first.IsBytes).keeps
            (bit_positions t m)
            (ap (λ x. test_bits (bit_positions x m) (set_bits (bit_positions u m) bits))
                (bytes_eq→eq t u same)
              ∙ test_bits-set_bits (bit_positions u m) bits h (within u))
      | inr other ↦
          add_tokens-contains t ts m (set_bits (bit_positions u m) bits) pos
            (e ∙ ap (λ (n : ℕ). 8 * n) (sym first.len)) first.IsBytes (rw other at k)
    ]
  where
    within : (x : List ℕ) → All (λ p. p < 8 * length bits) (bit_positions x m)
    within x =
        subst (λ n. All (λ p. p < n) (bit_positions x m)) e
          (unfold bit_positions in positions-lt _ _ m 7 pos)

zeros-IsByte : (n : ℕ) → All IsByte (replicate n 0)
zeros-IsByte zero = tt
zeros-IsByte (suc n) = (omega arith, zeros-IsByte n)

filter_bits-whole :
    (ts : List (List ℕ)) → (filter_bits ts ≡ 8 * (filter_bits ts / 8)) × (0 < filter_bits ts)
unfolding filter_bits
filter_bits-whole ts = (omega arith, omega arith)

pub length-build_filter : (ts : List (List ℕ)) → length (build_filter ts) ≡ filter_bits ts / 8
unfolding build_filter
length-build_filter ts =
    (add_tokens-Grows ts (filter_bits ts) (replicate (filter_bits ts / 8) 0)
      (zeros-IsByte (filter_bits ts / 8))).len
    ∙ length-replicate (filter_bits ts / 8) 0

-- There are no false negatives: a filter answers yes for every token that it was built from.
pub filter_contains-build_filter :
    (t : List ℕ) (ts : List (List ℕ))
    → contains t ts ≡ true
    → filter_contains (build_filter ts) t ≡ true
unfolding filter_contains build_filter
filter_contains-build_filter t ts k = elim (Bool-cases (length (build_filter ts) * 8 == 0)) [
  | inl e ↦ rw e
  | inr e ↦
      rw (e, size)
        (add_tokens-contains t ts (filter_bits ts) (replicate (filter_bits ts / 8) 0)
          (filter_bits-whole ts).1
          ((filter_bits-whole ts).0
            ∙ ap (λ (n : ℕ). 8 * n) (sym (length-replicate (filter_bits ts / 8) 0)))
          (zeros-IsByte (filter_bits ts / 8)) k)
]
  where
    size : length (build_filter ts) * 8 ≡ filter_bits ts
    size = omega (arith, length-build_filter ts, (filter_bits-whole ts).0)
