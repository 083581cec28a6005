-- ===== src/Grain/Bloom.antt =====
-- The Bloom filter of src/grain.rs: two-seed FNV-1a with double hashing, seven positions a token.
pub mod Bits
pub mod Member
use timberfs.Prelude.{
  ℕ, zero, suc, ◌+◌, ◌*◌, ◌/◌, ◌%◌, ◌^◌, max, bit_and, bit_or, bit_xor, Bool, true, false, ◌&&◌,
  not, List, [], ◌∷◌, ◌++◌, length, replicate,
}
use timberfs.Prelude.{◌==◌, if◌then◌else◌}

abbrev pub hashes : ℕ
hashes = 7

abbrev pub bits_per_token : ℕ
bits_per_token = 10

abbrev pub fnv_prime : ℕ
fnv_prime = 0x100000001b3

-- `u64::wrapping_mul` and `u64::wrapping_add`
abbrev pub wrapping_mul : ℕ → ℕ → ℕ
wrapping_mul a b = (a * b) % 2 ^ 64

abbrev pub wrapping_add : ℕ → ℕ → ℕ
wrapping_add a b = (a + b) % 2 ^ 64

-- The loop of `fnv1a` from the hash `h`.
unfoldable pub fnv1a_loop : ℕ → List ℕ → ℕ
fnv1a_loop h [] = h
fnv1a_loop h (b ∷ bs) = fnv1a_loop (wrapping_mul (bit_xor h b) fnv_prime) bs

unfoldable pub fnv1a : ℕ → List ℕ → ℕ
unfolding fnv1a_loop
fnv1a seed bytes = fnv1a_loop (bit_xor 0xcbf29ce484222325 (wrapping_mul seed fnv_prime)) bytes

-- `(0..K).map(..)`, the last `n` of the seven.
unfoldable pub positions : ℕ → ℕ → ℕ → ℕ → List ℕ
positions h1 h2 m_bits zero = []
positions h1 h2 m_bits (suc n) =
    wrapping_add h1 (wrapping_mul n h2) % m_bits ∷ positions h1 h2 m_bits n

unfoldable pub bit_positions : List ℕ → ℕ → List ℕ
unfolding fnv1a positions
bit_positions token m_bits =
    positions (fnv1a 0 token) (bit_or (fnv1a 0x9e3779b97f4a7c15 token) 1) m_bits hashes

-- `bits[i] |= mask`
unfoldable pub or_byte : ℕ → ℕ → List ℕ → List ℕ
or_byte i mask [] = []
or_byte zero mask (b ∷ bs) = bit_or b mask ∷ bs
or_byte (suc i) mask (b ∷ bs) = b ∷ or_byte i mask bs

unfoldable pub set_bits : List ℕ → List ℕ → List ℕ
unfolding or_byte
set_bits [] bits = bits
set_bits (p ∷ ps) bits = set_bits ps (or_byte (p / 8) (2 ^ (p % 8)) bits)

unfoldable pub add_tokens : List (List ℕ) → ℕ → List ℕ → List ℕ
unfolding set_bits bit_positions
add_tokens [] m_bits bits = bits
add_tokens (t ∷ ts) m_bits bits = add_tokens ts m_bits (set_bits (bit_positions t m_bits) bits)

-- `(n * BITS_PER_TOKEN).next_multiple_of(64).max(64)`
unfoldable pub filter_bits : List (List ℕ) → ℕ
filter_bits tokens = max ((max (length tokens) 1 * bits_per_token + 63) / 64 * 64) 64

unfoldable pub build_filter : List (List ℕ) → List ℕ
unfolding add_tokens filter_bits
build_filter tokens = add_tokens tokens (filter_bits tokens) (replicate (filter_bits tokens / 8) 0)

-- `filter[i] & mask != 0`, which panics past the end: `false` here.
unfoldable pub test_byte : ℕ → ℕ → List ℕ → Bool
test_byte i mask [] = false
test_byte zero mask (b ∷ bs) = not (bit_and b mask == 0)
test_byte (suc i) mask (b ∷ bs) = test_byte i mask bs

unfoldable pub test_bits : List ℕ → List ℕ → Bool
unfolding test_byte
test_bits [] bits = true
test_bits (p ∷ ps) bits = test_byte (p / 8) (2 ^ (p % 8)) bits && test_bits ps bits

unfoldable pub filter_contains : List ℕ → List ℕ → Bool
unfolding test_bits bit_positions
filter_contains filter token =
    if length filter * 8 == 0
    then true
    else test_bits (bit_positions token (length filter * 8)) filter
