-- ===== src/Grain/Tokens/Count.antt =====
-- How many tokens `tokenize` of src/grain.rs can find.
use timberfs.Prelude.{
  ℕ, suc, ◌+◌, ◌-◌, ◌*◌, ◌≤◌, ◌≡◌, true, List, [], ◌∷◌, Option, none, some, length, arith,
}
use timberfs.Prelude.{leb, leb→le, Bool-cases, inl, inr}
use timberfs.Bytes.{slice}
use timberfs.Grain.Tokens.{
  is_alphanumeric, contains, insert, in_range, end_run, start_run, tokenize_loop, tokenize,
}

length-insert : (t : List ℕ) (ts : List (List ℕ)) → length (insert t ts) ≤ suc (length ts)
unfolding insert
length-insert t ts = elim (Bool-cases (contains t ts)) [
  | inl e ↦ rw e (omega arith)
  | inr e ↦ rw e (omega arith)
]

in_range→le : (n : ℕ) → in_range n ≡ true → 3 ≤ n
in_range→le n h = elim (Bool-cases (leb 3 n)) [ inl e ↦ leb→le 3 n e | inr e ↦ cc (rw e at h) ]

-- The tokens found so far lie, three bytes each at least, before the run that is open, if there is one.
abbrev Room : List (List ℕ) → Option ℕ → ℕ → Type 0
Room out none i = 3 * length out ≤ i
Room out (some s) i = (s ≤ i) × (3 * length out ≤ s)

end_run-Room :
    (bytes : List ℕ) (start : Option ℕ) (i : ℕ) (out : List (List ℕ))
    → Room out start i
    → 3 * length (end_run bytes start i out) ≤ i
unfolding end_run
end_run-Room bytes none i out h = h
end_run-Room bytes (some s) i out (hs, h) = elim (Bool-cases (in_range (i - s))) [
  | inl e ↦
      rw e (omega (arith, length-insert (slice s (i - s) bytes) out, in_range→le (i - s) e, hs, h))
  | inr e ↦ rw e (omega (arith, hs, h))
]

start_run-Room :
    (start : Option ℕ) (i : ℕ) (out : List (List ℕ))
    → Room out start i
    → Room out (start_run start i) (i + 1)
start_run-Room none i out h = (omega arith, h)
start_run-Room (some s) i out (hs, h) = (omega (arith, hs), h)

tokenize_loop-Room :
    (bytes : List ℕ) (i : ℕ) (start : Option ℕ) (out : List (List ℕ)) (rest : List ℕ)
    → Room out start i
    → 3 * length (tokenize_loop bytes i start out rest) ≤ i + length rest
unfolding tokenize_loop
tokenize_loop-Room bytes i start out [] h = omega (arith, end_run-Room bytes start i out h)
tokenize_loop-Room bytes i start out (b ∷ rest) h = elim (Bool-cases (is_alphanumeric b)) [
  | inl e ↦ rw e (
      omega (
        arith,
        tokenize_loop-Room bytes (i + 1) (start_run start i) out rest
            (start_run-Room start i out h),
      ))
  | inr e ↦ rw e (
      omega (
        arith,
        tokenize_loop-Room bytes (i + 1) none (end_run bytes start i out) rest
            (omega (arith, end_run-Room bytes start i out h)),
      ))
]

-- Every token takes three bytes of its own.
pub length-tokenize : (bytes : List ℕ) → 3 * length (tokenize bytes) ≤ length bytes
unfolding tokenize
length-tokenize bytes = omega (arith, tokenize_loop-Room bytes 0 none [] bytes (omega arith))
