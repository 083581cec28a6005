-- ===== src/Grain/Tokens/Runs.antt =====
-- Tokens as maximal runs of bytes, for `tokenize` of src/grain.rs.
use timberfs.Prelude.{
  ℕ, ◌+◌, ◌-◌, ◌≤◌, ◌≡◌, refl, ap, ◌∙◌, Bool, true, false, ◌||◌, List, [], ◌∷◌, ◌++◌, Option, none,
  some, length, take, All, arith, inl, inr, Bool-cases, le→leb, take-append_eq, drop-append_eq,
}
use timberfs.Bytes.{slice, bytes_eq}
use timberfs.Bytes.LittleEndian.{bytes_eq_refl}
use timberfs.Grain.Tokens.{
  is_alphanumeric, contains, insert, in_range, end_run, start_run, tokenize_loop, tokenize,
}

abbrev pub IsAlphanumeric : ℕ → Type 0
IsAlphanumeric b = is_alphanumeric b ≡ true

-- A run does not go on to the left: nothing stands there, or it ends with another byte.
abbrev pub EndsClear : List ℕ → Type 0
EndsClear [] = Unit {0}
EndsClear (b ∷ []) = is_alphanumeric b ≡ false
EndsClear (b ∷ c ∷ bs) = EndsClear (c ∷ bs)

-- Nor to the right.
abbrev pub StartsClear : List ℕ → Type 0
StartsClear [] = Unit {0}
StartsClear (b ∷ bs) = is_alphanumeric b ≡ false

-- A maximal run of alphanumeric bytes in the data, of 3 to 64 bytes.
pub record IsToken (bytes t : List ℕ) : Type 0 where
  pub before : List ℕ
  pub after : List ℕ
  pub within : bytes ≡ before ++ (t ++ after)
  pub run : All IsAlphanumeric t
  pub clear_left : EndsClear before
  pub clear_right : StartsClear after
  pub long : 3 ≤ length t
  pub short : length t ≤ 64

pub contains-insert_same : (t : List ℕ) (ts : List (List ℕ)) → contains t (insert t ts) ≡ true
unfolding insert contains
contains-insert_same t ts = elim (Bool-cases (contains t ts)) [
  | inl e ↦ rw e e
  | inr e ↦ rw (e, bytes_eq_refl t)
]

contains-insert :
    (t u : List ℕ) (ts : List (List ℕ)) → contains t ts ≡ true → contains t (insert u ts) ≡ true
unfolding insert contains
contains-insert t u ts h = elim (Bool-cases (contains u ts)) [
  | inl e ↦ rw e h
  | inr e ↦ rw (e, h) (or_true (bytes_eq t u))
]
  where
    or_true : (b : Bool) → (b || true) ≡ true
    or_true true = refl
    or_true false = refl

contains-end_run :
    (t bytes : List ℕ) (start : Option ℕ) (i : ℕ) (out : List (List ℕ))
    → contains t out ≡ true
    → contains t (end_run bytes start i out) ≡ true
unfolding end_run
contains-end_run t bytes none i out h = h
contains-end_run t bytes (some s) i out h = elim (Bool-cases (in_range (i - s))) [
  | inl e ↦ rw e (contains-insert t (slice s (i - s) bytes) out h)
  | inr e ↦ rw e h
]

contains-tokenize_loop :
    (t bytes : List ℕ) (i : ℕ) (start : Option ℕ) (out : List (List ℕ)) (rest : List ℕ)
    → contains t out ≡ true
    → contains t (tokenize_loop bytes i start out rest) ≡ true
unfolding tokenize_loop
contains-tokenize_loop t bytes i start out [] h = contains-end_run t bytes start i out h
contains-tokenize_loop t bytes i start out (b ∷ rest) h = elim (Bool-cases (is_alphanumeric b)) [
  | inl e ↦ rw e (contains-tokenize_loop t bytes (i + 1) (start_run start i) out rest h)
  | inr e ↦ rw e (
      contains-tokenize_loop t bytes (i + 1) none (end_run bytes start i out) rest
        (contains-end_run t bytes start i out h))
]

module _ (bytes : List ℕ) where
  -- What stands to the left of a run is over when the run begins.
  over_left :
      (pre : List ℕ) (b i : ℕ) (start : Option ℕ) (out : List (List ℕ)) (rest : List ℕ)
      → EndsClear (b ∷ pre)
      → (out' : List (List ℕ)) × (tokenize_loop bytes i start out ((b ∷ pre) ++ rest)
          ≡ tokenize_loop bytes (i + length (b ∷ pre)) none out' rest)
  unfolding tokenize_loop
  over_left [] b i start out rest h = (end_run bytes start i out, rw h)
  over_left (c ∷ pre) b i start out rest h = elim (Bool-cases (is_alphanumeric b)) [
    | inl e ↦
        let (out', later) = over_left pre c (i + 1) (start_run start i) out rest h in
        (out', rw e (later ∙ ap (λ (n : ℕ). tokenize_loop bytes n none out' rest) (omega arith)))
    | inr e ↦
        let (out', later) = over_left pre c (i + 1) none (end_run bytes start i out) rest h in
        (out', rw e (later ∙ ap (λ (n : ℕ). tokenize_loop bytes n none out' rest) (omega arith)))
  ]

  through_run :
      (run : List ℕ) (s i : ℕ) (out : List (List ℕ)) (rest : List ℕ)
      → All IsAlphanumeric run
      → tokenize_loop bytes i (some s) out (run ++ rest)
        ≡ tokenize_loop bytes (i + length run) (some s) out rest
  unfolding tokenize_loop
  through_run [] s i out rest h =
      ap (λ (n : ℕ). tokenize_loop bytes n (some s) out rest) (omega arith)
  through_run (b ∷ run) s i out rest (hb, h) = rw hb (
      through_run run s (i + 1) out rest h
      ∙ ap (λ (n : ℕ). tokenize_loop bytes n (some s) out rest) (omega arith))

  found_at_end :
      (t before after : List ℕ) (i j : ℕ) (out : List (List ℕ))
      → bytes ≡ before ++ (t ++ after)
      → i ≡ length before
      → j ≡ i + length t
      → 3 ≤ length t
      → length t ≤ 64
      → contains t (end_run bytes (some i) j out) ≡ true
  unfolding end_run
  found_at_end t before after i j out e ei ej lo hi =
      rw (n, le→leb 3 (length t) lo, le→leb (length t) 64 hi, cut) (contains-insert_same t out)
    where
      n : j - i ≡ length t
      n = omega (arith, ej)

      cut : slice i (length t) bytes ≡ t
      cut =
          ap (λ b. slice i (length t) b) e
          ∙ ap (λ b. take (length t) b) (drop-append_eq i before (t ++ after) ei)
          ∙ take-append_eq (length t) t after refl

  found_from :
      (t before after : List ℕ) (i : ℕ) (out : List (List ℕ))
      → bytes ≡ before ++ (t ++ after)
      → i ≡ length before
      → All IsAlphanumeric t
      → StartsClear after
      → 3 ≤ length t
      → length t ≤ 64
      → contains t (tokenize_loop bytes i none out (t ++ after)) ≡ true
  unfolding tokenize_loop
  found_from [] before after i out e ei run right lo hi = absurd (omega (arith, lo))
  found_from (b ∷ t) before after i out e ei (hb, run) right lo hi =
      rw (hb, through_run t i (i + 1) out after run) (last after e right)
    where
      last :
          (after : List ℕ)
          → bytes ≡ before ++ ((b ∷ t) ++ after)
          → StartsClear after
          → contains (b ∷ t) (tokenize_loop bytes (i + 1 + length t) (some i) out after) ≡ true
      last [] e c = found_at_end (b ∷ t) before [] i (i + 1 + length t) out e ei (omega arith) lo hi
      last (a ∷ after) e c = rw c (
          contains-tokenize_loop (b ∷ t) bytes (i + 1 + length t + 1) none
            (end_run bytes (some i) (i + 1 + length t) out) after
            (found_at_end (b ∷ t) before (a ∷ after) i (i + 1 + length t) out e ei (omega arith) lo
              hi))

  pub complete : (t : List ℕ) → IsToken bytes t → contains t (tokenize bytes) ≡ true
  unfolding tokenize
  complete t k = parts k.before k.clear_left k.within
    where
      parts :
          (before : List ℕ)
          → EndsClear before
          → bytes ≡ before ++ (t ++ k.after)
          → contains t (tokenize_loop bytes 0 none [] bytes) ≡ true
      parts [] c e =
          ap (λ b. contains t (tokenize_loop bytes 0 none [] b)) e
          ∙ found_from t [] k.after 0 [] e refl k.run k.clear_right k.long k.short
      parts (b ∷ pre) c e =
          let (out', over) = over_left pre b 0 none [] (t ++ k.after) c in
          ap (λ b. contains t (tokenize_loop bytes 0 none [] b)) e
          ∙ ap (contains t) over
          ∙ found_from t (b ∷ pre) k.after (0 + length (b ∷ pre)) out' e (omega arith) k.run
              k.clear_right k.long k.short
