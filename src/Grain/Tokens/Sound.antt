-- ===== src/Grain/Tokens/Sound.antt =====
-- The tokens of `tokenize` of src/grain.rs against the runs of the data.
use timberfs.Prelude.{
  ℕ, ◌+◌, ◌-◌, ◌≡◌, refl, ap, ◌∙◌, sym, Bool, true, false, ◌||◌, List, [], ◌∷◌, ◌++◌, Option, none,
  some, length, take, All, arith, ◌↔◌, ◌⊎◌, inl, inr, Bool-cases, append_assoc, length-append,
  take-append_eq, drop-append_eq, All-append,
}
use mathlib.Core.Path.{subst}
use timberfs.Bytes.{slice, bytes_eq}
use timberfs.Bytes.LittleEndian.{bytes_eq→eq}
use timberfs.Grain.Tokens.{
  is_alphanumeric, contains, insert, in_range, end_run, start_run, tokenize_loop, tokenize,
}
use timberfs.Grain.Tokens.Runs.{IsAlphanumeric, EndsClear, StartsClear, IsToken, complete}

or_cases : (a b : Bool) → (a || b) ≡ true → (a ≡ true) ⊎ (b ≡ true)
or_cases true b h = inl refl
or_cases false b h = inr h

contains-insert_cases :
    (t u : List ℕ) (ts : List (List ℕ))
    → contains t (insert u ts) ≡ true
    → (contains t ts ≡ true) ⊎ (t ≡ u)
unfolding insert contains
contains-insert_cases t u ts h = elim (Bool-cases (contains u ts)) [
  | inl e ↦ inl (rw e at h)
  | inr e ↦ elim (or_cases (bytes_eq t u) (contains t ts) (rw e at h)) [
    | inl same ↦ inr (bytes_eq→eq t u same)
    | inr later ↦ inl later
  ]
]

EndsClear-snoc : (xs : List ℕ) (b : ℕ) → is_alphanumeric b ≡ false → EndsClear (xs ++ (b ∷ []))
EndsClear-snoc [] b h = h
EndsClear-snoc (x ∷ []) b h = h
EndsClear-snoc (x ∷ y ∷ xs) b h = EndsClear-snoc (y ∷ xs) b h

-- The start of the run `run`, which stands behind `pre`.
abbrev started : List ℕ → List ℕ → Option ℕ
started pre [] = none
started pre (b ∷ run) = some (length pre)

started-snoc :
    (pre run : List ℕ) (b i : ℕ)
    → i ≡ length pre + length run
    → start_run (started pre run) i ≡ started pre (run ++ (b ∷ []))
started-snoc pre [] b i h = ap some (omega (arith, h))
started-snoc pre (a ∷ run) b i h = refl

module _ (bytes t : List ℕ) where
  at_end :
      (pre run rest : List ℕ) (i : ℕ) (out : List (List ℕ))
      → bytes ≡ pre ++ (run ++ rest)
      → EndsClear pre
      → All IsAlphanumeric run
      → StartsClear rest
      → i ≡ length pre + length run
      → contains t (end_run bytes (started pre run) i out) ≡ true
      → (contains t out ≡ true) ⊎ IsToken bytes t
  unfolding end_run
  at_end pre [] rest i out e left h right ei k = inl k
  at_end pre (b ∷ run) rest i out e left h right ei k =
      elim (Bool-cases (in_range (i - length pre))) [
        | inl fits ↦
            elim (contains-insert_cases t (slice (length pre) (i - length pre) bytes) out
              (rw fits at k)) [ inl old ↦ inl old | inr new ↦ inr (token fits (new ∙ cut)) ]
        | inr unfit ↦ inl (rw unfit at k)
      ]
    where
      n : i - length pre ≡ length (b ∷ run)
      n = omega (arith, ei)

      cut : slice (length pre) (i - length pre) bytes ≡ b ∷ run
      cut =
          ap (λ b. slice (length pre) (i - length pre) b) e
          ∙ ap (take (i - length pre)) (drop-append_eq (length pre) pre ((b ∷ run) ++ rest) refl)
          ∙ take-append_eq (i - length pre) (b ∷ run) rest n

      token : in_range (i - length pre) ≡ true → t ≡ b ∷ run → IsToken bytes t
      token fits same = subst (IsToken bytes) (sym same) (record {
        before = pre;
        after = rest;
        within = e;
        run = h;
        clear_left = left;
        clear_right = right;
        long = ground (arith, fits, n);
        short = ground (arith, fits, n);
      })

  sound_loop :
      (pre run rest : List ℕ) (i : ℕ) (out : List (List ℕ))
      → bytes ≡ pre ++ (run ++ rest)
      → EndsClear pre
      → All IsAlphanumeric run
      → i ≡ length pre + length run
      → contains t (tokenize_loop bytes i (started pre run) out rest) ≡ true
      → (contains t out ≡ true) ⊎ IsToken bytes t
  unfolding tokenize_loop
  sound_loop pre run [] i out e left h ei k = at_end pre run [] i out e left h tt ei k
  sound_loop pre run (b ∷ rest) i out e left h ei k = elim (Bool-cases (is_alphanumeric b)) [
    | inl yes_run ↦
        sound_loop pre (run ++ (b ∷ [])) rest (i + 1) out
          (e ∙ ap (λ xs. pre ++ xs) (sym (append_assoc run (b ∷ []) rest))) left
          (All-append IsAlphanumeric run (b ∷ []) h (yes_run, tt))
          (omega (arith, ei, length-append run (b ∷ [])))
          (rw (sym (started-snoc pre run b i ei)) (rw yes_run at k))
    | inr no_run ↦
        elim (sound_loop (pre ++ (run ++ (b ∷ []))) [] rest (i + 1)
          (end_run bytes (started pre run) i out)
          (e
            ∙ ap (λ xs. pre ++ xs) (sym (append_assoc run (b ∷ []) rest))
            ∙ sym (append_assoc pre (run ++ (b ∷ [])) rest))
          (subst EndsClear (append_assoc pre run (b ∷ [])) (EndsClear-snoc (pre ++ run) b no_run))
          tt (omega (arith, ei, length-append pre (run ++ (b ∷ [])), length-append run (b ∷ [])))
          (rw no_run at k)) [
            | inl old ↦ at_end pre run (b ∷ rest) i out e left h no_run ei old
            | inr token ↦ inr token
          ]
  ]

  sound : contains t (tokenize bytes) ≡ true → IsToken bytes t
  unfolding tokenize contains
  sound k = elim (sound_loop [] [] bytes 0 [] refl tt tt refl k) [
    | inl none_yet ↦ absurd (nothing none_yet)
    | inr token ↦ token
  ]
    where
      nothing : contains t [] ≡ true → ⊥
      nothing h = cc

  -- The tokens of a byte string are exactly its maximal runs of ASCII letters and digits that are 3 to
  -- 64 bytes long.
  pub tokenize_iff : (contains t (tokenize bytes) ≡ true) ↔ IsToken bytes t
  tokenize_iff = (sound, complete bytes t)
