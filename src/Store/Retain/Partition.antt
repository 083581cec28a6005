-- ===== src/Store/Retain/Partition.antt =====
-- `partition_point` of a list in which the elements that satisfy the test come first.
use timberfs.Prelude.{
  ℕ, zero, suc, ◌≤◌, ◌≡◌, refl, ap, Bool, true, false, List, [], ◌∷◌, length, take, drop, All,
  arith, Bool-cases, inl, inr, All-drop, max, ltb, ltb→lt, ltb→le,
}
use mathlib.Core.Path.{subst}
use timberfs.Store.{partition_point}

module _ {A : Type 0} (p : A → Bool) where
  -- Behind an element that fails the test all others fail it.
  abbrev pub IsPartitioned : List A → Type 0
  IsPartitioned [] = Unit
  IsPartitioned (x ∷ xs) = (p x ≡ false → All (λ y. p y ≡ false) xs) × IsPartitioned xs

  pub take-partition_point : (xs : List A) → All (λ x. p x ≡ true) (take (partition_point p xs) xs)
  unfolding partition_point
  take-partition_point [] = tt
  take-partition_point (x ∷ xs) = elim (Bool-cases (p x)) [
    | inl e ↦ rw e (e, take-partition_point xs)
    | inr e ↦ rw e tt
  ]

  pub drop-partition_point :
      (xs : List A) → IsPartitioned xs → All (λ x. p x ≡ false) (drop (partition_point p xs) xs)
  unfolding partition_point
  drop-partition_point [] h = tt
  drop-partition_point (x ∷ xs) (later, h) = elim (Bool-cases (p x)) [
    | inl e ↦ rw e (drop-partition_point xs h)
    | inr e ↦ rw e (e, later e)
  ]

  pub partition_point-le : (xs : List A) → partition_point p xs ≤ length xs
  unfolding partition_point
  partition_point-le [] = omega arith
  partition_point-le (x ∷ xs) = elim (Bool-cases (p x)) [
    | inl e ↦ rw e (omega (arith, partition_point-le xs))
    | inr e ↦ rw e (omega arith)
  ]

  -- The only point with the elements that satisfy the test before it and the others behind it: what a
  -- binary search returns too.
  pub partition_point_unique :
      (n : ℕ) (xs : List A)
      → n ≤ length xs
      → All (λ x. p x ≡ true) (take n xs)
      → All (λ x. p x ≡ false) (drop n xs)
      → partition_point p xs ≡ n
  unfolding partition_point
  partition_point_unique zero [] h before behind = refl
  partition_point_unique (suc n) [] h before behind = absurd (omega (arith, h))
  partition_point_unique zero (x ∷ xs) h before (fails, behind) = rw fails refl
  partition_point_unique (suc n) (x ∷ xs) h (holds, before) behind =
      rw holds (ap suc (partition_point_unique n xs (omega (arith, h)) before behind))

pub All-drop_le :
    {A : Type 0} (P : A → Type 0) (n m : ℕ) (xs : List A)
    → n ≤ m
    → All P (drop n xs)
    → All P (drop m xs)
All-drop_le P zero m xs h a = All-drop P m xs a
All-drop_le P (suc n) zero xs h a = absurd (omega (arith, h))
All-drop_le P (suc n) (suc m) [] h a = tt
All-drop_le P (suc n) (suc m) (x ∷ xs) h a = All-drop_le P n m xs (omega (arith, h)) a

pub All-map :
    {A : Type 0} (P Q : A → Type 0) (xs : List A) → ((x : A) → P x → Q x) → All P xs → All Q xs
All-map P Q [] f h = tt
All-map P Q (x ∷ xs) f (hx, h) = (f x hx, All-map P Q xs f h)

pub All-both :
    {A : Type 0} (P Q : A → Type 0) (xs : List A) → All P xs → All Q xs → All (λ x. P x × Q x) xs
All-both P Q [] h k = tt
All-both P Q (x ∷ xs) (hx, h) (kx, k) = ((hx, kx), All-both P Q xs h k)

-- What comes before the larger of two points comes before one of them.
pub All-take-max :
    {A : Type 0} (P Q R : A → Type 0) (n m : ℕ) (xs : List A)
    → ((x : A) → P x → R x)
    → ((x : A) → Q x → R x)
    → All P (take n xs)
    → All Q (take m xs)
    → All R (take (max n m) xs)
All-take-max P Q R n m xs f g h k = elim (Bool-cases (ltb n m)) [
  | inl less ↦
      subst (λ i. All R (take i xs)) (omega (arith, ltb→lt n m less)) (All-map Q R (take m xs) g k)
  | inr more ↦
      subst (λ i. All R (take i xs)) (omega (arith, ltb→le n m more)) (All-map P R (take n xs) f h)
]
