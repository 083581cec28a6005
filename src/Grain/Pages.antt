-- ===== src/Grain/Pages.antt =====
-- A grain on disk as its pages: what `load`, `walk` and the commit read of it.
use timberfs.Prelude.{
  ℕ, zero, suc, ◌+◌, ◌≤◌, ◌<◌, ◌≡◌, refl, ap, ◌∙◌, sym, min, Bool, true, false, ◌&&◌, ◌⊎◌, inl, inr,
  List, [], ◌∷◌, ◌++◌, map, concat, some, length, take, drop, All, arith, ltb, leb, le→ltb, lt→ltb,
  le→leb, lt→leb, append_assoc, length-append, length-drop, take-append_eq, drop-append_eq,
  drop-drop, if◌then◌else◌,
}
use timberfs.Bytes.{slice, to_le, from_le, u32_at, IsU32}
use timberfs.Bytes.LittleEndian.{from_le-u32}
use timberfs.Grain.{Tail, first_record_offset, load, load_loop, walk, walk_loop}

abbrev pub page_record : List ℕ → List ℕ
page_record p = to_le 4 (length p) ++ p

abbrev pub encode_pages : List (List ℕ) → List ℕ
encode_pages ps = concat (map page_record ps)

abbrev pub IsPage : List ℕ → Type 0
IsPage p = IsU32 (length p)

-- What a crash may leave behind the last whole record: too short for a length, or for its own.
abbrev pub IsTorn : List ℕ → Type 0
IsTorn t = (length t < 4) ⊎ (length t < 4 + u32_at 0 t)

-- A file whose header says that its records start at `first`, and whose records are these pages.
pub record IsGrain (file : List ℕ) (first : ℕ) (ps : List (List ℕ)) (torn : List ℕ) : Type 0 where
  pub offset : first_record_offset file ≡ some first
  pub inside : first ≤ length file
  pub behind : drop first file ≡ encode_pages ps ++ torn
  pub pages : All IsPage ps
  pub cut_short : IsTorn torn

pub length-page_record : (p : List ℕ) → length (page_record p) ≡ 4 + length p
unfolding to_le
length-page_record p = omega arith

module _ (file : List ℕ) where
  -- A record at `off`: its length, its page, and what is behind it.
  pub record At (off : ℕ) (p rest : List ℕ) : Type 0 where
    pub len : u32_at off file ≡ length p
    pub page : slice (off + 4) (length p) file ≡ p
    pub room : off + 4 + length p ≤ length file
    pub next : drop (off + 4 + length p) file ≡ rest

  pub At-record :
      (off : ℕ) (p rest : List ℕ)
      → off ≤ length file
      → IsPage p
      → drop off file ≡ page_record p ++ rest
      → At off p rest
  unfolding to_le
  At-record off p rest h small e = record {
    len = ap (λ b. from_le (take 4 b)) e ∙ from_le-u32 (length p) small;
    page =
        ap (take (length p)) (sym (drop-drop off 4 (off + 4) file refl) ∙ ap (drop 4) e)
        ∙ take-append_eq (length p) p rest refl;
    room = omega (arith, h, ap length e, length-drop off file, length-append p rest);
    next =
        sym (drop-drop off (4 + length p) (off + 4 + length p) file (omega arith))
        ∙ ap (drop (4 + length p)) e
        ∙ drop-append_eq (4 + length p) (page_record p) rest (omega arith);
  }

  -- Behind the last record there is not another one.
  pub at_torn :
      (off : ℕ) (torn : List ℕ)
      → off ≤ length file
      → IsTorn torn
      → drop off file ≡ torn
      → (length file < off + 4) ⊎ (length file < off + 4 + u32_at off file)
  at_torn off torn h (inl short) e =
      inl (omega (arith, h, short, ap length e, length-drop off file))
  at_torn off torn h (inr cut) e =
      inr (omega (arith, h, cut, ap (λ b. from_le (take 4 b)) e, ap length e, length-drop off file))

  load_loop-pages :
      (ps : List (List ℕ)) (torn : List ℕ) (fuel off : ℕ)
      → All IsPage ps
      → IsTorn torn
      → off ≤ length file
      → length file < fuel + off
      → drop off file ≡ encode_pages ps ++ torn
      → load_loop fuel off file ≡ ps
  unfolding load_loop
  load_loop-pages ps torn zero off hp ht h enough e = absurd (omega (arith, h, enough))
  load_loop-pages [] torn (suc fuel) off hp ht h enough e = elim (at_torn off torn h ht e) [
    | inl short ↦ rw (lt→ltb (length file) (off + 4) short)
    | inr cut ↦
        rw (lt→ltb (length file) (off + 4 + u32_at off file) cut)
          (either (ltb (length file) (off + 4)))
  ]
    where
      either : (b : Bool) → ◌≡◌ {A = List (List ℕ)} (if b then [] else []) []
      either true = refl
      either false = refl
  load_loop-pages (p ∷ ps) torn (suc fuel) off (hp, hs) ht h enough e =
      let a =
        At-record off p (encode_pages ps ++ torn) h hp
          (e ∙ append_assoc (page_record p) (encode_pages ps) torn) in
      rw (
        a.len,
        le→ltb (length file) (off + 4) (omega (arith, a.room)),
        le→ltb (length file) (off + 4 + length p) a.room,
        a.page,
        load_loop-pages ps torn fuel (off + 4 + length p) hs ht a.room (omega (arith, enough))
            a.next,
      )

  stops :
      (fuel len max : ℕ) (t : Tail)
      → len ≡ length file
      → (max ≤ t.count)
        ⊎ ((length file < t.end + 4) ⊎ (length file < t.end + 4 + u32_at t.end file))
      → walk_loop fuel file len max t ≡ t
  unfolding walk_loop
  stops zero len max t el why = refl
  stops (suc fuel) len max t el (inl full) = rw (le→ltb t.count max full)
  stops (suc fuel) len max t el (inr (inl short)) =
      rw (lt→leb (t.end + 4) len (omega (arith, el, short))) (no_more (ltb t.count max) _)
    where
      no_more : (b : Bool) (x : Tail) → ◌≡◌ {A = Tail} (if b && false then x else t) t
      no_more true x = refl
      no_more false x = refl
  stops (suc fuel) len max t el (inr (inr cut)) =
      rw (lt→ltb len (t.end + 4 + u32_at t.end file) (omega (arith, el, cut)))
        (same (ltb t.count max && leb (t.end + 4) len))
    where
      same : (b : Bool) → ◌≡◌ {A = Tail} (if b then t else t) t
      same true = refl
      same false = refl

  one_round :
      (fuel len max : ℕ) (t : Tail) (p : List ℕ)
      → len ≡ length file
      → t.count < max
      → u32_at t.end file ≡ length p
      → t.end + 4 + length p ≤ length file
      → walk_loop (suc fuel) file len max t
        ≡ walk_loop fuel file len max (record { count = t.count + 1; end = t.end + (4 + length p) })
  unfolding walk_loop
  one_round fuel len max t p el more found room = rw (
    found,
    lt→ltb t.count max more,
    le→leb (t.end + 4) len (omega (arith, el, room)),
    le→ltb len (t.end + 4 + length p) (omega (arith, el, room)),
  )

  -- The walk counts the pages, `m` at most, and finds where they end.
  walk_loop-pages :
      (ps : List (List ℕ)) (torn : List ℕ) (fuel len max m : ℕ) (t : Tail)
      → len ≡ length file
      → max ≡ t.count + m
      → All IsPage ps
      → IsTorn torn
      → t.end ≤ length file
      → length file < fuel + t.end
      → drop t.end file ≡ encode_pages ps ++ torn
      → walk_loop fuel file len max t ≡ record {
        count = t.count + min m (length ps);
        end = t.end + length (encode_pages (take m ps));
      }
  walk_loop-pages ps torn fuel len max zero t el em hp ht h enough e =
      stops fuel len max t el (inl (omega (arith, em)))
      ∙ (λ i. record { count = none_wanted i; end = plus_zero i })
    where
      none_wanted : t.count ≡ t.count + min 0 (length ps)
      none_wanted = omega arith

      plus_zero : t.end ≡ t.end + 0
      plus_zero = omega arith
  walk_loop-pages [] torn fuel len max (suc m) t el em hp ht h enough e =
      stops fuel len max t el (inr (at_torn t.end torn h ht e))
      ∙ (λ i. record { count = none_left i; end = plus_zero i })
    where
      none_left : t.count ≡ t.count + min (suc m) 0
      none_left = omega arith

      plus_zero : t.end ≡ t.end + 0
      plus_zero = omega arith
  walk_loop-pages (p ∷ ps) torn zero len max (suc m) t el em hp ht h enough e =
      absurd (omega (arith, h, enough))
  walk_loop-pages (p ∷ ps) torn (suc fuel) len max (suc m) t el em (hp, hs) ht h enough e =
      let a =
        At-record t.end p (encode_pages ps ++ torn) h hp
          (e ∙ append_assoc (page_record p) (encode_pages ps) torn) in
      one_round fuel len max t p el (omega (arith, em)) a.len a.room
      ∙ walk_loop-pages ps torn fuel len max m
          (record { count = t.count + 1; end = t.end + (4 + length p) }) el (omega (arith, em)) hs
          ht (omega (arith, a.room)) (omega (arith, enough))
          (ap (λ (n : ℕ). drop n file) (omega arith) ∙ a.next)
      ∙ (λ i. record { count = counted i; end = ended i })
    where
      counted : t.count + 1 + min m (length ps) ≡ t.count + min (suc m) (suc (length ps))
      counted = omega arith

      ended :
          t.end + (4 + length p) + length (encode_pages (take m ps))
          ≡ t.end + length (page_record p ++ encode_pages (take m ps))
      ended =
          omega
            (arith, length-append (page_record p) (encode_pages (take m ps)), length-page_record p)

-- The three readers of a grain: its pages, how many there are and where they end, up to `max`.
module _ (file : List ℕ) (first : ℕ) (ps : List (List ℕ)) (torn : List ℕ)
    (g : IsGrain file first ps torn) where
  pub walk-IsGrain :
      (max : ℕ)
      → 0 < first
      → walk file first (length file) max ≡ record {
        count = 0 + min max (length ps);
        end = first + length (encode_pages (take max ps));
      }
  unfolding walk
  walk-IsGrain max h =
      walk_loop-pages file ps torn (length file) (length file) max max
        (record { count = 0; end = first }) refl (omega arith) g.pages g.cut_short g.inside
        (omega (arith, h)) g.behind

  -- A grain is loaded as its pages, whatever a crash left behind the last one.
  pub load-IsGrain : 0 < first → load file ≡ some ps
  unfolding load
  load-IsGrain h = rw (g.offset) (
      ap some (
        load_loop-pages file ps torn (length file) first g.pages g.cut_short g.inside
          (omega (arith, h)) g.behind))
