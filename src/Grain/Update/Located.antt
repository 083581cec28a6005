-- ===== src/Grain/Update/Located.antt =====
-- `locate` and the commit of src/grain.rs on a grain of known pages.
use timberfs.Prelude.{
  ℕ, ◌+◌, ◌-◌, ◌^◌, ◌≤◌, ◌<◌, ◌≡◌, refl, ap, ◌∙◌, sym, ◌⊎◌, min, Bool, true, false, ◌&&◌, inl, inr,
  List, ◌++◌, Option, none, some, length, take, arith, ◌==◌, ==_iff, le→ltb, leb, le→leb,
  length-take, take_all, Option-cases, replicate, if◌then◌else◌,
}
use timberfs.Bytes.{slice, bytes_eq}
use timberfs.Bytes.LittleEndian.{bytes_eq_refl}
use timberfs.Grain.{
  lead_len, Stamp, Tail, Commit, GrainFiles, header_len, first_record_offset, stamp, stamp_at,
  load_commit, known_or_walked, locate_at, locate, save_commit, u64_max, walk,
}
use timberfs.Grain.Header.{header_first_rec-same, first_record_offset-lo}
use timberfs.Grain.Pages.{encode_pages, IsGrain, walk-IsGrain}
use timberfs.Grain.Update.Covers.{Covers, tail_at, end_inside}

module _ (ino : ℕ) (file : List ℕ) (first : ℕ) (ps : List (List ℕ)) (torn : List ℕ)
    (g : IsGrain file first ps torn) where
  lo : header_len ≤ first
  lo = first_record_offset-lo file first g.offset

  pub stamp-IsGrain : stamp ino file ≡ stamp_at ino file (some first)
  unfolding stamp
  stamp-IsGrain =
      rw
        (
          le→ltb (length file) header_len (omega (arith, lo, g.inside)),
          header_first_rec-same file (take header_len file) (take_twice file) (length file)
              (length file) first (unfold first_record_offset in g.offset)
              (omega (arith, length-take header_len file, lo, g.inside)) g.inside,
        )
        refl
    where
      take_twice : (xs : List ℕ) → take header_len (take header_len xs) ≡ take header_len xs
      take_twice xs =
          take_all header_len (take header_len xs) (omega (arith, length-take header_len xs))

  -- Without a commit that describes the file, the walk counts every page.
  pub walked :
      length ps < 2 ^ 64 → walk file first (length file) u64_max ≡ tail_at first ps (length ps)
  walked h =
      walk-IsGrain file first ps torn g u64_max (omega (arith, lo))
      ∙ (λ i. record { count = all_counted i; end = first + length (encode_pages (all_there i)) })
    where
      all_counted : 0 + min u64_max (length ps) ≡ length ps
      all_counted = omega (arith, h)

      all_there : take u64_max ps ≡ take (length ps) ps
      all_there =
          take_all u64_max ps (omega (arith, h)) ∙ sym (take_all (length ps) ps (omega arith))

  abbrev pub stamped : Stamp
  stamped = record {
    ino = ino;
    header = take header_len file;
    lead =
        slice first (min (length file - first) lead_len) file
        ++ replicate (lead_len - (length file - first)) 0;
    first = first;
    len = length file;
  }

  -- Whatever the commit beside it is, the grain is covered to the end that the commit records, or
  -- else as far as it goes.
  pub located_by :
      (c : Option Commit)
      → length ps < 2 ^ 64
      → ((t : Tail) → (s : Stamp) → load_commit c s ≡ some t → t ≡ tail_at first ps (length ps))
      → (b : Bool) × (locate ino c file ≡ some (tail_at first ps (length ps), b))
  unfolding locate
  located_by c h honest = elim (Option-cases (load_commit c stamped)) [
    | inl (t, e) ↦ (true, rw (stamp-IsGrain, e) (ap (λ x. some (x, true)) (honest t stamped e)))
    | inr e ↦ (false, rw (stamp-IsGrain, e) (ap (λ x. some (x, false)) (walked h)))
  ]

  -- A commit that is saved describes the file.
  pub saved :
      (m : ℕ)
      → locate ino (save_commit ino file (tail_at first ps m)) file
        ≡ some (tail_at first ps m, true)
  unfolding locate save_commit
  saved m = rw (stamp-IsGrain, describes) refl
    where
      describes :
          load_commit
            (some (record {
              ino = ino;
              header = stamped.header;
              lead = stamped.lead;
              tail = tail_at first ps m;
            }))
            stamped
          ≡ some (tail_at first ps m)
      describes =
          unfold load_commit in
          rw (
            (==_iff ino ino).1 refl,
            bytes_eq_refl stamped.header,
            bytes_eq_refl stamped.lead,
            le→leb first (first + length (encode_pages (take m ps))) (omega arith),
            le→leb (first + length (encode_pages (take m ps))) (length file)
                (end_inside file first ps torn m g),
          )

-- What a commit says of a file it describes is its own tail.
load_commit-tail :
    (c : Commit) (s : Stamp) (t : Tail) → load_commit (some c) s ≡ some t → c.tail ≡ t
unfolding load_commit
load_commit-tail c s t e =
    go
      ((c.ino == s.ino)
        && (bytes_eq c.header s.header
            && (bytes_eq c.lead s.lead && (leb s.first c.tail.end && leb c.tail.end s.len))))
      e
  where
    go : (b : Bool) → ◌≡◌ {A = Option Tail} (if b then some c.tail else none) (some t) → c.tail ≡ t
    go true e = cc
    go false e = cc

pub load_commit-one :
    (c : Option Commit) (s s' : Stamp) (t t' : Tail)
    → load_commit c s ≡ some t
    → load_commit c s' ≡ some t'
    → t' ≡ t
unfolding load_commit
load_commit-one none s s' t t' e e' = cc
load_commit-one (some c) s s' t t' e e' =
    sym (load_commit-tail c s' t' e') ∙ load_commit-tail c s t e

-- Where `locate` says that it knows the end from the commit, the commit says nothing else of any file.
pub located_known :
    (ino : ℕ) (c : Option Commit) (file : List ℕ) (t : Tail)
    → locate ino c file ≡ some (t, true)
    → (t' : Tail) (s' : Stamp) → load_commit c s' ≡ some t'
    → t' ≡ t
unfolding locate
located_known ino c file t e t' s' e' = by_stamp (stamp ino file) e
  where
    by_commit :
        (s : Stamp) (r : Option Tail)
        → load_commit c s ≡ r
        → ◌≡◌ {A = Option (Tail × Bool)} (some (known_or_walked file s r)) (some (t, true))
        → t' ≡ t
    by_commit s none l k = cc
    by_commit s (some x) l k = let same : x ≡ t = cc in load_commit-one c s s' x t' l e' ∙ same

    by_stamp : (s : Option Stamp) → locate_at c file s ≡ some (t, true) → t' ≡ t
    by_stamp none k = cc
    by_stamp (some s) k = by_commit s (load_commit c s) refl k

-- What the commit beside a covered grain says of it: where its counted pages end; or nothing, where
-- all of them are counted.
pub commit-cases :
    (g : GrainFiles) (file : List ℕ) (first : ℕ) (ps : List (List ℕ)) (torn : List ℕ) (m : ℕ)
    → (c : Covers g file first ps torn m)
    → (load_commit g.commit (stamped g.ino file first ps torn c.grain) ≡ some (tail_at first ps m))
      ⊎ ((load_commit g.commit (stamped g.ino file first ps torn c.grain) ≡ none) × (m ≡ length ps))
unfolding locate
commit-cases g file first ps torn m c = elim (Option-cases (load_commit g.commit s)) [
  | inl (t, e) ↦ inl (e ∙ ap some (same_tail t e))
  | inr e ↦ inr (e, count_all e)
]
  where
    s : Stamp
    s = stamped g.ino file first ps torn c.grain

    found :
        (r : Option Tail)
        → load_commit g.commit s ≡ r
        → ◌≡◌ {A = Option (Tail × Bool)}
            (some (known_or_walked file s r))
            (some (tail_at first ps m, c.known))
    found r e = sym (rw (stamp-IsGrain g.ino file first ps torn c.grain, e) refl) ∙ c.located

    same_tail : (t : Tail) → load_commit g.commit s ≡ some t → t ≡ tail_at first ps m
    same_tail t e = let k = found (some t) e in cc

    count_all : load_commit g.commit s ≡ none → m ≡ length ps
    count_all e =
        let k = found none e in
        let w = walked g.ino file first ps torn c.grain c.counted in
        let same : tail_at first ps (length ps) ≡ tail_at first ps m = cc in
        ap (λ (t : Tail). t.count) (sym same)
