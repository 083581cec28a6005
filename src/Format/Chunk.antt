-- ===== src/Format/Chunk.antt =====
-- `read_frame` and `decode_frame` of src/format.rs: a chunk's stored bytes, and what they expand to.
-- The zstd library is a parameter.
use timberfs.Prelude.{
  ℕ, ℤ, ◌+◌, ◌-◌, ◌^◌, ◌≤◌, ◌<◌, ◌≡◌, refl, min, List, length, take, Option, none, some,
}
use timberfs.Prelude.{
  Result, ok, err, ◌>>=◌, ltb, if◌then◌else◌, ◌==◌, ==_iff, le→ltb, ltb→le, take_all, arith,
  Bool-cases, inl, inr, sym, ap, ◌∙◌, length-take, ◌↔◌,
}
use timberfs.Bytes.{slice}
use timberfs.Format.{ChunkRecord}

-- What the code calls of the zstd library: `encode_all` at a level, which it only hands on, and the
-- whole output of a `Decoder`, or `none` where it fails.
pub record Zstd : Type 0 where
  pub encode : ℤ → List ℕ → List ℕ
  pub decode : List ℕ → Option (List ℕ)

-- Its documented promise: decoding one frame that it encoded gives the input back.
pub record RoundTrips (z : Zstd) : Type 0 where
  pub decode-encode : (level : ℤ) (bytes : List ℕ) → z.decode (z.encode level bytes) ≡ some bytes

-- The messages of the two functions, and of `chunk_data` in src/store.rs; all are `InvalidData`.
pub data ChunkError : Type 0 where
  frame_too_long past_end chunk_too_long bad_frame expands wrong_length : ChunkError

abbrev pub max_chunk_bytes : ℕ
max_chunk_bytes = 2 ^ 32

abbrev pub saturating_add : ℕ → ℕ → ℕ
saturating_add a b = min (a + b) (2 ^ 64 - 1)

unfoldable pub read_frame : List ℕ → ChunkRecord → Result ChunkError (List ℕ)
read_frame file c =
    if ltb max_chunk_bytes c.comp_len
    then err frame_too_long
    else if ltb (length file) (saturating_add c.comp_start c.comp_len)
    then err past_end
    else ok (slice c.comp_start c.comp_len file)

-- `take(uncomp_len + 1)`, and the length test
abbrev bounded : ℕ → Option (List ℕ) → Result ChunkError (List ℕ)
bounded uncomp_len none = err bad_frame
bounded uncomp_len (some all) =
    let out = take (uncomp_len + 1) all in
    if ltb uncomp_len (length out) then err expands else ok out

unfoldable pub decode_frame : Zstd → List ℕ → ℕ → Result ChunkError (List ℕ)
decode_frame z comp uncomp_len =
    if ltb max_chunk_bytes uncomp_len
    then err chunk_too_long
    else bounded uncomp_len (z.decode comp)

-- The frame and its expansion, with the length test of `chunk_data`.
unfoldable pub load_chunk : Zstd → List ℕ → ChunkRecord → Result ChunkError (List ℕ)
unfolding read_frame decode_frame
load_chunk z file c = do
  comp ← read_frame file c
  out ← decode_frame z comp c.uncomp_len
  if length out == c.uncomp_len then ok out else err wrong_length

-- What an index record promises of the trunk, where `d` is the chunk's content.
pub record IsFrame (z : Zstd) (file : List ℕ) (u c : ℕ) (r : ChunkRecord) (d : List ℕ)
    : Type 0 where
  pub uncomp_start : r.uncomp_start ≡ u
  pub uncomp_len : r.uncomp_len ≡ length d
  pub comp_start : r.comp_start ≡ c
  pub inside : c + r.comp_len ≤ length file
  pub frame_len : r.comp_len ≤ max_chunk_bytes
  pub chunk_len : length d ≤ max_chunk_bytes
  pub nonempty : 0 < length d
  pub fits : u + length d < 2 ^ 64
  pub decoded : z.decode (slice c r.comp_len file) ≡ some d

pub load_chunk-IsFrame :
    (z : Zstd) (file : List ℕ) (u c : ℕ) (r : ChunkRecord) (d : List ℕ)
    → IsFrame z file u c r d
    → load_chunk z file r ≡ ok d
unfolding load_chunk
load_chunk-IsFrame z file u c r d f =
    rw
      (
        le→ltb max_chunk_bytes r.comp_len f.frame_len,
        le→ltb (length file) (saturating_add r.comp_start r.comp_len)
            (omega (arith, f.inside, f.comp_start)),
        f.comp_start,
        f.uncomp_len,
        le→ltb max_chunk_bytes (length d) f.chunk_len,
        f.decoded,
        take_all (length d + 1) d (omega arith),
        le→ltb (length d) (length d) (omega arith),
      )
      (rw ((==_iff (length d) (length d)).1 refl))

-- What a record and a trunk must be for the content `d` to be served: a frame and a chunk of no more
-- than the bound, the frame inside the file, and an expansion of exactly the length of the record.
pub record IsStored (z : Zstd) (file : List ℕ) (c : ChunkRecord) (d : List ℕ) : Type 0 where
  pub frame_len : c.comp_len ≤ max_chunk_bytes
  pub inside : c.comp_start + c.comp_len ≤ length file
  pub chunk_len : c.uncomp_len ≤ max_chunk_bytes
  pub decoded : z.decode (slice c.comp_start c.comp_len file) ≡ some d
  pub whole : length d ≡ c.uncomp_len

-- What `load_chunk` does behind the guards of the frame: the bounded expansion and its length.
abbrev expanded : ℕ → Option (List ℕ) → Result ChunkError (List ℕ)
expanded uncomp_len o =
    bounded uncomp_len o >>= λ out. if length out == uncomp_len then ok out else err wrong_length

err≢ok : (e : ChunkError) (a : List ℕ) → ◌≡◌ {A = Result ChunkError (List ℕ)} (err e) (ok a) → ⊥
err≢ok e a h = cc

ok_inj : (a b : List ℕ) → ◌≡◌ {A = Result ChunkError (List ℕ)} (ok a) (ok b) → a ≡ b
ok_inj a b h = cc

-- The bounded expansion is taken only where it is all of the decoder's output.
expanded_ok :
    (n : ℕ) (o : Option (List ℕ)) (d : List ℕ) → expanded n o ≡ ok d → (o ≡ some d) × (length d ≡ n)
expanded_ok n none d e = absurd (err≢ok _ d e)
expanded_ok n (some all) d e = elim (Bool-cases (ltb n (length (take (n + 1) all)))) [
  | inl long ↦ absurd (err≢ok _ d (rw long at e))
  | inr short ↦ elim (Bool-cases (length (take (n + 1) all) == n)) [
    | inl same ↦
        let out : take (n + 1) all ≡ d = ok_inj (take (n + 1) all) d (rw (short, same) at e) in
        let full : take (n + 1) all ≡ all =
          take_all (n + 1) all
            (omega (arith, length-take (n + 1) all, ltb→le n (length (take (n + 1) all)) short)) in
        (
          ap some (sym full ∙ out),
          ap length (sym out) ∙ (==_iff (length (take (n + 1) all)) n).0 same,
        )
    | inr other ↦ absurd (err≢ok _ d (rw (short, other) at e))
  ]
]

-- From a file of less than 2^63 bytes a chunk's content is served exactly where the record and the
-- trunk agree on it: no frame or chunk over the bound, none that ends past the file, none that expands
-- to more or to fewer bytes than the record says. The bound on the expansion cuts nothing off what is
-- served.
pub load_chunk_iff :
    (z : Zstd) (file : List ℕ) (c : ChunkRecord) (d : List ℕ)
    → length file < 2 ^ 63
    → (load_chunk z file c ≡ ok d) ↔ IsStored z file c d
unfolding load_chunk
load_chunk_iff z file c d fits = (served, stored)
  where
    served : load_chunk z file c ≡ ok d → IsStored z file c d
    served e = elim (Bool-cases (ltb max_chunk_bytes c.comp_len)) [
      | inl long ↦ absurd (err≢ok _ d (rw long at e))
      | inr frame_len ↦
          elim (Bool-cases (ltb (length file) (saturating_add c.comp_start c.comp_len))) [
            | inl past ↦ absurd (err≢ok _ d (rw (frame_len, past) at e))
            | inr inside ↦ elim (Bool-cases (ltb max_chunk_bytes c.uncomp_len)) [
              | inl large ↦ absurd (err≢ok _ d (rw (frame_len, inside, large) at e))
              | inr chunk_len ↦
                  let (decoded, whole) =
                    expanded_ok c.uncomp_len (z.decode (slice c.comp_start c.comp_len file)) d
                      (rw (frame_len, inside, chunk_len) at e) in
                  record {
                    frame_len = ltb→le max_chunk_bytes c.comp_len frame_len;
                    inside = omega (
                      arith,
                      fits,
                      ltb→le (length file) (saturating_add c.comp_start c.comp_len) inside,
                    );
                    chunk_len = ltb→le max_chunk_bytes c.uncomp_len chunk_len;
                    decoded = decoded;
                    whole = whole;
                  }
            ]
          ]
    ]

    stored : IsStored z file c d → load_chunk z file c ≡ ok d
    stored s =
        rw
          (
            le→ltb max_chunk_bytes c.comp_len s.frame_len,
            le→ltb (length file) (saturating_add c.comp_start c.comp_len) (omega (arith, s.inside)),
            le→ltb max_chunk_bytes c.uncomp_len s.chunk_len,
            s.decoded,
            ← s.whole,
            take_all (length d + 1) d (omega arith),
            le→ltb (length d) (length d) (omega arith),
          )
          (rw ((==_iff (length d) (length d)).1 refl))
