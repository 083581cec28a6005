-- ===== src/Sap/Resume.antt =====
-- `resume` of a segment behind its replay, and the appends to it.
use timberfs.Prelude.{
  ℕ, ◌+◌, ◌≤◌, ◌≡◌, refl, ap, ◌∙◌, sym, List, [], ◌∷◌, ◌++◌, length, take, All, arith, some,
  map-append, concat-append, length-append, take-append_ge, length-take, take-drop-take,
}
use timberfs.Bytes.{IsU64}
use timberfs.Bytes.File.{set_len_shorter}
use timberfs.Sap.{Sap, SapEntry, header_bytes, replay, append, resume, SapReplay}
use timberfs.Sap.Record.{IsEntry}
use timberfs.Sap.Crash.{
  encode_all, whole_within, whole_within-prefix, length-whole_within, All-whole_within,
}
use timberfs.Prelude.{take-append_eq, All-append}
use timberfs.Sap.Segment.{
  segment, Holds, append-Holds, length-header_bytes, replay-segment, replay_whole,
}

-- The bytes of the whole records come first, and lie before the cut.
whole_bytes :
    (es : List SapEntry) (k : ℕ)
    → take (length (encode_all (whole_within k es))) (take k (encode_all es))
      ≡ encode_all (whole_within k es)
whole_bytes es k =
    take-drop-take (length (encode_all whole)) 0 k (encode_all es)
      (omega (arith, length-whole_within k es))
    ∙ ap (λ t. take (length (encode_all whole)) (encode_all t)) (sym (whole_within-prefix k es))
    ∙ rw (map-append, concat-append) (take-append_eq _ (encode_all whole) _ refl)
  where
    whole : List SapEntry
    whole = whole_within k es

resume-Holds :
    (base uncomp_base : ℕ) (es : List SapEntry) (k : ℕ)
    → k ≤ length (encode_all es)
    → Holds
        (resume
          (take (24 + k) (segment base uncomp_base es))
          base
          uncomp_base
          (24 + length (encode_all (whole_within k es))))
        (whole_within k es)
unfolding resume
resume-Holds base uncomp_base es k hk = record {
  bytes =
      set_len_shorter (24 + length (encode_all whole)) (take (24 + k) (segment base uncomp_base es))
        room
      ∙ rw (cut k (encode_all es)) (
          cut (length (encode_all whole)) (take k (encode_all es))
          ∙ ap (λ t. header_bytes base uncomp_base ++ t) (whole_bytes es k));
}
  where
    whole : List SapEntry
    whole = whole_within k es

    cut :
        (n : ℕ) (body : List ℕ)
        → take (24 + n) (header_bytes base uncomp_base ++ body)
          ≡ header_bytes base uncomp_base ++ take n body
    cut n body =
        take-append_ge (24 + n) n (header_bytes base uncomp_base) body
          (omega (arith, length-header_bytes base uncomp_base))

    room : 24 + length (encode_all whole) ≤ length (take (24 + k) (segment base uncomp_base es))
    room = omega (
      arith,
      hk,
      length-whole_within k es,
      length-take (24 + k) (segment base uncomp_base es),
      length-append (header_bytes base uncomp_base) (encode_all es),
      length-header_bytes base uncomp_base,
    )

-- A segment of entries and bases that fit their fields, cut by a crash at byte `k`, its header
-- whole, is resumed with exactly what its replay returns: it then holds exactly the entries whose
-- records are whole before the cut, under the bases that it had. An entry that is appended next
-- stands directly behind them: the replay of the bytes then returns the recovered entries and the
-- new one, with nothing of the torn record between.
pub replay-resume :
    (base uncomp_base : ℕ) (es : List SapEntry) (e : SapEntry) (k : ℕ)
    → IsU64 base
    → IsU64 uncomp_base
    → All IsEntry es
    → IsEntry e
    → k ≤ length (encode_all es)
    → (r : SapReplay) × ((replay (some (take (24 + k) (segment base uncomp_base es)))).0 ≡ some r)
      × Holds
          (resume (take (24 + k) (segment base uncomp_base es)) r.base r.uncomp_base r.valid_len)
          (whole_within k es)
      × ((replay (
            some
              (append e (
                resume
                  (take (24 + k) (segment base uncomp_base es))
                  r.base
                  r.uncomp_base
                  r.valid_len)).bytes)).0
          ≡ some (record {
            base = base;
            uncomp_base = uncomp_base;
            entries = whole_within k es ++ (e ∷ []);
            valid_len = 24 + length (encode_all (whole_within k es ++ (e ∷ [])));
          }))
unfolding resume append
replay-resume base uncomp_base es e k hb hu h he hk = (
  record {
    base = base;
    uncomp_base = uncomp_base;
    entries = whole;
    valid_len = 24 + length (encode_all whole);
  },
  ap (λ p. p.0) (replay-segment base uncomp_base es k hb hu h hk),
  held,
  ap (λ p. p.0)
      (ap (λ b. replay (some b)) (append-Holds e resumed whole held).bytes
        ∙ replay_whole base uncomp_base (whole ++ (e ∷ [])) hb hu
            (All-append IsEntry whole (e ∷ []) (All-whole_within k es h) (he, tt))),
)
  where
    whole : List SapEntry
    whole = whole_within k es

    resumed : Sap
    resumed =
        resume (take (24 + k) (segment base uncomp_base es)) base uncomp_base
          (24 + length (encode_all whole))

    held : Holds resumed whole
    held = resume-Holds base uncomp_base es k hk
