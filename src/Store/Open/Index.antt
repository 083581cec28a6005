-- ===== src/Store/Open/Index.antt =====
-- What the index of a well-formed store gives when the store is opened, a torn record included.
use timberfs.Prelude.{
  ℕ, ◌+◌, ◌^◌, ◌≤◌, ◌<◌, ◌≡◌, refl, ◌∙◌, sym, max, List, [], ◌∷◌, ◌++◌, Option, none, some, length,
  take, get_last?, All, arith, false, ok, le→ltb, lt→ltb, length-append, append-nil, take-append_eq,
  ◌==◌,
}
use timberfs.Bytes.LittleEndian.{bytes_eq_refl}
use timberfs.Format.{
  ChunkRecord, Dropped, rings_header, record_len, header_store_id, header_dropped, header_next_seq,
  comp_end, uncomp_end,
}
use timberfs.Format.Record.{IsRecord}
use timberfs.Format.Index.{encode}
use timberfs.Format.Header.{
  IsHeader, IsId, length-rings_header, header_next_seq-rings_header, header_dropped-rings_header,
  header_store_id-rings_header,
}
use timberfs.Format.Parse.{parse_index-encode}
use timberfs.Format.Migrate.{number_after}
use timberfs.Format.Chunk.{Zstd, IsFrame}
use timberfs.Store.Inv.{Frames, Frames-le}
use timberfs.Store.Open.{settle_id, open_index, drop_truncated, end_or_zero}

module _ (n : ℕ) (d : Dropped) (id : Option (List ℕ)) (h : IsHeader n d id) (is_id : IsId id) where
  head : (rest : List ℕ) → take 64 (rings_header n d id ++ rest) ≡ rings_header n d id
  head rest = take-append_eq 64 (rings_header n d id) rest (sym (length-rings_header n d id h []))

  next_seq : header_next_seq (rings_header n d id) ≡ n
  next_seq = rw (append-nil (rings_header n d id)) at (header_next_seq-rings_header n d id h [])

  dropped : header_dropped (rings_header n d id) ≡ d
  dropped = rw (append-nil (rings_header n d id)) at (header_dropped-rings_header n d id h [])

  store_id : header_store_id (rings_header n d id) ≡ id
  store_id =
      rw (append-nil (rings_header n d id)) at (header_store_id-rings_header n d id h [] is_id)

  settled : (rings : List ℕ) → settle_id id id rings ≡ ok (rings, id)
  settled rings = go id
    where
      go : (o : Option (List ℕ)) → settle_id o o rings ≡ ok (rings, o)
      go none = refl
      go (some mine) = rw (bytes_eq_refl mine)

  -- The open reads back an index with a header that this version writes, records and then fewer than 56
  -- bytes of a torn record, where the manifest names the same store: it gives the records, the greater
  -- of the two next numbers, the drop totals and the id, and ignores the torn record.
  pub open_index-encode :
      (fresh torn : List ℕ) (rs : List ChunkRecord)
      → All IsRecord rs
      → length torn < record_len
      → open_index id fresh (rings_header n d id ++ (encode rs ++ torn))
        ≡ ok (record {
          rings = rings_header n d id ++ (encode rs ++ torn);
          chunks = rs;
          next_seq = max n (number_after (get_last? rs));
          dropped = d;
          store_id = id;
        })
  unfolding open_index
  open_index-encode fresh torn rs hr short =
      rw
        (
          not_empty,
          parse_index-encode n d id rs torn h hr short,
          le→ltb (length rings) 64 long,
          head (encode rs ++ torn),
          store_id,
        )
        (rw (settled rings) (rw (next_seq, dropped)))
    where
      rings : List ℕ
      rings = rings_header n d id ++ (encode rs ++ torn)

      long : 64 ≤ length rings
      long = omega (
        arith,
        length-append (rings_header n d id) (encode rs ++ torn),
        length-rings_header n d id h [],
      )

      not_empty : (length rings == 0) ≡ false
      not_empty = ground (arith, long)

module _ (z : Zstd) (file : List ℕ) where
  end-IsFrame :
      (u c : ℕ) (r : ChunkRecord) (d : List ℕ)
      → length file < 2 ^ 64
      → IsFrame z file u c r d
      → (comp_end r ≡ c + r.comp_len) × (uncomp_end r ≡ u + length d)
  unfolding comp_end uncomp_end
  end-IsFrame u c r d small f = (
    omega (arith, f.comp_start, f.inside, small),
    omega (arith, f.uncomp_start, f.uncomp_len, f.fits),
  )

  -- No record of frames that end within the trunk is popped,
  pub drop_truncated-Frames :
      (n u c u' c' : ℕ) (rs : List ChunkRecord) (ds : List (List ℕ))
      → length file < 2 ^ 64
      → c' ≤ n
      → Frames z file u c u' c' rs ds
      → drop_truncated n rs ≡ rs
  unfolding drop_truncated
  drop_truncated-Frames n u c u' c' [] [] small h f = refl
  drop_truncated-Frames n u c u' c' [] (d ∷ ds) small h f = absurd f
  drop_truncated-Frames n u c u' c' (r ∷ rs) [] small h f = absurd f
  drop_truncated-Frames n u c u' c' (r ∷ rs) (d ∷ ds) small h (f, fs) =
      rw
        (
          drop_truncated-Frames n (u + length d) (c + r.comp_len) u' c' rs ds small h fs,
          le→ltb n (comp_end r) inside,
        )
        (ground arith)
    where
      inside : comp_end r ≤ n
      inside = omega (
        arith,
        h,
        (end-IsFrame u c r d small f).0,
        Frames-le z file (u + length d) (c + r.comp_len) u' c' rs ds fs,
      )

  -- and a last one that ends past it is, alone.
  pub drop_truncated-snoc :
      (n u c u' c' : ℕ) (rs : List ChunkRecord) (ds : List (List ℕ)) (last : ChunkRecord)
      → length file < 2 ^ 64
      → c' ≤ n
      → Frames z file u c u' c' rs ds
      → n < comp_end last
      → drop_truncated n (rs ++ (last ∷ [])) ≡ rs
  unfolding drop_truncated
  drop_truncated-snoc n u c u' c' [] [] last small h f past = rw (lt→ltb n (comp_end last) past)
  drop_truncated-snoc n u c u' c' [] (d ∷ ds) last small h f past = absurd f
  drop_truncated-snoc n u c u' c' (r ∷ rs) [] last small h f past = absurd f
  drop_truncated-snoc n u c u' c' (r ∷ rs) (d ∷ ds) last small h (f, fs) past =
      rw
        (
          drop_truncated-snoc n (u + length d) (c + r.comp_len) u' c' rs ds last small h fs past,
          le→ltb n (comp_end r) inside,
        )
        (ground arith)
    where
      inside : comp_end r ≤ n
      inside = omega (
        arith,
        h,
        (end-IsFrame u c r d small f).0,
        Frames-le z file (u + length d) (c + r.comp_len) u' c' rs ds fs,
      )

  -- The last record says where the two offset spaces end.
  pub last_ends :
      (u c u' c' : ℕ) (r : ChunkRecord) (rs : List ChunkRecord) (ds : List (List ℕ))
      → length file < 2 ^ 64
      → Frames z file u c u' c' (r ∷ rs) ds
      → (end_or_zero comp_end (get_last? (r ∷ rs)) ≡ c')
        × (end_or_zero uncomp_end (get_last? (r ∷ rs)) ≡ u')
  last_ends u c u' c' r rs [] small f = absurd f
  last_ends u c u' c' r [] (d ∷ []) small (f, (eu, ec)) =
      ((end-IsFrame u c r d small f).0 ∙ ec, (end-IsFrame u c r d small f).1 ∙ eu)
  last_ends u c u' c' r [] (d ∷ x ∷ ds) small (f, fs) = absurd fs
  last_ends u c u' c' r (q ∷ rs) (d ∷ ds) small (f, fs) =
      last_ends (u + length d) (c + r.comp_len) u' c' q rs ds small fs
