-- ===== src/Heap/Tuple/RoundTrip.antt =====
-- A tuple in the server's layout is read back.
use mathlib.Core.List.{append_assoc}
use pg_arrow.Base.{
  ℕ, ◌≤◌, ◌+◌, ◌-◌, ◌%◌, ◌*◌, ◌^◌, ◌<◌, ◌≡◌, ◌⊎◌, inl, inr, refl, arith, ap, ◌∙◌, true, false,
  Bytes, [], ◌∷◌, ◌++◌, some, ok, length, length-append, get_elem?, to_le, from_le, from_le-to_le,
  sub_list, sub_list-append, drop, drop_all, take_whole, slice, slice-in, le→ltb,
}
use pg_arrow.Base.Bits.{bit_and-ones}
use pg_arrow.File.Error.{PgError}
use pg_arrow.Heap.Tuple.Build.{header_at, read_header-in}
use pg_arrow.Heap.Tuple.{
  HeapTupleHeaderData, InfoMask, mask_value, has_flag, bitmap_bytes, read_header, read_null_bitmap,
  finish_tuple, checked_tuple, parse_and_build,
}

-- The fixed fields in the server's layout: 23 bytes.
abbrev pub encode_header : HeapTupleHeaderData → Bytes
encode_header h =
    to_le 4 h.t_xmin
    ++ (to_le 4 h.t_xmax
        ++ (to_le 4 h.t_field3
            ++ (to_le 2 h.t_ctid.ip_blkid.bi_hi
                ++ (to_le 2 h.t_ctid.ip_blkid.bi_lo
                    ++ (to_le 2 h.t_ctid.ip_posid
                        ++ (to_le 2 h.t_infomask2 ++ (to_le 2 h.t_infomask ++ (h.t_hoff ∷ []))))))))

-- Every field is in the range of its word.
pub record IsHeader (h : HeapTupleHeaderData) : Type 0 where
  pub xmin_fits : h.t_xmin < 256 ^ 4
  pub xmax_fits : h.t_xmax < 256 ^ 4
  pub field3_fits : h.t_field3 < 256 ^ 4
  pub hi_fits : h.t_ctid.ip_blkid.bi_hi < 256 ^ 2
  pub lo_fits : h.t_ctid.ip_blkid.bi_lo < 256 ^ 2
  pub posid_fits : h.t_ctid.ip_posid < 256 ^ 2
  pub infomask2_fits : h.t_infomask2 < 256 ^ 2
  pub infomask_fits : h.t_infomask < 256 ^ 2

length-encode_header : (h : HeapTupleHeaderData) → length (encode_header h) ≡ 23
unfolding to_le
length-encode_header h = refl

hoff-encode_header :
    (h : HeapTupleHeaderData) (rest : Bytes)
    → get_elem? (encode_header h ++ rest) 22 ≡ some h.t_hoff
unfolding to_le
hoff-encode_header h rest = refl

header_at-encode_header :
    (h : HeapTupleHeaderData) (rest : Bytes)
    → IsHeader h
    → header_at (encode_header h ++ rest) h.t_hoff ≡ h
unfolding from_le to_le
header_at-encode_header h rest fits =
    rw
      (
        from_le-to_le 4 h.t_xmin fits.xmin_fits,
        from_le-to_le 4 h.t_xmax fits.xmax_fits,
        from_le-to_le 4 h.t_field3 fits.field3_fits,
        from_le-to_le 2 h.t_ctid.ip_blkid.bi_hi fits.hi_fits,
        from_le-to_le 2 h.t_ctid.ip_blkid.bi_lo fits.lo_fits,
        from_le-to_le 2 h.t_ctid.ip_posid fits.posid_fits,
        from_le-to_le 2 h.t_infomask2 fits.infomask2_fits,
        from_le-to_le 2 h.t_infomask fits.infomask_fits,
      )
      refl

-- The number of attributes, in the eleven low bits of `t_infomask2`.
abbrev pub natts : HeapTupleHeaderData → ℕ
natts h = h.t_infomask2 % 2048

-- The null bitmap that goes with a header: a bit for every attribute in as few bytes as they need, or
-- none.
abbrev pub IsBitmap : HeapTupleHeaderData → Bytes → Type 0
IsBitmap h bitmap =
    ((has_flag h (mask_value InfoMask.has_null) ≡ true)
      × (natts h ≤ 8 * length bitmap)
      × (8 * length bitmap < natts h + 8))
    ⊎ ((has_flag h (mask_value InfoMask.has_null) ≡ false) × (bitmap ≡ []))

bitmap_bytes-natts :
    (h : HeapTupleHeaderData) (n : ℕ) → natts h ≤ 8 * n → 8 * n < natts h + 8 → n ≡ bitmap_bytes h
unfolding bitmap_bytes
bitmap_bytes-natts h n low high = omega (arith, bit_and-ones 11 h.t_infomask2)

-- A tuple: the header, the null bitmap, padding up to `t_hoff`, and the data.
abbrev pub encode_tuple : HeapTupleHeaderData → Bytes → Bytes → Bytes → Bytes
encode_tuple h bitmap padding bytes = encode_header h ++ (bitmap ++ (padding ++ bytes))

module _ (h : HeapTupleHeaderData) (bitmap padding bytes : Bytes)
    (hoff : h.t_hoff ≡ 23 + length bitmap + length padding) where
  raw : Bytes
  raw = encode_tuple h bitmap padding bytes

  length-raw : length raw ≡ h.t_hoff + length bytes
  unfolding raw
  length-raw = omega (
    arith,
    length-append (encode_header h) (bitmap ++ (padding ++ bytes)),
    length-append bitmap (padding ++ bytes),
    length-append padding bytes,
    length-encode_header h,
  )

  bitmap_there : sub_list raw 23 (23 + length bitmap) ≡ bitmap
  unfolding raw
  bitmap_there =
      let e = length-encode_header h in
      rw (← e) (sub_list-append (encode_header h) bitmap (padding ++ bytes) refl)

  bytes_there : drop h.t_hoff raw ≡ bytes
  unfolding raw
  bytes_there =
      let front = encode_header h ++ (bitmap ++ padding) in
      let same : front ++ bytes ≡ encode_tuple h bitmap padding bytes =
        append_assoc (encode_header h) (bitmap ++ padding) bytes
        ∙ ap (λ t. encode_header h ++ t) (append_assoc bitmap padding bytes) in
      let long : length front ≡ h.t_hoff = omega (
        arith,
        length-append (encode_header h) (bitmap ++ padding),
        length-append bitmap padding,
        length-encode_header h,
      ) in
      rw (← same) (drop_all h.t_hoff front bytes long)

  data_read : slice {E = PgError} raw h.t_hoff (length raw) ≡ ok bytes
  data_read =
      slice-in raw h.t_hoff (length raw) (omega (arith, length-raw)) (omega arith)
      ∙ ap ok
          (rw bytes_there (take_whole (length raw - h.t_hoff) bytes (omega (arith, length-raw))))

  bitmap_read : IsBitmap h bitmap → read_null_bitmap raw h ≡ ok bitmap
  unfolding read_null_bitmap
  bitmap_read (inl (flag, low, high)) =
      let n = bitmap_bytes-natts h (length bitmap) low high in
      let fits = le→ltb h.t_hoff (23 + length bitmap) (omega arith) in
      let there =
        slice-in {E = PgError} raw 23 (23 + length bitmap) (omega arith)
          (omega (arith, length-raw)) in
      rw (flag, ← n, fits, there, bitmap_there) refl
  bitmap_read (inr (flag, empty)) = rw (flag, empty) refl

-- `parse_and_build` reads a tuple back from its header, its null bitmap, which has a bit for every
-- attribute in as few bytes as they need, or is left out with `HasNull` not set, any padding up to `t_hoff`, and the data,
-- where the fields of the header are in the range of their words.
pub parse_and_build-encode_tuple :
    (h : HeapTupleHeaderData) (bitmap padding bytes : Bytes)
    → IsHeader h
    → IsBitmap h bitmap
    → h.t_hoff ≡ 23 + length bitmap + length padding
    → parse_and_build (encode_tuple h bitmap padding bytes)
      ≡ ok (record { header = h; null_bitmap = bitmap; bytes = bytes })
unfolding parse_and_build checked_tuple finish_tuple raw
parse_and_build-encode_tuple h bitmap padding bytes fits map_fits hoff =
    let rest = bitmap ++ (padding ++ bytes) in
    let whole = encode_tuple h bitmap padding bytes in
    let long : length whole ≡ h.t_hoff + length bytes = length-raw h bitmap padding bytes hoff in
    let found : read_header whole ≡ ok h =
      read_header-in whole h.t_hoff (omega arith) (hoff-encode_header h rest)
      ∙ ap ok (header_at-encode_header h rest fits) in
    rw
      (
        le→ltb (length whole) 23 (omega arith),
        found,
        le→ltb h.t_hoff 23 (omega arith),
        le→ltb (length whole) h.t_hoff (omega arith),
        bitmap_read h bitmap padding bytes hoff map_fits,
        data_read h bitmap padding bytes hoff,
      )
      refl
