-- ===== src/Heap/Tuple/Build.antt =====
-- `parse_and_build` on every buffer.
use native.Mathlib.Decide.{dec_le}
use pg_arrow.Base.{
  ℕ, ◌+◌, ◌-◌, ◌≤◌, ◌<◌, ◌≡◌, refl, arith, true, false, Bytes, [], some, Result, ok, err, panic,
  length, drop, get_elem?, get_elem?-in, slice, slice-in, read_word-in, word_at, sub_list, ◌⊎◌,
  length-sub_list, lt→ltb, le→ltb, Bool-cases, inl, inr, ap, ◌∙◌, if◌then◌else◌, take_whole,
  length-drop,
}
use pg_arrow.Types.Datum.{index}
use pg_arrow.File.Error.{PgError}
use pg_arrow.Heap.Tuple.{
  HeapTupleHeaderData, HeapTupleData, InfoMask, mask_value, has_flag, header_size, bitmap_bytes,
  read_header, read_null_bitmap, finish_tuple, checked_tuple, parse_and_build,
}

-- The header at the front of a buffer, field by field.
abbrev pub header_at : Bytes → ℕ → HeapTupleHeaderData
header_at raw hoff = record {
  t_xmin = word_at 4 raw 0;
  t_xmax = word_at 4 raw 4;
  t_field3 = word_at 4 raw 8;
  t_ctid = record {
    ip_blkid = record { bi_hi = word_at 2 raw 12; bi_lo = word_at 2 raw 14 };
    ip_posid = word_at 2 raw 16;
  };
  t_infomask2 = word_at 2 raw 18;
  t_infomask = word_at 2 raw 20;
  t_hoff = hoff;
}

pub read_header-in :
    (raw : Bytes) (hoff : ℕ)
    → header_size ≤ length raw
    → get_elem? raw 22 ≡ some hoff
    → read_header raw ≡ ok (header_at raw hoff)
unfolding read_header index
read_header-in raw hoff h at = rw (
  read_word-in 4 raw 0 (omega arith),
  read_word-in 4 raw 4 (omega arith),
  read_word-in 4 raw 8 (omega arith),
  read_word-in 2 raw 12 (omega arith),
  read_word-in 2 raw 14 (omega arith),
  read_word-in 2 raw 16 (omega arith),
  read_word-in 2 raw 18 (omega arith),
  read_word-in 2 raw 20 (omega arith),
  at,
)

-- The null bitmap that the header announces.
abbrev pub bitmap_of : Bytes → HeapTupleHeaderData → Bytes
bitmap_of raw h =
    if has_flag h (mask_value InfoMask.has_null)
    then sub_list raw header_size (header_size + bitmap_bytes h)
    else []

-- What a tuple built from `raw` is.
pub record IsBuilt (raw : Bytes) (t : HeapTupleData) : Type 0 where
  pub header_found : t.header ≡ header_at raw t.header.t_hoff
  pub hoff_found : get_elem? raw 22 ≡ some t.header.t_hoff
  pub after_header : header_size ≤ t.header.t_hoff
  pub within : t.header.t_hoff ≤ length raw
  pub bitmap_found : t.null_bitmap ≡ bitmap_of raw t.header
  pub bitmap_fits : header_size + length t.null_bitmap ≤ t.header.t_hoff
  pub bytes_found : t.bytes ≡ drop t.header.t_hoff raw

-- The reason for each refusal.
abbrev pub Refused : Bytes → PgError → Type 0
Refused raw (PgError.tuple_buffer_too_short actual expected) =
    (actual ≡ length raw) × (expected ≡ header_size) × (length raw < header_size)
Refused raw (PgError.invalid_tuple_hoff t_hoff min buf_len) =
    (get_elem? raw 22 ≡ some t_hoff)
    × ((t_hoff < header_size) ⊎ (length raw < t_hoff))
    × (min ≡ header_size)
    × (buf_len ≡ length raw)
Refused raw (PgError.null_bitmap_overflow bitmap_end t_hoff) =
    (get_elem? raw 22 ≡ some t_hoff)
    × (has_flag (header_at raw t_hoff) (mask_value InfoMask.has_null) ≡ true)
    × (bitmap_end ≡ header_size + bitmap_bytes (header_at raw t_hoff))
    × (t_hoff < bitmap_end)
Refused raw _ = ⊥

abbrev pub Accounts : Bytes → Result PgError HeapTupleData → Type 0
Accounts raw (ok t) = IsBuilt raw t
Accounts raw (err e) = Refused raw e
Accounts raw panic = ⊥

module _ (raw : Bytes) (hoff : ℕ) (at : get_elem? raw 22 ≡ some hoff) (low : header_size ≤ hoff)
    (high : hoff ≤ length raw) where
  data_found : slice {E = PgError} raw hoff (length raw) ≡ ok (drop hoff raw)
  data_found =
      slice-in raw hoff (length raw) high (omega arith)
      ∙ ap ok (take_whole (length raw - hoff) (drop hoff raw) (omega (arith, length-drop hoff raw)))

  -- With no null bitmap.
  plain :
      has_flag (header_at raw hoff) (mask_value InfoMask.has_null) ≡ false
      → Accounts raw (finish_tuple raw (header_at raw hoff))
  unfolding finish_tuple read_null_bitmap
  plain flag =
      rw (flag, data_found)
        (record {
          header_found = refl;
          hoff_found = at;
          after_header = low;
          within = high;
          bitmap_found = rw flag;
          bitmap_fits = omega arith;
          bytes_found = refl;
        })

  -- With a null bitmap in front of the data.
  mapped :
      has_flag (header_at raw hoff) (mask_value InfoMask.has_null) ≡ true
      → header_size + bitmap_bytes (header_at raw hoff) ≤ hoff
      → Accounts raw (finish_tuple raw (header_at raw hoff))
  unfolding finish_tuple read_null_bitmap
  mapped flag fits =
      let n = bitmap_bytes (header_at raw hoff) in
      let found =
        slice-in {E = PgError} raw header_size (header_size + n) (omega arith) (omega arith) in
      rw (flag, le→ltb hoff (header_size + n) fits, found, data_found)
        (record {
          header_found = refl;
          hoff_found = at;
          after_header = low;
          within = high;
          bitmap_found = rw flag;
          bitmap_fits = omega (
            arith,
            length-sub_list raw header_size (header_size + n) (omega arith) (omega arith),
          );
          bytes_found = refl;
        })

  overflowing :
      has_flag (header_at raw hoff) (mask_value InfoMask.has_null) ≡ true
      → hoff < header_size + bitmap_bytes (header_at raw hoff)
      → Accounts raw (finish_tuple raw (header_at raw hoff))
  unfolding finish_tuple read_null_bitmap
  overflowing flag over =
      rw (flag, lt→ltb hoff (header_size + bitmap_bytes (header_at raw hoff)) over)
        (at, flag, refl, over)

  finish-Accounts : Accounts raw (finish_tuple raw (header_at raw hoff))
  finish-Accounts =
      elim (Bool-cases (has_flag (header_at raw hoff) (mask_value InfoMask.has_null))) [
        | inl flag ↦ elim (dec_le (header_size + bitmap_bytes (header_at raw hoff)) hoff) [
          | yes fits ↦ mapped flag fits
          | no over ↦ overflowing flag (omega arith)
        ]
        | inr flag ↦ plain flag
      ]

checked-Accounts :
    (raw : Bytes) (hoff : ℕ)
    → header_size ≤ length raw
    → get_elem? raw 22 ≡ some hoff
    → Accounts raw (checked_tuple raw)
unfolding checked_tuple
checked-Accounts raw hoff h at = rw (read_header-in raw hoff h at) (elim (dec_le header_size hoff) [
  | yes low ↦ elim (dec_le hoff (length raw)) [
    | yes high ↦
        rw (le→ltb hoff header_size low, le→ltb (length raw) hoff high)
          (finish-Accounts raw hoff at low high)
    | no high ↦
        rw (le→ltb hoff header_size low, lt→ltb (length raw) hoff (omega arith))
          (at, inr (omega arith), refl, refl)
  ]
  | no low ↦ rw (lt→ltb hoff header_size (omega arith)) (at, inl (omega arith), refl, refl)
])

-- On every buffer `parse_and_build` does one of four things, and never panics. It builds a tuple with
-- the header's fields, the data from `t_hoff` on and the null bitmap, empty if `HasNull` is not set,
-- that ends at `t_hoff` at the latest; or it refuses the buffer because it is shorter than a header,
-- because `t_hoff` lies before the header's end or behind the buffer's, or because the null bitmap
-- reaches past `t_hoff`, and the error holds the sizes.
pub parse_and_build-Accounts : (raw : Bytes) → Accounts raw (parse_and_build raw)
unfolding parse_and_build
parse_and_build-Accounts raw = elim (dec_le header_size (length raw)) [
  | yes h ↦
      let (hoff, at) = get_elem?-in raw 22 (omega arith) in
      rw (le→ltb (length raw) header_size h) (checked-Accounts raw hoff h at)
  | no h ↦ rw (lt→ltb (length raw) header_size (omega arith)) (refl, refl, omega arith)
]
