-- ===== src/Heap/Tuple/Tests.antt =====
-- A tuple of three columns, the second NULL, and the theorems on headers at it.
use pg_arrow.Types.Defs.{PgTypeId}
use pg_arrow.Types.Datum.{PgDatum}
use pg_arrow.Types.Fixed.{decode_fixed}
use pg_arrow.Heap.Tuple.Tid.{decode_fixed-tid}
use pg_arrow.Base.{to_le, ◌++◌, inl, refl, ok, from_le, ◌≡◌, arith, Bytes, [], ◌∷◌}
use pg_arrow.Heap.Tuple.{
  HeapTupleHeaderData, mask_value, has_flag, from_u32, block_number, parse_and_build,
}
use pg_arrow.Heap.Tuple.Build.{header_at, Accounts, parse_and_build-Accounts}
use pg_arrow.Heap.Tuple.RoundTrip.{IsHeader, IsBitmap, encode_tuple, parse_and_build-encode_tuple}
use pg_arrow.Heap.Tuple.Masks.{block_number-from_u32}

abbrev pub raw_tuple : Bytes
raw_tuple =
    1 ∷ 0 ∷ 0 ∷ 0 ∷ 0 ∷ 0 ∷ 0 ∷ 0 ∷ 0 ∷ 0 ∷ 0 ∷ 0 ∷ 0 ∷ 0 ∷ 0 ∷ 0 ∷ 1 ∷ 0 ∷ 3 ∷ 0 ∷ 1 ∷ 9 ∷ 24 ∷ 5
    ∷ 7 ∷ 0 ∷ 0 ∷ 0 ∷ 7 ∷ 97 ∷ 98 ∷ []

abbrev pub header : HeapTupleHeaderData
header = header_at raw_tuple 24

parse_and_build-Accounts_example : Accounts raw_tuple (parse_and_build raw_tuple)
parse_and_build-Accounts_example = parse_and_build-Accounts raw_tuple

block_number-from_u32_example :
    (block_number (from_u32 65538) ≡ 65538)
    × (from_u32 (block_number (record { bi_hi = 1; bi_lo = 2 })) ≡ record { bi_hi = 1; bi_lo = 2 })
block_number-from_u32_example =
    block_number-from_u32 65538 1 2 (omega arith) (omega arith) (omega arith)

abbrev pub stored_bytes : Bytes
stored_bytes = 7 ∷ 0 ∷ 0 ∷ 0 ∷ 7 ∷ 97 ∷ 98 ∷ []

pub header-IsHeader : IsHeader header
unfolding from_le
header-IsHeader = record {
  xmin_fits = omega arith;
  xmax_fits = omega arith;
  field3_fits = omega arith;
  hi_fits = omega arith;
  lo_fits = omega arith;
  posid_fits = omega arith;
  infomask2_fits = omega arith;
  infomask_fits = omega arith;
}

pub nulls-IsBitmap : IsBitmap header (5 ∷ [])
unfolding has_flag mask_value from_le
nulls-IsBitmap = inl (refl, omega arith, omega arith)

parse_and_build-encode_tuple_example :
    parse_and_build (encode_tuple header (5 ∷ []) [] stored_bytes)
    ≡ ok (record { header = header; null_bitmap = 5 ∷ []; bytes = stored_bytes })
parse_and_build-encode_tuple_example =
    parse_and_build-encode_tuple header (5 ∷ []) [] stored_bytes header-IsHeader nulls-IsBitmap refl

decode_fixed-tid_example :
    decode_fixed PgTypeId.tid (to_le 2 0 ++ (to_le 2 1 ++ to_le 2 7))
    ≡ ok (PgDatum.tid (block_number (record { bi_hi = 1; bi_lo = 0 })) 7)
decode_fixed-tid_example = decode_fixed-tid 0 1 7 (omega arith) (omega arith) (omega arith)
