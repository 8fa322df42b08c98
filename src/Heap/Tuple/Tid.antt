-- ===== src/Heap/Tuple/Tid.antt =====
-- src/types/codec.rs: a column of type `tid`, beside the block numbers of src/heap/tuple.rs.
use pg_arrow.Base.{
  ℕ, ◌*◌, ◌%◌, ◌^◌, ◌<◌, ◌≡◌, refl, arith, sym, ◌++◌, ok, to_le, from_le, from_le-to_le, read_word,
  slice, get_range,
}
use pg_arrow.Base.Bits.{bit_or-add}
use pg_arrow.Types.Defs.{PgTypeId}
use pg_arrow.Types.Datum.{PgDatum}
use pg_arrow.Types.Fixed.{check_len, decode_fixed}
use pg_arrow.Heap.Tuple.{block_number}

swapped_word :
    (hi lo : ℕ)
    → hi < 2 ^ 16
    → lo < 2 ^ 16
    → from_le (to_le 2 hi ++ to_le 2 lo) ≡ block_number (record { bi_hi = lo; bi_lo = hi })
unfolding from_le to_le block_number
swapped_word hi lo hh hl =
    let exact : lo * 2 ^ 16 % 2 ^ 32 ≡ lo * 2 ^ 16 = omega arith in
    rw exact (omega (arith, bit_or-add 16 lo hi hh))

-- A `tid` column that holds the block number in two halves, the high one first, is decoded to the
-- block number whose halves are swapped.
pub decode_fixed-tid :
    (hi lo offset : ℕ)
    → hi < 2 ^ 16
    → lo < 2 ^ 16
    → offset < 2 ^ 16
    → decode_fixed PgTypeId.tid (to_le 2 hi ++ (to_le 2 lo ++ to_le 2 offset))
      ≡ ok (PgDatum.tid (block_number (record { bi_hi = lo; bi_lo = hi })) offset)
unfolding decode_fixed check_len read_word slice get_range from_le to_le
decode_fixed-tid hi lo offset hh hl ho =
    rw (sym (swapped_word hi lo hh hl), from_le-to_le 2 offset ho) refl
