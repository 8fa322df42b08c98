-- ===== src/Heap/Tuple.antt =====
-- src/heap/tuple.rs: block numbers, tuple headers, `parse_and_build` and the null bitmap.
pub mod Masks
pub mod Build
pub mod RoundTrip
pub mod Tid
pub mod Tests
use pg_arrow.Base.{
  ℕ, ◌+◌, ◌-◌, ◌*◌, ◌/◌, ◌%◌, ◌^◌, Bool, true, false, not, ◌||◌, Bytes, List, [], Option, none,
  some, Result, ok, err, ◌>>=◌, ltb, ◌==◌, if◌then◌else◌, length, drop, get_elem?, slice, read_word,
  bit_and, bit_or,
}
use pg_arrow.Types.Datum.{index}
use pg_arrow.File.Error.{PgError, tuple_buffer_too_short, invalid_tuple_hoff, null_bitmap_overflow}

pub record BlockIdData : Type 0 where
  pub bi_hi : ℕ
  pub bi_lo : ℕ

-- `From<u32> for BlockIdData`
unfoldable pub from_u32 : ℕ → BlockIdData
from_u32 n = record { bi_hi = n / 2 ^ 16 % 2 ^ 16; bi_lo = n % 2 ^ 16 }

-- `From<BlockIdData> for u32`
unfoldable pub block_number : BlockIdData → ℕ
block_number b = bit_or (b.bi_hi * 2 ^ 16 % 2 ^ 32) b.bi_lo

pub record ItemPointerData : Type 0 where
  pub ip_blkid : BlockIdData
  pub ip_posid : ℕ

pub record HeapTupleHeaderData : Type 0 where
  pub t_xmin : ℕ
  pub t_xmax : ℕ
  pub t_field3 : ℕ
  pub t_ctid : ItemPointerData
  pub t_infomask2 : ℕ
  pub t_infomask : ℕ
  pub t_hoff : ℕ

pub data InfoMask : Type 0 where
  has_null has_var_width has_external has_oid_old : InfoMask
  xmax_keyshr_lock combo_cid xmax_excl_lock xmax_lock_only : InfoMask
  xmin_committed xmin_invalid xmax_committed xmax_invalid : InfoMask
  xmax_is_multi updated moved_off moved_in : InfoMask

-- `m as u16`: the discriminant.
unfoldable pub mask_value : InfoMask → ℕ
mask_value InfoMask.has_null = 0x0001
mask_value InfoMask.has_var_width = 0x0002
mask_value InfoMask.has_external = 0x0004
mask_value InfoMask.has_oid_old = 0x0008
mask_value InfoMask.xmax_keyshr_lock = 0x0010
mask_value InfoMask.combo_cid = 0x0020
mask_value InfoMask.xmax_excl_lock = 0x0040
mask_value InfoMask.xmax_lock_only = 0x0080
mask_value InfoMask.xmin_committed = 0x0100
mask_value InfoMask.xmin_invalid = 0x0200
mask_value InfoMask.xmax_committed = 0x0400
mask_value InfoMask.xmax_invalid = 0x0800
mask_value InfoMask.xmax_is_multi = 0x1000
mask_value InfoMask.updated = 0x2000
mask_value InfoMask.moved_off = 0x4000
mask_value InfoMask.moved_in = 0x8000

-- `self.t_infomask & flag != 0`
unfoldable pub has_flag : HeapTupleHeaderData → ℕ → Bool
has_flag h flag = not (bit_and h.t_infomask flag == 0)

-- The field `data` of the source is `bytes` here.
pub record HeapTupleData : Type 0 where
  pub header : HeapTupleHeaderData
  pub null_bitmap : Bytes
  pub bytes : Bytes

abbrev pub header_size : ℕ
header_size = 23

abbrev pub natts_mask : ℕ
natts_mask = 0x07ff

-- `natts.div_ceil(8)` for the attribute count in `t_infomask2`.
unfoldable pub bitmap_bytes : HeapTupleHeaderData → ℕ
bitmap_bytes h = (bit_and h.t_infomask2 natts_mask + 7) / 8

-- The fixed fields of a tuple header, from a buffer that is long enough.
unfoldable pub read_header : Bytes → Result PgError HeapTupleHeaderData
read_header raw = do
  t_xmin ← read_word 4 raw 0
  t_xmax ← read_word 4 raw 4
  t_field3 ← read_word 4 raw 8
  bi_hi ← read_word 2 raw 12
  bi_lo ← read_word 2 raw 14
  ip_posid ← read_word 2 raw 16
  t_infomask2 ← read_word 2 raw 18
  t_infomask ← read_word 2 raw 20
  t_hoff ← index raw 22
  ok (record {
    t_xmin = t_xmin;
    t_xmax = t_xmax;
    t_field3 = t_field3;
    t_ctid = record { ip_blkid = record { bi_hi = bi_hi; bi_lo = bi_lo }; ip_posid = ip_posid };
    t_infomask2 = t_infomask2;
    t_infomask = t_infomask;
    t_hoff = t_hoff;
  })

-- The null bitmap of a tuple whose header is read.
unfoldable pub read_null_bitmap : Bytes → HeapTupleHeaderData → Result PgError Bytes
read_null_bitmap raw header =
    if has_flag header (mask_value InfoMask.has_null)
    then if ltb header.t_hoff (header_size + bitmap_bytes header)
      then err (null_bitmap_overflow (header_size + bitmap_bytes header) header.t_hoff)
      else slice raw header_size (header_size + bitmap_bytes header)
    else ok []

-- What follows the check of the offset to the data.
finish_tuple : Bytes → HeapTupleHeaderData → Result PgError HeapTupleData
finish_tuple raw header = do
  null_bitmap ← read_null_bitmap raw header
  bytes ← slice raw header.t_hoff (length raw)
  ok (record { header = header; null_bitmap = null_bitmap; bytes = bytes })

checked_tuple : Bytes → Result PgError HeapTupleData
checked_tuple raw = do
  header ← read_header raw
  if ltb header.t_hoff header_size || ltb (length raw) header.t_hoff
      then err (invalid_tuple_hoff header.t_hoff header_size (length raw))
      else finish_tuple raw header

unfoldable pub parse_and_build : Bytes → Result PgError HeapTupleData
unfolding finish_tuple checked_tuple
parse_and_build raw =
    if ltb (length raw) header_size
    then err (tuple_buffer_too_short (length raw) header_size)
    else checked_tuple raw

-- `b & (1u8 << (col_index % 8)) == 0` on the bitmap's byte, and false past its end.
unfoldable pub bit_clear : Bytes → ℕ → Bool
bit_clear bitmap col_index = elim (get_elem? bitmap (col_index / 8)) [
  | none ↦ false
  | some b ↦ bit_and b (2 ^ (col_index % 8)) == 0
]

unfoldable pub is_null : HeapTupleData → ℕ → Bool
is_null t col_index = bit_clear t.null_bitmap col_index
