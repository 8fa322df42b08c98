-- ===== src/Heap/Page.antt =====
-- src/heap/page.rs: line pointers, the page header, `parse_bytes` and `get_row_data`; and `align_to`
-- of src/heap/tuple.rs.
pub mod LinePointers
pub mod Align
pub mod Parse
pub mod Rows
pub mod RoundTrip
pub mod Tests
use pg_arrow.Base.{
  ℕ, zero, suc, ◌+◌, ◌-◌, ◌*◌, ◌/◌, ◌%◌, ◌^◌, Bytes, List, [], ◌∷◌, Result, ok, err, ◌>>=◌, ltb,
  ◌==◌, if◌then◌else◌, length, get_elem?, get_range, ok_or, read_word, bit_and, bit_or,
}
use pg_arrow.File.Error.{PgError, generic, page_buffer_too_short, dead_tuple_line_pointer}
use pg_arrow.Heap.Tuple.{HeapTupleData, parse_and_build}

abbrev pub page_buffer_size : ℕ
page_buffer_size = 8 * 1024

-- `ItemIdData` is the word itself.
unfoldable pub lp_off : ℕ → ℕ
lp_off w = bit_and w 0x7fff % 2 ^ 16

unfoldable pub lp_flags : ℕ → ℕ
lp_flags w = bit_and (w / 2 ^ 15) 0x03 % 2 ^ 8

unfoldable pub lp_len : ℕ → ℕ
lp_len w = bit_and (w / 2 ^ 17) 0x7fff % 2 ^ 16

abbrev pub lp_unused : ℕ
lp_unused = 0

abbrev pub lp_normal : ℕ
lp_normal = 1

abbrev pub lp_redirect : ℕ
lp_redirect = 2

abbrev pub lp_dead : ℕ
lp_dead = 3

pub record PageXLogRecPtr : Type 0 where
  pub xlogid : ℕ
  pub xrecoff : ℕ

pub record PageHeaderData : Type 0 where
  pub pd_lsn : PageXLogRecPtr
  pub pd_checksum : ℕ
  pub pd_flags : ℕ
  pub pd_lower : ℕ
  pub pd_upper : ℕ
  pub pd_special : ℕ
  pub pd_pagesize_version : ℕ
  pub pd_prune_xid : ℕ

unfoldable pub page_size : PageHeaderData → ℕ
page_size h = bit_and h.pd_pagesize_version 0xff00

unfoldable pub page_version : PageHeaderData → ℕ
page_version h = bit_and h.pd_pagesize_version 0x00ff

-- `saturating_sub(24) / 4`
unfoldable pub num_line_pointers : PageHeaderData → ℕ
num_line_pointers h = (h.pd_lower - 24) / 4

-- The fields, from a buffer of 24 bytes at least.
read_page_header : Bytes → Result PgError PageHeaderData
read_page_header page = do
  xlogid ← read_word 4 page 0
  xrecoff ← read_word 4 page 4
  pd_checksum ← read_word 2 page 8
  pd_flags ← read_word 2 page 10
  pd_lower ← read_word 2 page 12
  pd_upper ← read_word 2 page 14
  pd_special ← read_word 2 page 16
  raw_pagesize ← read_word 2 page 18
  raw_version ← read_word 2 page 18
  pd_prune_xid ← read_word 4 page 20
  ok (record {
    pd_lsn = record { xlogid = xlogid; xrecoff = xrecoff };
    pd_checksum = pd_checksum;
    pd_flags = pd_flags;
    pd_lower = pd_lower;
    pd_upper = pd_upper;
    pd_special = pd_special;
    pd_pagesize_version = bit_or (bit_and raw_pagesize 0xff00) (bit_and raw_version 0x00ff);
    pd_prune_xid = pd_prune_xid;
  })

-- `PageHeaderData::parse`
unfoldable pub parse_header : Bytes → Result PgError PageHeaderData
unfolding read_page_header
parse_header page =
    if ltb (length page) 24
    then err (page_buffer_too_short (length page) 24)
    else read_page_header page

-- It panics where the four bytes are not all in the page.
unfoldable pub read_line_pointer : Bytes → ℕ → Result PgError ℕ
read_line_pointer page i = read_word 4 page (24 + i * 4)

pub record HeapPageData : Type 0 where
  pub header : PageHeaderData
  pub lp_num : ℕ
  pub lp_items : List ℕ
  pub page_data : Bytes

-- The loop of `parse_bytes`: the line pointers from `i` on, `n` of them.
unfoldable pub read_line_pointers : Bytes → ℕ → ℕ → Result PgError (List ℕ)
read_line_pointers page i zero = ok []
read_line_pointers page i (suc n) = do
  item ← read_line_pointer page i
  items ← read_line_pointers page (i + 1) n
  ok (item ∷ items)

parse_page : Bytes → Result PgError HeapPageData
parse_page page = do
  header ← parse_header page
  lp_items ← read_line_pointers page 0 (num_line_pointers header)
  ok (record {
    header = header;
    lp_num = num_line_pointers header;
    lp_items = lp_items;
    page_data = page;
  })

unfoldable pub parse_bytes : Bytes → Result PgError HeapPageData
unfolding parse_page
parse_bytes page =
    if ltb (length page) page_buffer_size
    then err (page_buffer_too_short (length page) page_buffer_size)
    else parse_page page

-- The tuple of a line pointer in state `LP_NORMAL`; `checked_add` of two 15-bit words cannot fail.
row_at : Bytes → ℕ → Result PgError HeapTupleData
row_at page lp = do
  raw ← ok_or (get_range page (lp_off lp) (lp_off lp + lp_len lp)) generic
  parse_and_build raw

unfoldable pub get_row_data : HeapPageData → ℕ → Result PgError HeapTupleData
unfolding row_at
get_row_data page ip_posid = do
  lp ← ok_or (get_elem? page.lp_items ip_posid) generic
  if lp_flags lp == lp_dead
      then err (dead_tuple_line_pointer ip_posid)
      else if lp_flags lp == lp_unused
      then err (dead_tuple_line_pointer ip_posid)
      else if lp_flags lp == lp_redirect
      then err (dead_tuple_line_pointer ip_posid)
      else row_at page.page_data lp

-- `(offset + align - 1) & !(align - 1)` on 64-bit words.
unfoldable pub align_to : ℕ → ℕ → ℕ
align_to offset align = bit_and ((offset + align - 1) % 2 ^ 64) (2 ^ 64 - 1 - (align - 1))
