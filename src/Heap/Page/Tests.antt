-- ===== src/Heap/Page/Tests.antt =====
-- The theorems on pages at a page with one line pointer.
use pg_arrow.Base.{refl, ok, to_le, ◌≡◌, arith, Bytes, [], ◌∷◌, ◌++◌, replicate}
use pg_arrow.Types.Defs.{PgTypeId}
use pg_arrow.Types.TypeId.{align}
use pg_arrow.Heap.Tuple.RoundTrip.{encode_tuple}
use pg_arrow.Heap.Tuple.Tests.{raw_tuple, header, stored_bytes, header-IsHeader, nulls-IsBitmap}
use pg_arrow.Heap.Page.RoundTrip.{get_row_data-encode_tuple}
use pg_arrow.Heap.Page.Align.{IsAligned, align_to-align}
use pg_arrow.Heap.Page.LinePointers.{pack}
use pg_arrow.Heap.Page.Parse.{header_at, parse_bytes-Accounts}
use pg_arrow.Heap.Page.Rows.{Accounts, get_row_data-Accounts}
use pg_arrow.Heap.Page.{
  HeapPageData, lp_off, lp_flags, lp_len, page_size, page_version, parse_bytes, get_row_data,
  align_to,
}

-- `pd_lower` is 28, the page size 8192 and the layout version 4.
abbrev pub page_header : Bytes
page_header =
    0 ∷ 0 ∷ 0 ∷ 0 ∷ 0 ∷ 0 ∷ 0 ∷ 0 ∷ 0 ∷ 0 ∷ 0 ∷ 0 ∷ 28 ∷ 0 ∷ 225 ∷ 31 ∷ 0 ∷ 32 ∷ 4 ∷ 32 ∷ 0 ∷ 0 ∷ 0
    ∷ 0 ∷ []

abbrev pub empty_page : Bytes
empty_page = page_header ++ replicate 8168 0

-- The page of one slot whose bytes are those of one tuple only.
abbrev pub one_row : HeapPageData
one_row = record {
  header = header_at page_header;
  lp_num = 1;
  lp_items = pack 0 1 31 ∷ [];
  page_data = raw_tuple;
}

get_row_data-Accounts_example : Accounts one_row 0 (get_row_data one_row 0)
get_row_data-Accounts_example = get_row_data-Accounts one_row 0

parse_bytes-Accounts_example : pg_arrow.Heap.Page.Parse.Accounts empty_page (parse_bytes empty_page)
parse_bytes-Accounts_example = parse_bytes-Accounts empty_page

align_to-align_example : IsAligned 5 (align PgTypeId.int8) (align_to 5 (align PgTypeId.int8))
align_to-align_example = align_to-align PgTypeId.int8 5 (omega arith)

-- The page of one slot with the tuple behind two bytes.
abbrev stored_row : HeapPageData
stored_row = record {
  header = header_at page_header;
  lp_num = 1;
  lp_items = pack 2 1 31 ∷ [];
  page_data = (0 ∷ 0 ∷ []) ++ (encode_tuple header (5 ∷ []) [] stored_bytes ++ (1 ∷ []));
}

get_row_data-encode_tuple_example :
    get_row_data stored_row 0
    ≡ ok (record { header = header; null_bitmap = 5 ∷ []; bytes = stored_bytes })
get_row_data-encode_tuple_example =
    get_row_data-encode_tuple stored_row 0 (0 ∷ 0 ∷ []) (1 ∷ []) header (5 ∷ []) [] stored_bytes
      refl (unfold to_le in refl) (omega arith) (unfold to_le in omega arith) header-IsHeader
      nulls-IsBitmap refl
