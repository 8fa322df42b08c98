-- ===== src/Heap/Page/RoundTrip.antt =====
-- A tuple stored in a page is found by its slot.
use pg_arrow.Base.{
  ℕ, ◌+◌, ◌^◌, ◌≤◌, ◌<◌, ◌≡◌, refl, arith, ap, ◌∙◌, Bytes, ◌++◌, some, ok, length, length-append,
  get_elem?, get_range, get_range-in, sub_list-append,
}
use pg_arrow.Heap.Tuple.RoundTrip.{IsHeader, IsBitmap, encode_tuple, parse_and_build-encode_tuple}
use pg_arrow.Heap.Tuple.{HeapTupleHeaderData}
use pg_arrow.Heap.Page.LinePointers.{pack, fields-pack}
use pg_arrow.Heap.Page.{HeapPageData, lp_normal, row_at, get_row_data}

stored :
    (front tuple rest : Bytes)
    → get_range (front ++ (tuple ++ rest)) (length front) (length front + length tuple) ≡ some tuple
stored front tuple rest =
    let page = front ++ (tuple ++ rest) in
    let inside : length front + length tuple ≤ length page =
      omega (arith, length-append front (tuple ++ rest), length-append tuple rest) in
    get_range-in page (length front) (length front + length tuple) (omega arith) inside
    ∙ ap some (sub_list-append front tuple rest refl)

-- A tuple that stands in a page behind any bytes is read back by a normal line pointer in any slot with
-- its offset and length, where both are in 15 bits, the fields of the header in the range of their
-- words, the null bitmap with a bit for every attribute in as few bytes as they
-- need, or left out with `HasNull` not set, and the data at `t_hoff`.
pub get_row_data-encode_tuple :
    (page : HeapPageData) (i : ℕ) (front rest : Bytes) (h : HeapTupleHeaderData)
    (bitmap padding bytes : Bytes)
    → page.page_data ≡ front ++ (encode_tuple h bitmap padding bytes ++ rest)
    → get_elem? page.lp_items i
      ≡ some (pack (length front) lp_normal (length (encode_tuple h bitmap padding bytes)))
    → length front < 2 ^ 15
    → length (encode_tuple h bitmap padding bytes) < 2 ^ 15
    → IsHeader h
    → IsBitmap h bitmap
    → h.t_hoff ≡ 23 + length bitmap + length padding
    → get_row_data page i ≡ ok (record { header = h; null_bitmap = bitmap; bytes = bytes })
unfolding get_row_data row_at
get_row_data-encode_tuple page i front rest h bitmap padding bytes there slot low short fits
      map_fits hoff =
    let tuple = encode_tuple h bitmap padding bytes in
    let (off, flags, len) =
      fields-pack (length front) lp_normal (length tuple) low (omega arith) short in
    rw
      (
        slot,
        flags,
        off,
        len,
        there,
        stored front tuple rest,
        parse_and_build-encode_tuple h bitmap padding bytes fits map_fits hoff,
      )
      refl
