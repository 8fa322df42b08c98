-- ===== src/File/Scan/OnDisk.antt =====
-- The loop over the rows of a relation that is on disk.
use mathlib.Core.Path.{subst}
use pg_arrow.Base.{
  ℕ, zero, suc, ◌+◌, ◌-◌, ◌^◌, ◌≤◌, ◌<◌, ◌≡◌, refl, ◌*◌, ◌/◌, ◌%◌, ap, sym, arith, Bytes, All, some,
  Result, ok, length, length-take, drop,
}
use pg_arrow.File.Error.{PgError}
use pg_arrow.Heap.Tuple.{HeapTupleData}
use pg_arrow.Heap.Page.{HeapPageData, page_buffer_size, parse_bytes}
use pg_arrow.Heap.Page.Parse.{Accounts, length-slots, announced, parse_bytes-Accounts}
use pg_arrow.File.Reader.{FileSystem, TableFileReader, pages_per_segment}
use pg_arrow.File.Reader.Content.{Relation, contents, total_pages, page_bytes}
use pg_arrow.File.Reader.Pages.{get_page_reader, get_page_by_index}
use pg_arrow.File.Reader.InOrder.{page_list, get_page_by_index-Serves}
use pg_arrow.File.Scan.{into_iter, for_each_row}
use pg_arrow.File.Scan.Pages.{IsPage, rows_of, rounds, visit_all}
use pg_arrow.File.Scan.Visits.{for_each_row-rows_of}

-- A page of 8192 bytes at most that is parsed.
parse_bytes-IsPage :
    (bytes : Bytes) (page : HeapPageData)
    → length bytes ≤ page_buffer_size
    → parse_bytes bytes ≡ ok page
    → IsPage page
parse_bytes-IsPage bytes page small parsed =
    let (full, inside, same) : Accounts bytes (ok page) =
      subst (Accounts bytes) parsed (parse_bytes-Accounts bytes) in
    subst IsPage (sym same) (length-slots bytes 0 (announced bytes), omega arith)

module _ {fs : FileSystem} {reader : TableFileReader} (r : Relation fs reader) where
  length-page_bytes : (p : ℕ) → length (page_bytes r p) ≤ page_buffer_size
  unfolding page_bytes
  length-page_bytes p =
      let start = p % pages_per_segment * page_buffer_size in
      omega (
        arith,
        length-take (start + page_buffer_size - start)
            (drop start (contents r (p / pages_per_segment))),
      )

  page_list-IsPage :
      (page : ℕ → HeapPageData) (n p : ℕ)
      → ((q : ℕ) → q < total_pages r → parse_bytes (page_bytes r q) ≡ ok (page q))
      → p + n ≤ total_pages r
      → All IsPage (page_list r page p n)
  page_list-IsPage page zero p parses h = tt
  page_list-IsPage page (suc n) p parses h = (
    parse_bytes-IsPage (page_bytes r p) (page p) (length-page_bytes p) (parses p (omega arith)),
    page_list-IsPage page n (suc p) parses (omega arith),
  )

  length-page_list : (page : ℕ → HeapPageData) (n p : ℕ) → length (page_list r page p n) ≡ n
  length-page_list page zero p = refl
  length-page_list page (suc n) p = ap suc (length-page_list page n (suc p))

-- The loop over the rows of a relation, on its files, regular and laid out as the server does, with a
-- first segment, with pages that parse and are 2 ^ 32 at most: it ends within a round for each slot,
-- for each page without slots and one more, and its body is run on the tuple of every slot of every
-- page of the files that has one, each once and in their order, up to the body's first error.
pub for_each_row-on_disk :
    {A : Type 0} (fs : FileSystem) (reader : TableFileReader) (r : Relation fs reader)
    (visit : A → HeapTupleData → Result PgError A) (page : ℕ → HeapPageData) (content : Bytes)
    (fuel : ℕ) (a : A)
    → r.segment 0 ≡ some content
    → ((q : ℕ) → q < total_pages r → parse_bytes (page_bytes r q) ≡ ok (page q))
    → total_pages r ≤ 2 ^ 32
    → rounds (page_list r page 0 (total_pages r)) < fuel
    → for_each_row (get_page_by_index fs) visit fuel (into_iter (get_page_reader reader)) a
      ≡ some (visit_all visit a (rows_of (page_list r page 0 (total_pages r))))
for_each_row-on_disk fs reader r visit page content fuel a first parses small enough =
    for_each_row-rows_of (get_page_by_index fs) visit (get_page_reader reader) _ fuel a
      (get_page_by_index-Serves fs reader r page content first parses)
      (page_list-IsPage r page (total_pages r) 0 parses (omega arith))
      (omega (arith, length-page_list r page (total_pages r) 0)) enough
