-- ===== src/File/Reader/Tests.antt =====
-- The readers on a relation of one segment: one page, and three bytes of another.
use pg_arrow.Base.{
  leb, le→leb, lt→leb, if◌then◌else◌, ◌+◌, ◌≤◌, ℕ, suc, zero, ◌<◌, ◌≡◌, refl, arith, Bytes, [], ◌∷◌,
  Result, ◌++◌, none, some, Option, ok, length, take, drop, get_range, read_word, slice, from_le,
  ap, ◌∙◌,
}
use pg_arrow.Heap.Page.{
  parse_bytes, parse_header, num_line_pointers, read_line_pointers, read_line_pointer,
}
use pg_arrow.File.Error.{PgError}
use pg_arrow.Heap.Page.Tests.{empty_page}
use pg_arrow.File.Reader.{
  FileSystem, SegmentPath, first_segment, later_segment, TableFileReader, SegmentCache,
}
use pg_arrow.Heap.Page.Parse.{page_at}
use pg_arrow.Heap.Tuple.{HeapTupleData}
use pg_arrow.File.Scan.{for_each_row, into_iter}
use pg_arrow.File.Scan.Pages.{rows_of, visit_all}
use pg_arrow.File.Scan.OnDisk.{for_each_row-on_disk}
use pg_arrow.File.Reader.InOrder.{page_list, get_page_by_index-Serves}
use pg_arrow.File.Reader.Pages.{get_page_by_index, get_page_reader}
use pg_arrow.File.Scan.Pages.{Serves}
use pg_arrow.File.Reader.Content.{
  page_bytes, total_pages, Relation, segment_bytes, stat_of, exists, path_of, pages_from,
}
use pg_arrow.File.Reader.Segments.{num_pages}
use pg_arrow.File.Reader.Bulk.{read_pages_bulk}
use pg_arrow.File.Reader.Opened.{IsCache}
use pg_arrow.File.Reader.NumPages.{num_pages-total_pages}
use pg_arrow.File.Reader.BulkPages.{read_pages_bulk-pages_from}

abbrev content : Bytes
content = empty_page ++ (1 ∷ 2 ∷ 3 ∷ [])

abbrev file_of : SegmentPath → Option Bytes
file_of (first_segment table) = some content
file_of (later_segment table k) = none

abbrev pread_of : Option Bytes → ℕ → ℕ → Option Bytes
pread_of none count offset = none
pread_of (some bytes) count offset = some (take count (drop offset bytes))

abbrev exact_of : Option Bytes → ℕ → ℕ → Option Bytes × ℕ
exact_of none at count = (none, at)
exact_of (some bytes) at count =
    if leb (at + count) (length bytes)
    then (some (take count (drop at bytes)), at + count)
    else (none, at)

abbrev files : FileSystem
files = record {
  data_dir = some (47 ∷ []);
  metadata = λ path. stat_of (file_of path);
  open_file = λ path. exists (file_of path);
  pread = λ path. pread_of (file_of path);
  read_exact = λ path. exact_of (file_of path);
}

abbrev table : TableFileReader
table = record { relation_id = 16384; db_id = 5 }

abbrev segment : ℕ → Option Bytes
segment zero = some content
segment (suc k) = none

file_of-path_of : (k : ℕ) → file_of (path_of table (47 ∷ []) k) ≡ segment k
unfolding pg_arrow.File.Reader.segment_path
file_of-path_of zero = refl
file_of-path_of (suc k) = ground arith

preads :
    (k : ℕ) (bytes : Bytes) (count offset : ℕ)
    → segment k ≡ some bytes
    → pread_of (file_of (path_of table (47 ∷ []) k)) count offset
      ≡ some (take count (drop offset bytes))
preads k bytes count offset h = rw (file_of-path_of k, h) refl

last : (bytes : Bytes) → segment 0 ≡ some bytes → length bytes < segment_bytes
last bytes h = let e : content ≡ bytes = cc in rw (← e) (omega arith)

more : (k : ℕ) → 0 < k → segment k ≡ none
more zero h = absurd (omega arith)
more (suc k) h = refl

exact_in :
    (k : ℕ) (bytes : Bytes) (at count : ℕ)
    → segment k ≡ some bytes
    → at + count ≤ length bytes
    → exact_of (file_of (path_of table (47 ∷ []) k)) at count
      ≡ (some (take count (drop at bytes)), at + count)
exact_in k bytes at count h p =
    rw (file_of-path_of k, h) (rw (le→leb (at + count) (length bytes) p) refl)

exact_out :
    (k : ℕ) (bytes : Bytes) (at count : ℕ)
    → segment k ≡ some bytes
    → length bytes < at + count
    → (end : ℕ) × (exact_of (file_of (path_of table (47 ∷ []) k)) at count ≡ (none, end))
exact_out k bytes at count h p =
    (at, (rw (file_of-path_of k, h) (rw (lt→leb (at + count) (length bytes) p) refl)))

abbrev relation : Relation files table
relation = record {
  dir = 47 ∷ [];
  segment = segment;
  full = 0;
  dir_lem = refl;
  stats = λ k. rw (file_of-path_of k) refl;
  opens = λ k. rw (file_of-path_of k) refl;
  preads = preads;
  exact_in = exact_in;
  exact_out = exact_out;
  full_segments = λ k h. absurd (omega arith);
  last_segment = last;
  no_more = more;
}

num_pages-total_pages_example : num_pages files table 1 ≡ some (ok 1)
num_pages-total_pages_example = num_pages-total_pages files table relation 1 (omega arith)

read_pages_bulk-pages_from_example :
    (left : SegmentCache) × IsCache relation left
    × (read_pages_bulk files table 0 4 none ≡ some (ok ((pages_from relation 0 1, 1), left)))
read_pages_bulk-pages_from_example = read_pages_bulk-pages_from files table relation 0 4 none tt

empty_page_parses : parse_bytes empty_page ≡ ok (page_at empty_page)
unfolding parse_bytes parse_header num_line_pointers read_line_pointers read_line_pointer read_word
    slice get_range from_le
empty_page_parses = refl

first_page : page_bytes relation 0 ≡ empty_page
unfolding page_bytes
first_page = refl

parses :
    (q : ℕ)
    → q < total_pages relation
    → parse_bytes (page_bytes relation q) ≡ ok (page_at empty_page)
parses zero h = ap parse_bytes first_page ∙ empty_page_parses
parses (suc q) h = absurd (omega arith)

get_page_by_index-Serves_example :
    Serves
      (get_page_by_index files)
      (get_page_reader table)
      0
      (page_list relation (λ q. page_at empty_page) 0 (total_pages relation))
get_page_by_index-Serves_example =
    get_page_by_index-Serves files table relation (λ q. page_at empty_page) content refl parses

abbrev count : ℕ → HeapTupleData → Result PgError ℕ
count n row = ok (n + 1)

for_each_row-on_disk_example :
    for_each_row (get_page_by_index files) count 2 (into_iter (get_page_reader table)) 0
    ≡ some (
        visit_all count 0
          (rows_of (page_list relation (λ q. page_at empty_page) 0 (total_pages relation))))
unfolding from_le
for_each_row-on_disk_example =
    for_each_row-on_disk files table relation count (λ q. page_at empty_page) content 2 0 refl
      parses (omega arith) (omega arith)
