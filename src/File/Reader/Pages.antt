-- ===== src/File/Reader/Pages.antt =====
-- src/file/reader.rs: `PageReader`.
use pg_arrow.Base.{
  ℕ, ◌*◌, ◌/◌, Bytes, Option, none, some, Result, ok, err, panic, ◌>>=◌, if◌then◌else◌,
}
use pg_arrow.File.Error.{PgError, generic}
use pg_arrow.Heap.Page.{HeapPageData, page_buffer_size, parse_bytes}
use pg_arrow.File.Reader.{SegmentPath, FileSystem, TableFileReader, get_page_file_and_offset}

-- The `BufReader` of `reader_instance`: its file and position.
abbrev pub Handle : Type 0
Handle = SegmentPath × ℕ

pub record PageReader : Type 0 where
  pub segment_chunk_reader : TableFileReader
  pub reader_instance : Option Handle

unfoldable pub get_page_reader : TableFileReader → PageReader
get_page_reader reader = record { segment_chunk_reader = reader; reader_instance = none }

-- `open` and `seek`, which goes anywhere.
unfoldable pub get_reader : FileSystem → TableFileReader → ℕ → Result PgError Handle
get_reader fs reader at = do
  (path, offset) ← get_page_file_and_offset fs reader (at / page_buffer_size)
  if fs.open_file path then ok (path, offset) else err generic

-- A page, and the reader that is left.
abbrev pub PageRead : Type 0
PageRead = Result PgError HeapPageData × PageReader

unfoldable pub with_handle : PageReader → Handle → PageReader
with_handle reader handle = record {
  segment_chunk_reader = reader.segment_chunk_reader;
  reader_instance = some handle;
}

-- The buffer that the second try has filled, or its error.
unfoldable pub finish_read : PageReader → SegmentPath → Option Bytes × ℕ → PageRead
finish_read reader path (none, at) = (err generic, with_handle reader (path, at))
finish_read reader path (some page, at) = (parse_bytes page, with_handle reader (path, at))

-- The second try, in the segment of the page.
unfoldable pub read_again : FileSystem → PageReader → Result PgError Handle → PageRead
unfolding finish_read
read_again fs reader (ok (path, at)) =
    finish_read reader path (fs.read_exact path at page_buffer_size)
read_again fs reader (err e) = (err generic, reader)
read_again fs reader panic = (panic, reader)

-- The first try's outcome: an error is the end of a segment, or of the relation.
unfoldable pub after_read : FileSystem → PageReader → ℕ → SegmentPath → Option Bytes × ℕ → PageRead
unfolding with_handle read_again
after_read fs reader page_index path (some page, at) =
    (parse_bytes page, with_handle reader (path, at))
after_read fs reader page_index path (none, at) =
    read_again fs (with_handle reader (path, at))
      (get_reader fs reader.segment_chunk_reader (page_index * page_buffer_size))

unfoldable pub read_page : FileSystem → PageReader → ℕ → Handle → PageRead
read_page fs reader page_index (path, at) =
    after_read fs reader page_index path (fs.read_exact path at page_buffer_size)

-- The first call opens the segment of its page; a later one reads on where the last one stopped.
unfoldable pub get_page_by_index : FileSystem → PageReader → ℕ → PageRead
unfolding read_page after_read
get_page_by_index fs reader page_index = elim reader.reader_instance [
  | some handle ↦ read_page fs reader page_index handle
  | none ↦ elim (get_reader fs reader.segment_chunk_reader (page_index * page_buffer_size)) [
    | ok handle ↦ read_page fs reader page_index handle
    | err e ↦ (panic, reader)
    | panic ↦ (panic, reader)
  ]
]
