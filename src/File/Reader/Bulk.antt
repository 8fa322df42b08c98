-- ===== src/File/Reader/Bulk.antt =====
-- src/file/reader.rs: `read_pages_bulk`.
use Prim.Native.Nat.{min}
use pg_arrow.Base.{
  ℕ, zero, suc, ◌+◌, ◌-◌, ◌*◌, ◌/◌, ◌%◌, Bytes, [], ◌++◌, Option, none, some, Result, ok, err,
  panic, ◌>>=◌, ltb, ◌==◌, if◌then◌else◌, length, take,
}
use pg_arrow.File.Error.{PgError}
use pg_arrow.Heap.Page.{page_buffer_size}
use pg_arrow.File.Reader.{
  pages_per_segment, FileSystem, TableFileReader, SegmentCache, get_page_file_and_offset,
}

-- A segment that is not cached is opened; `none` is one that does not open.
unfoldable pub open_new : FileSystem → TableFileReader → ℕ → Result PgError SegmentCache
open_new fs reader page_idx = do
  (path, offset) ← get_page_file_and_offset fs reader page_idx
  ok (if fs.open_file path then some (page_idx / pages_per_segment, path) else none)

-- The open file of the page's segment, from the cache if it is there.
unfoldable pub open_segment :
    FileSystem → TableFileReader → ℕ → SegmentCache → Result PgError SegmentCache
unfolding open_new
open_segment fs reader page_idx none = open_new fs reader page_idx
open_segment fs reader page_idx (some (cached_seg, path)) =
    if cached_seg == page_idx / pages_per_segment
    then ok (some (cached_seg, path))
    else open_new fs reader page_idx

abbrev pub Bulk : Type 0
Bulk = Option (Result PgError (Bytes × SegmentCache))

-- `(end_page - page_idx).min(pages_left_in_segment)`
unfoldable pub pages_to_read : ℕ → ℕ → ℕ
pages_to_read end_page page_idx =
    min (end_page - page_idx) (pages_per_segment - page_idx % pages_per_segment)

-- What a round does with the outcome of `pread`; `rest` are the rounds behind it.
unfoldable pub take_pages :
    (ℕ → Bytes → SegmentCache → Bulk) → ℕ → Bytes → SegmentCache → ℕ → Option Bytes → Bulk
take_pages rest page_idx buf cache read_bytes none = some (ok (buf, cache))
take_pages rest page_idx buf cache read_bytes (some bytes) =
    let pages_read = length bytes / page_buffer_size in
    let filled = buf ++ take (pages_read * page_buffer_size) bytes in
    if length bytes == 0
    then some (ok (buf, cache))
    else if ltb (length bytes) read_bytes
    then some (ok (filled, cache))
    else rest (page_idx + pages_read) filled cache

-- One round of the loop.
unfoldable pub bulk_round :
    FileSystem
    → TableFileReader
    → (ℕ → Bytes → SegmentCache → Bulk)
    → ℕ
    → ℕ
    → Bytes
    → SegmentCache
    → Bulk
unfolding open_segment pages_to_read take_pages
bulk_round fs reader rest end_page page_idx buf cache =
    let read_bytes = pages_to_read end_page page_idx * page_buffer_size in
    let offset = page_idx % pages_per_segment * page_buffer_size in
    elim (open_segment fs reader page_idx cache) [
      | ok none ↦ some (ok (buf, cache))
      | ok (some (num, path)) ↦
          take_pages rest page_idx buf (some (num, path)) read_bytes
            (fs.pread path read_bytes offset)
      | err e ↦ some (err e)
      | panic ↦ some panic
    ]

-- The loop while `page_idx < end_page`; `none` is a loop that is still running when the fuel is used
-- up.
unfoldable pub bulk_loop :
    FileSystem → TableFileReader → (end_page fuel page_idx : ℕ) → Bytes → SegmentCache → Bulk
unfolding bulk_round
bulk_loop fs reader end_page zero page_idx buf cache = none
bulk_loop fs reader end_page (suc fuel) page_idx buf cache =
    let rest = bulk_loop fs reader end_page fuel in
    if ltb page_idx end_page
    then bulk_round fs reader rest end_page page_idx buf cache
    else some (ok (buf, cache))

-- The pages, their number, and the cache that is left; a round reads a page at least or is the last,
-- so that the fuel is enough.
unfoldable pub read_pages_bulk :
    FileSystem
    → TableFileReader
    → (start_page count : ℕ) → SegmentCache
    → Option (Result PgError ((Bytes × ℕ) × SegmentCache))
read_pages_bulk fs reader start_page count cache =
    if count == 0
    then some (ok (([], 0), cache))
    else elim (bulk_loop fs reader (start_page + count) (count + 1) start_page [] cache) [
      | none ↦ none
      | some result ↦
          some (result >>= λ (buf, left). ok ((buf, length buf / page_buffer_size), left))
    ]
