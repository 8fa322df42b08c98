-- ===== src/File/Reader.antt =====
-- src/file/reader.rs: `TableFileReader` and `PageReader`. The operating system is the record
-- `FileSystem`: an open file is named by its path, and a sequential reader is its path and position.
pub mod Segments
pub mod Content
pub mod NumPages
pub mod Opened
pub mod Totals
pub mod BulkPages
pub mod Bulk
pub mod Pages
pub mod Places
pub mod Gives
pub mod InOrder
mod Tests
use pg_arrow.Base.{
  ℕ, ◌*◌, ◌/◌, ◌%◌, Bool, Bytes, Option, Result, ok, ◌>>=◌, ◌==◌, if◌then◌else◌, unwrap,
}
use pg_arrow.File.Error.{PgError}
use pg_arrow.Heap.Page.{page_buffer_size}

abbrev pub pages_per_segment : ℕ
pages_per_segment = (1024 * 1024 * 1024) / page_buffer_size

-- `{data_dir}/global/{relation}` and `{data_dir}/base/{db}/{relation}`
pub data TablePath : Type 0 where
  global_file : (data_dir : Bytes) (relation_id : ℕ) → TablePath
  base_file : (data_dir : Bytes) (db_id relation_id : ℕ) → TablePath

-- `{table_file}` and `{table_file}.{segment_num}`
pub data SegmentPath : Type 0 where
  first_segment : TablePath → SegmentPath
  later_segment : (table_file : TablePath) (segment_num : ℕ) → SegmentPath

-- The outcomes of `std::fs::metadata`.
pub data Stat : Type 0 where
  file_size : ℕ → Stat
  not_found : Stat
  stat_failed : Stat

-- What the code asks of the operating system; a file that fails to open is `false`, a `pread` that
-- returns a negative number is `none`, and `read_exact` gives the bytes, or `none` for an error, and
-- the position behind.
pub record FileSystem : Type 0 where
  pub data_dir : Option Bytes
  pub metadata : SegmentPath → Stat
  pub open_file : SegmentPath → Bool
  pub pread : SegmentPath → (count offset : ℕ) → Option Bytes
  pub read_exact : SegmentPath → (position count : ℕ) → Option Bytes × ℕ

-- The cached segment is apart: it is the `cache` of the operations.
pub record TableFileReader : Type 0 where
  pub relation_id : ℕ
  pub db_id : ℕ

-- `segment_cache`: the number of a segment and its open file.
abbrev pub SegmentCache : Type 0
SegmentCache = Option (ℕ × SegmentPath)

unfoldable pub table_file : TableFileReader → Bytes → TablePath
table_file reader data_dir =
    if reader.db_id == 0
    then global_file data_dir reader.relation_id
    else base_file data_dir reader.db_id reader.relation_id

unfoldable pub segment_path : TablePath → ℕ → SegmentPath
segment_path file segment_num =
    if segment_num == 0 then first_segment file else later_segment file segment_num

unfoldable pub get_page_file_and_offset :
    FileSystem → TableFileReader → ℕ → Result PgError (SegmentPath × ℕ)
unfolding table_file segment_path
get_page_file_and_offset fs reader page_index = do
  data_dir ← unwrap fs.data_dir
  ok (
    segment_path (table_file reader data_dir) (page_index / pages_per_segment),
    page_index % pages_per_segment * page_buffer_size,
  )
