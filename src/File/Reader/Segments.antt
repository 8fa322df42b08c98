-- ===== src/File/Reader/Segments.antt =====
-- src/file/reader.rs: `segment_sizes` and `num_pages`.
use pg_arrow.Base.{
  ℕ, zero, suc, ◌+◌, ◌*◌, ◌/◌, List, [], ◌∷◌, Option, none, some, Result, ok, err, panic, ◌>>=◌,
  ltb, if◌then◌else◌,
}
use pg_arrow.File.Error.{PgError, generic}
use pg_arrow.Heap.Page.{page_buffer_size}
use pg_arrow.File.Reader.{
  pages_per_segment, SegmentPath, FileSystem, Stat, file_size, not_found, stat_failed,
  TableFileReader, get_page_file_and_offset,
}

pub record SegmentSize : Type 0 where
  pub path : SegmentPath
  pub bytes : ℕ
  pub pages : ℕ

-- `out.push(segment)`, in front of what the rest of the walk pushes.
unfoldable pub push_segment :
    SegmentSize
    → Option (Result PgError (List SegmentSize))
    → Option (Result PgError (List SegmentSize))
push_segment size none = none
push_segment size (some rest) = some (rest >>= λ sizes. ok (size ∷ sizes))

-- One segment, by the outcome of `metadata`; `rest` is the walk behind it, for a full one.
unfoldable pub segment_size_step :
    Option (Result PgError (List SegmentSize))
    → SegmentPath
    → Stat
    → Option (Result PgError (List SegmentSize))
unfolding push_segment
segment_size_step rest path not_found = some (ok [])
segment_size_step rest path stat_failed = some (err generic)
segment_size_step rest path (file_size bytes) =
    let size : SegmentSize = record {
      path = path;
      bytes = bytes;
      pages = bytes / page_buffer_size;
    } in
    if ltb (bytes / page_buffer_size) pages_per_segment
    then some (ok (size ∷ []))
    else push_segment size rest

-- The loop of `segment_sizes` from segment `segno` on; `none` is a loop that is still running when the
-- fuel is used up.
unfoldable pub segment_sizes_from :
    FileSystem → TableFileReader → (fuel segno : ℕ) → Option (Result PgError (List SegmentSize))
unfolding segment_size_step
segment_sizes_from fs reader zero segno = none
segment_sizes_from fs reader (suc fuel) segno =
    let rest = segment_sizes_from fs reader fuel (segno + 1) in
    elim (get_page_file_and_offset fs reader (segno * pages_per_segment)) [
      | ok (path, offset) ↦ segment_size_step rest path (fs.metadata path)
      | err e ↦ some (err e)
      | panic ↦ some panic
    ]

unfoldable pub segment_sizes :
    FileSystem → TableFileReader → (fuel : ℕ) → Option (Result PgError (List SegmentSize))
segment_sizes fs reader fuel = segment_sizes_from fs reader fuel 0

-- `segment_sizes.iter().map(|s| s.pages).sum()`
unfoldable pub sum_pages : List SegmentSize → ℕ
sum_pages [] = 0
sum_pages (size ∷ sizes) = size.pages + sum_pages sizes

unfoldable pub num_pages : FileSystem → TableFileReader → (fuel : ℕ) → Option (Result PgError ℕ)
num_pages fs reader fuel = elim (segment_sizes fs reader fuel) [
  | none ↦ none
  | some sizes ↦ some (sizes >>= λ found. ok (sum_pages found))
]
