-- ===== src/File/Reader/NumPages.antt =====
-- `num_pages` on the files of a relation.
use pg_arrow.Base.{
  ℕ, zero, suc, ◌+◌, ◌*◌, ◌/◌, ◌<◌, ◌≡◌, refl, arith, ap, List, [], ◌∷◌, some, Result, ok, Option,
  inl, inr, Option-cases, length, lt→ltb,
}
use pg_arrow.File.Error.{PgError}
use pg_arrow.Heap.Page.{page_buffer_size}
use pg_arrow.File.Reader.{pages_per_segment, FileSystem, TableFileReader, file_size, SegmentPath}
use pg_arrow.File.Reader.Segments.{
  SegmentSize, push_segment, segment_size_step, segment_sizes_from, segment_sizes, sum_pages,
  num_pages,
}
use pg_arrow.File.Reader.Content.{
  Relation, segment_bytes, path_of, stat_of, contents, total_pages, get_page_file_and_offset-path,
}

module _ {fs : FileSystem} {reader : TableFileReader} (r : Relation fs reader) where
  abbrev Walk : Type 0
  Walk = Option (Result PgError (List SegmentSize))

  -- The walk ends with segments of this many pages together.
  abbrev Ends : Walk → ℕ → Type 0
  Ends walk pages =
      (sizes : List SegmentSize) × (walk ≡ some (ok sizes)) × (sum_pages sizes ≡ pages)

  from-step :
      (fuel k : ℕ)
      → segment_sizes_from fs reader (suc fuel) k
        ≡ segment_size_step
            (segment_sizes_from fs reader fuel (k + 1))
            (path_of reader r.dir k)
            (stat_of (r.segment k))
  unfolding segment_sizes_from
  from-step fuel k =
      let e : k * pages_per_segment / pages_per_segment ≡ k = omega arith in
      rw (segment_sizes_from, get_page_file_and_offset-path r (k * pages_per_segment), e, r.stats k)
        refl

  step-full :
      (rest : Walk) (path : SegmentPath) (pages : ℕ)
      → Ends rest pages
      → Ends (segment_size_step rest path (file_size segment_bytes)) (pages_per_segment + pages)
  unfolding segment_size_step push_segment sum_pages
  step-full rest path pages (sizes, e, count) = (
    record { path = path; bytes = segment_bytes; pages = pages_per_segment } ∷ sizes,
    rw e refl,
    omega arith,
  )

  step-short :
      (rest : Walk) (path : SegmentPath) (bytes : ℕ)
      → bytes < segment_bytes
      → Ends (segment_size_step rest path (file_size bytes)) (bytes / page_buffer_size)
  unfolding segment_size_step sum_pages
  step-short rest path bytes h =
      let below : bytes / page_buffer_size < pages_per_segment = omega arith in
      (
        record { path = path; bytes = bytes; pages = bytes / page_buffer_size } ∷ [],
        rw (lt→ltb _ _ below) refl,
        omega arith,
      )

  step-last :
      (rest : Walk) (path : SegmentPath)
      → Ends
          (segment_size_step rest path (stat_of (r.segment r.full)))
          (length (contents r r.full) / page_buffer_size)
  step-last rest path = elim (Option-cases (r.segment r.full)) [
    | inl gone ↦
        rw (gone, contents) ([], unfold segment_size_step in refl, unfold sum_pages in omega arith)
    | inr (content, found) ↦
        rw (found, contents) (step-short rest path (length content) (r.last_segment content found))
  ]

  walk-Ends :
      (n k fuel : ℕ)
      → k + n ≡ r.full
      → n < fuel
      → Ends
          (segment_sizes_from fs reader fuel k)
          (n * pages_per_segment + length (contents r r.full) / page_buffer_size)
  walk-Ends n k zero e h = absurd (omega arith)
  walk-Ends zero k (suc fuel) e h =
      let at : k ≡ r.full = omega arith in
      let all : 0 * pages_per_segment + length (contents r r.full) / page_buffer_size
          ≡ length (contents r r.full) / page_buffer_size =
        omega arith in
      rw (from-step fuel k, all, at)
        (step-last (segment_sizes_from fs reader fuel (r.full + 1)) (path_of reader r.dir r.full))
  walk-Ends (suc n) k (suc fuel) e h =
      let (content, found, size) = r.full_segments k (omega arith) in
      let rest = segment_sizes_from fs reader fuel (k + 1) in
      let behind = walk-Ends n (k + 1) fuel (omega arith) (omega arith) in
      let more : suc n * pages_per_segment + length (contents r r.full) / page_buffer_size
          ≡ pages_per_segment
            + (n * pages_per_segment + length (contents r r.full) / page_buffer_size) =
        omega arith in
      rw (from-step fuel k, more, found, size) (step-full rest (path_of reader r.dir k) _ behind)

-- On the files of a relation, regular and laid out as the server does, the walk over the segments ends
-- behind the last one: with a round for each segment and one more, `num_pages` gives the pages of the
-- full segments and the whole pages of the one behind them.
pub num_pages-total_pages :
    (fs : FileSystem) (reader : TableFileReader) (r : Relation fs reader) (fuel : ℕ)
    → r.full < fuel
    → num_pages fs reader fuel ≡ some (ok (total_pages r))
unfolding num_pages segment_sizes
num_pages-total_pages fs reader r fuel h =
    let (sizes, e, count) = walk-Ends r r.full 0 fuel (omega arith) h in
    rw (num_pages, e) (ap (λ (n : ℕ). some (ok n)) count)
