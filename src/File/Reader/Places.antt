-- ===== src/File/Reader/Places.antt =====
-- The reads of `get_page_by_index` at the place of a page, and behind a read that gave nothing.
use pg_arrow.Base.{
  ℕ, suc, ◌+◌, ◌*◌, ◌/◌, ◌%◌, ◌≤◌, ◌<◌, ◌≡◌, refl, arith, ap, sym, ◌∙◌, inl, inr, Bytes, Option,
  none, some, ok, Option-cases, length, take, drop,
}
use pg_arrow.Heap.Page.{page_buffer_size, parse_bytes}
use pg_arrow.File.Reader.{pages_per_segment, FileSystem, TableFileReader, SegmentPath}
use pg_arrow.File.Reader.Content.{
  Relation, path_of, total_pages, page_bytes, page_bytes-in, get_page_file_and_offset-path,
  contents-some,
}
use pg_arrow.File.Reader.Totals.{gone-total, found-total}
use pg_arrow.File.Reader.Pages.{
  Handle, PageReader, get_reader, with_handle, finish_read, read_again, after_read, read_page,
}

module _ {fs : FileSystem} {reader : TableFileReader} (r : Relation fs reader) where
  -- A reader of the relation.
  abbrev pub with : Option Handle → PageReader
  with handle = record { segment_chunk_reader = reader; reader_instance = handle }

  -- The place of page `i` of segment `k`.
  abbrev pub place : (k i : ℕ) → Handle
  place k i = (path_of reader r.dir k, i * page_buffer_size)

  -- A read there gives the page, or nothing where it is not whole.
  pub read-page :
      (k i : ℕ) {content : Bytes}
      → r.segment k ≡ some content
      → i < pages_per_segment
      → suc i * page_buffer_size ≤ length content
      → fs.read_exact (path_of reader r.dir k) (i * page_buffer_size) page_buffer_size
        ≡ (some (page_bytes r (k * pages_per_segment + i)), suc i * page_buffer_size)
  read-page k i {content} found below whole =
      let e : i * page_buffer_size + page_buffer_size ≡ suc i * page_buffer_size = omega arith in
      let same : take page_buffer_size (drop (i * page_buffer_size) content)
          ≡ page_bytes r (k * pages_per_segment + i) =
        ap (λ (c : Bytes). take page_buffer_size (drop (i * page_buffer_size) c))
          (sym (contents-some r k found))
        ∙ sym (page_bytes-in r k i below) in
      r.exact_in k content (i * page_buffer_size) page_buffer_size found (omega arith)
      ∙ (ap (λ (b : Bytes). (some b, i * page_buffer_size + page_buffer_size)) same
          ∙ ap (λ (n : ℕ). (some (page_bytes r (k * pages_per_segment + i)), n)) e)

  -- The segment of a page that is there holds it whole.
  pub page-there :
      (p : ℕ)
      → p < total_pages r
      → (content : Bytes) × (r.segment (p / pages_per_segment) ≡ some content)
        × (suc (p % pages_per_segment) * page_buffer_size ≤ length content)
  page-there p h = elim (Option-cases (r.segment (p / pages_per_segment))) [
    | inl gone ↦ absurd (omega (arith, gone-total r (p / pages_per_segment) gone))
    | inr (content, found) ↦ elim (found-total r (p / pages_per_segment) content found) [
      | inl (full, more) ↦ (content, found, omega arith)
      | inr (less, last) ↦ (content, found, omega arith)
    ]
  ]

  pub get_reader-place :
      (p : ℕ) {content : Bytes}
      → r.segment (p / pages_per_segment) ≡ some content
      → get_reader fs reader (p * page_buffer_size)
        ≡ ok (place (p / pages_per_segment) (p % pages_per_segment))
  unfolding get_reader
  get_reader-place p found =
      let e : p * page_buffer_size / page_buffer_size ≡ p = omega arith in
      rw (get_reader, e, get_page_file_and_offset-path r p, r.opens (p / pages_per_segment), found)
        refl

  -- The first try reads page `p`.
  pub get_page-first :
      (h : Option Handle) (p : ℕ) (handle : Handle) (page : Bytes) (at : ℕ)
      → fs.read_exact handle.0 handle.1 page_buffer_size ≡ (some page, at)
      → read_page fs (with h) p handle ≡ (parse_bytes page, with (some (handle.0, at)))
  unfolding read_page after_read with_handle
  get_page-first h p (path, at0) page at read = ap (after_read fs (with h) p path) read

  -- The second try, behind a read that gave nothing.
  pub get_page-again :
      (h : Option Handle) (p : ℕ) (path : SegmentPath) (at0 at : ℕ) {content : Bytes}
      → fs.read_exact path at0 page_buffer_size ≡ (none, at)
      → r.segment (p / pages_per_segment) ≡ some content
      → (answer : Option Bytes × ℕ)
      → fs.read_exact
          (path_of reader r.dir (p / pages_per_segment))
          (p % pages_per_segment * page_buffer_size)
          page_buffer_size
        ≡ answer
      → read_page fs (with h) p (path, at0)
        ≡ finish_read (with (some (path, at))) (path_of reader r.dir (p / pages_per_segment)) answer
  unfolding read_page after_read with_handle read_again
  get_page-again h p path at0 at failed found answer given =
      ap (after_read fs (with h) p path) failed
      ∙ (ap (read_again fs (with (some (path, at)))) (get_reader-place p found)
          ∙ ap (finish_read (with (some (path, at))) (path_of reader r.dir (p / pages_per_segment)))
              given)
