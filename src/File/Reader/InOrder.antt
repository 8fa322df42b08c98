-- ===== src/File/Reader/InOrder.antt =====
-- `get_page_by_index` on the files of a relation, page after page, up to the error behind the last.
use pg_arrow.Base.{
  ℕ, zero, suc, ◌+◌, ◌*◌, ◌/◌, ◌%◌, ◌<◌, ◌≡◌, refl, arith, ap, ◌∙◌, inl, inr, Bytes, List, [], ◌∷◌,
  Option, none, some, Result, ok, err, panic, Option-cases, length,
}
use pg_arrow.File.Error.{PgError, generic}
use pg_arrow.Heap.Page.{HeapPageData, page_buffer_size, parse_bytes}
use pg_arrow.File.Reader.{pages_per_segment, FileSystem, TableFileReader, SegmentPath}
use pg_arrow.File.Reader.Content.{
  Relation, path_of, total_pages, page_bytes, get_page_file_and_offset-path,
}
use pg_arrow.File.Reader.Totals.{found-total}
use pg_arrow.File.Reader.Pages.{
  Handle, PageReader, get_page_reader, get_reader, PageRead, with_handle, finish_read, read_again,
  after_read, read_page, get_page_by_index,
}
use pg_arrow.File.Scan.Pages.{Serves}
use pg_arrow.File.Reader.Places.{with, place, get_reader-place, get_page-again}
use pg_arrow.File.Reader.Gives.{Behind, get_page-Gives}

module _ {fs : FileSystem} {reader : TableFileReader} (r : Relation fs reader) where
  abbrev Ends : PageRead → Type 0
  Ends given = (e : PgError) × (s : PageReader) × (given ≡ (err e, s))

  get_reader-closed :
      (p : ℕ)
      → r.segment (p / pages_per_segment) ≡ none
      → get_reader fs reader (p * page_buffer_size) ≡ err generic
  unfolding get_reader
  get_reader-closed p gone =
      let e : p * page_buffer_size / page_buffer_size ≡ p = omega arith in
      rw (get_reader, e, get_page_file_and_offset-path r p, r.opens (p / pages_per_segment), gone)
        refl

  -- Behind r the last page the second try fails as well.
  again-Ends :
      (h : Option Handle) (p : ℕ) (path : SegmentPath) (at0 at : ℕ)
      → fs.read_exact path at0 page_buffer_size ≡ (none, at)
      → p ≡ total_pages r
      → Ends (read_page fs (with r h) p (path, at0))
  unfolding read_page after_read with_handle read_again finish_read
  again-Ends h p path at0 at failed e = elim (Option-cases (r.segment (p / pages_per_segment))) [
    | inl gone ↦ (
      generic,
      with r (some (path, at)),
      ap (after_read fs (with r h) p path) failed
          ∙ ap (read_again fs (with r (some (path, at)))) (get_reader-closed p gone),
    )
    | inr (content, found) ↦
        let past : length content < p % pages_per_segment * page_buffer_size + page_buffer_size =
          elim (found-total r (p / pages_per_segment) content found) [
            | inl (full, more) ↦ absurd (omega arith)
            | inr (less, last) ↦ omega arith
          ] in
        let (at', failed') =
          r.exact_out (p / pages_per_segment) content (p % pages_per_segment * page_buffer_size)
            page_buffer_size found past in
        (
          generic,
          with r (some (path_of reader r.dir (p / pages_per_segment), at')),
          get_page-again r h p path at0 at failed found (none, at') failed',
        )
  ]

  get_page-Ends :
      (h : Option Handle) (p : ℕ) {content : Bytes}
      → Behind r h p
      → p ≡ total_pages r
      → r.segment 0 ≡ some content
      → Ends (get_page_by_index fs (with r h) p)
  unfolding get_page_by_index
  get_page-Ends none p {content} e last first =
      let k : p / pages_per_segment ≡ 0 = omega arith in
      let i : p % pages_per_segment ≡ 0 = omega arith in
      let opened = get_reader-place r p (ap r.segment k ∙ first) in
      let small : length content < 0 * page_buffer_size + page_buffer_size =
        elim (found-total r 0 content first) [
          | inl (full, more) ↦ absurd (omega arith)
          | inr (less, whole) ↦ omega arith
        ] in
      let (at, failed) =
        r.exact_out 0 content (0 * page_buffer_size) page_buffer_size first small in
      let start : place r (p / pages_per_segment) (p % pages_per_segment) ≡ place r 0 0 =
        ap (λ (x : ℕ). place r x (p % pages_per_segment)) k ∙ ap (place r 0) i in
      let (x, s, ended) =
        again-Ends none p (path_of reader r.dir 0) (0 * page_buffer_size) at failed last in
      (
        x,
        s,
        ap
              (λ (y : Result PgError Handle). elim y [
                | ok at' ↦ read_page fs (with r none) p at'
                | err z ↦ (panic, with r none)
                | panic ↦ (panic, with r none)
              ])
              (opened ∙ ap ok start)
            ∙ ended,
      )
  get_page-Ends (some handle) p (k, i, content, e, below, at, found) last first =
      let past : length content < suc i * page_buffer_size + page_buffer_size =
        elim (found-total r k content found) [
          | inl (full, more) ↦ omega arith
          | inr (less, whole) ↦ omega arith
        ] in
      let (at', failed) =
        r.exact_out k content (suc i * page_buffer_size) page_buffer_size found past in
      let (x, s, ended) =
        again-Ends (some (place r k (suc i))) p (path_of reader r.dir k) (suc i * page_buffer_size)
          at' failed last in
      (x, s, ap (λ (y : Handle). read_page fs (with r (some y)) p y) at ∙ ended)

  -- The pages from `p` on, `n` of them.
  abbrev pub page_list : (ℕ → HeapPageData) → (p n : ℕ) → List HeapPageData
  page_list page p zero = []
  page_list page p (suc n) = page p ∷ page_list page (suc p) n

  Behind-Serves :
      (page : ℕ → HeapPageData) {content : Bytes} (n p : ℕ) (h : Option Handle)
      → ((q : ℕ) → q < total_pages r → parse_bytes (page_bytes r q) ≡ ok (page q))
      → r.segment 0 ≡ some content
      → Behind r h p
      → p + n ≡ total_pages r
      → Serves (get_page_by_index fs) (with r h) p (page_list page p n)
  Behind-Serves page zero p h parses first behind e = get_page-Ends h p behind (omega arith) first
  Behind-Serves page (suc n) p h parses first behind e =
      let (handle, given, behind') = get_page-Gives r h p behind (omega arith) in
      (
        with r (some handle),
        given
            ∙ ap (λ (x : Result PgError HeapPageData). (x, with r (some handle)))
                (parses p (omega arith)),
        Behind-Serves page n (suc p) (some handle) parses first behind' (omega arith),
      )

-- On the files of a relation, regular and laid out as the server does, with r a first segment and with
-- pages that parse: `get_page_by_index`, called for page 0 and then for one page after the other,
-- gives every page of the relation, over the ends of the segments, and behind the last one an error.
pub get_page_by_index-Serves :
    (fs : FileSystem) (reader : TableFileReader) (r : Relation fs reader) (page : ℕ → HeapPageData)
    (content : Bytes)
    → r.segment 0 ≡ some content
    → ((q : ℕ) → q < total_pages r → parse_bytes (page_bytes r q) ≡ ok (page q))
    → Serves (get_page_by_index fs) (get_page_reader reader) 0 (page_list r page 0 (total_pages r))
unfolding get_page_reader
get_page_by_index-Serves fs reader r page content first parses =
    Behind-Serves r page (total_pages r) 0 none parses first refl (omega arith)
