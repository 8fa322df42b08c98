-- ===== src/File/Stream/Source.antt =====
-- What the stream relies on of a `ChunkReader`, and `TableFileReader` as one.
use Prim.Native.Nat.{min}
use pg_arrow.Base.{
  ℕ, zero, suc, ◌+◌, ◌-◌, ◌*◌, ◌≤◌, ◌<◌, ◌≡◌, refl, arith, ap, ◌∙◌, Bytes, [], ◌++◌, Option, some,
  Result, ok, length, length-append, slice, slice-in, sub_list-append, sym,
}
use mathlib.Core.List.{append_assoc}
use pg_arrow.File.Error.{PgError}
use pg_arrow.Heap.Page.{page_buffer_size}
use pg_arrow.File.Reader.{FileSystem, TableFileReader, SegmentCache}
use pg_arrow.File.Reader.Bulk.{read_pages_bulk}
use pg_arrow.File.Reader.Content.{Relation, total_pages, page_bytes, pages_from}
use pg_arrow.File.Reader.Opened.{IsCache}
use pg_arrow.File.Reader.Totals.{length-page_bytes}
use pg_arrow.File.Reader.BulkPages.{read_pages_bulk-pages_from}

-- `n` pages from page `p` on.
unfoldable pub join_pages : (ℕ → Bytes) → (p n : ℕ) → Bytes
join_pages page p zero = []
join_pages page p (suc n) = page p ++ join_pages page (suc p) n

-- A chunk reader that serves the pages below `total`.
pub record PageSource {C : Type 0}
    (bulk : (start_page count : ℕ) → C → Option (Result PgError ((Bytes × ℕ) × C))) : Type 1 where
  pub IsReady : C → Type 0
  pub total : ℕ
  pub page : ℕ → Bytes
  pub page_size : (p : ℕ) → p < total → length (page p) ≡ page_buffer_size
  pub reads :
      (start count : ℕ) (reader : C)
      → IsReady reader
      → (left : C) × IsReady left
        × (bulk start count reader
            ≡ some (
                ok (
                  (join_pages page start (min count (total - start)), min count (total - start)),
                  left,
                )))

pages_from-join_pages :
    {fs : FileSystem} {reader : TableFileReader} (r : Relation fs reader) (p n : ℕ)
    → pages_from r p n ≡ join_pages (page_bytes r) p n
unfolding pages_from join_pages
pages_from-join_pages r p zero = refl
pages_from-join_pages r p (suc n) =
    ap (λ (b : Bytes). page_bytes r p ++ b) (pages_from-join_pages r (suc p) n)

pub table_reads :
    {fs : FileSystem} {reader : TableFileReader} (r : Relation fs reader) (start count : ℕ)
    (cache : SegmentCache)
    → IsCache r cache
    → (left : SegmentCache) × IsCache r left
      × (read_pages_bulk fs reader start count cache
          ≡ some (
              ok (
                (
                  join_pages (page_bytes r) start (min count (total_pages r - start)),
                  min count (total_pages r - start),
                ),
                left,
              )))
table_reads {fs} {reader} r start count cache h =
    let (left, k, e) = read_pages_bulk-pages_from fs reader r start count cache h in
    let n = min count (total_pages r - start) in
    (left, k, e ∙ ap (λ (b : Bytes). some (ok ((b, n), left))) (pages_from-join_pages r start n))

-- The files of a relation behind their reader.
abbrev pub table_source :
    {fs : FileSystem} {reader : TableFileReader}
    → Relation fs reader
    → PageSource (read_pages_bulk fs reader)
table_source {fs} {reader} r = record {
  IsReady = IsCache r;
  total = total_pages r;
  page = page_bytes r;
  page_size = length-page_bytes r;
  reads = table_reads r;
}

module _ (page : ℕ → Bytes) (total : ℕ)
    (sizes : (p : ℕ) → p < total → length (page p) ≡ page_buffer_size) where
  length-join_pages :
      (p n : ℕ) → p + n ≤ total → length (join_pages page p n) ≡ n * page_buffer_size
  unfolding join_pages
  length-join_pages p zero h = omega arith
  length-join_pages p (suc n) h = omega (
    arith,
    length-append (page p) (join_pages page (suc p) n),
    sizes p (omega arith),
    length-join_pages (suc p) n (omega arith),
  )

  join_pages-add :
      (p a b : ℕ) → join_pages page p (a + b) ≡ join_pages page p a ++ join_pages page (p + a) b
  unfolding join_pages
  join_pages-add p zero b =
      let e : 0 + b ≡ b = omega arith in let f : p + 0 ≡ p = omega arith in rw (e, f) refl
  join_pages-add p (suc a) b =
      let e : suc a + b ≡ suc (a + b) = omega arith in
      let f : p + suc a ≡ suc p + a = omega arith in
      rw (e, f, join_pages-add (suc p) a b)
        (sym (append_assoc (page p) (join_pages page (suc p) a) (join_pages page (suc p + a) b)))

  -- Page `i` of the pages that were read.
  pub slice-join_pages :
      (p n i : ℕ)
      → p + n ≤ total
      → i < n
      → slice {E = PgError}
          (join_pages page p n)
          (i * page_buffer_size)
          (i * page_buffer_size + page_buffer_size)
        ≡ ok (page (p + i))
  slice-join_pages p n i h below =
      let front = join_pages page p i in
      let rest = join_pages page (suc (p + i)) (n - suc i) in
      let e : n ≡ i + suc (n - suc i) = omega arith in
      let split : join_pages page p n ≡ front ++ (page (p + i) ++ rest) =
        ap (join_pages page p) e
        ∙ (join_pages-add p i (suc (n - suc i)) ∙ unfold join_pages in refl) in
      let at : length front ≡ i * page_buffer_size = length-join_pages p i (omega arith) in
      let inside : length front + page_buffer_size ≤ length (front ++ (page (p + i) ++ rest)) =
        omega (
          arith,
          length-append front (page (p + i) ++ rest),
          length-append (page (p + i)) rest,
          sizes (p + i) (omega arith),
        ) in
      rw (split, ← at)
        (slice-in (front ++ (page (p + i) ++ rest)) (length front) (length front + page_buffer_size)
            (omega arith) inside
          ∙ ap ok (sub_list-append front (page (p + i)) rest (sizes (p + i) (omega arith))))
