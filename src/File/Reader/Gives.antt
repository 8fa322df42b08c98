-- ===== src/File/Reader/Gives.antt =====
-- `get_page_by_index` gives a page that is there, over the ends of the segments.
use native.Mathlib.Decide.{dec_lt}
use pg_arrow.Base.{
  ℕ, suc, ◌+◌, ◌*◌, ◌/◌, ◌%◌, ◌<◌, ◌≡◌, refl, arith, ap, sym, ◌∙◌, inl, inr, Bytes, Option, none,
  some, Result, ok, err, panic, length,
}
use pg_arrow.File.Error.{PgError}
use pg_arrow.Heap.Page.{page_buffer_size, parse_bytes}
use pg_arrow.File.Reader.{pages_per_segment, FileSystem, TableFileReader}
use pg_arrow.File.Reader.Content.{Relation, path_of, total_pages, page_bytes}
use pg_arrow.File.Reader.Totals.{found-total}
use pg_arrow.File.Reader.Pages.{
  Handle, PageRead, with_handle, finish_read, read_page, get_page_by_index,
}
use pg_arrow.File.Reader.Places.{
  with, place, read-page, page-there, get_reader-place, get_page-first, get_page-again,
}

module _ {fs : FileSystem} {reader : TableFileReader} (r : Relation fs reader) where
  -- The reader in front of page `p`: not open yet, or behind the page before.
  abbrev pub Behind : Option Handle → ℕ → Type 0
  Behind none p = p ≡ 0
  Behind (some handle) p =
      (k : ℕ) × (i : ℕ) × (content : Bytes) × (p ≡ k * pages_per_segment + suc i)
      × (i < pages_per_segment)
      × (handle ≡ place r k (suc i))
      × (r.segment k ≡ some content)

  -- A page that is there is read, and the reader then stands behind it.
  abbrev pub Gives : PageRead → ℕ → Type 0
  Gives given p =
      (handle : Handle) × (given ≡ (parse_bytes (page_bytes r p), with r (some handle)))
      × Behind (some handle) (suc p)

  at-place :
      (h : Option Handle) (p : ℕ)
      → p < total_pages r
      → Gives
          (read_page fs (with r h) p (place r (p / pages_per_segment) (p % pages_per_segment)))
          p
  at-place hd p h =
      let k = p / pages_per_segment in
      let i = p % pages_per_segment in
      let (content, found, whole) = page-there r p h in
      let e : k * pages_per_segment + i ≡ p = omega arith in
      (
        place r k (suc i),
        get_page-first r hd p (place r k i) (page_bytes r (k * pages_per_segment + i))
              (suc i * page_buffer_size) (read-page r k i found (omega arith) whole)
            ∙ ap (λ (q : ℕ). (parse_bytes (page_bytes r q), with r (some (place r k (suc i))))) e,
        (k, i, content, omega arith, omega arith, refl, found),
      )

  -- At the end of a full segment the page is the first of the next one.
  at-boundary :
      (p k : ℕ) (content : Bytes)
      → p ≡ k * pages_per_segment + pages_per_segment
      → r.segment k ≡ some content
      → p < total_pages r
      → Gives
          (read_page fs
            (with r (some (place r k pages_per_segment)))
            p
            (place r k pages_per_segment))
          p
  unfolding finish_read with_handle
  at-boundary p k content e found h =
      let k' = p / pages_per_segment in
      let i' = p % pages_per_segment in
      let (content', found', whole) = page-there r p h in
      let past : length content < pages_per_segment * page_buffer_size + page_buffer_size =
        elim (found-total r k content found) [
          | inl (full, more) ↦ omega arith
          | inr (less, last) ↦ omega arith
        ] in
      let (at, gone) =
        r.exact_out k content (pages_per_segment * page_buffer_size) page_buffer_size found past in
      let e' : k' * pages_per_segment + i' ≡ p = omega arith in
      (
        place r k' (suc i'),
        get_page-again r (some (place r k pages_per_segment)) p (path_of reader r.dir k)
              (pages_per_segment * page_buffer_size) at gone found' _
              (read-page r k' i' found' (omega arith) whole)
            ∙ ap (λ (q : ℕ). (parse_bytes (page_bytes r q), with r (some (place r k' (suc i')))))
                e',
        (k', i', content', omega arith, omega arith, refl, found'),
      )

  pub get_page-Gives :
      (h : Option Handle) (p : ℕ)
      → Behind h p
      → p < total_pages r
      → Gives (get_page_by_index fs (with r h) p) p
  unfolding get_page_by_index
  get_page-Gives none p e h =
      let (content, found, whole) = page-there r p h in
      let opened = get_reader-place r p found in
      let (handle, given, behind) = at-place none p h in
      (
        handle,
        ap
              (λ (x : Result PgError Handle). elim x [
                | ok at ↦ read_page fs (with r none) p at
                | err y ↦ (panic, with r none)
                | panic ↦ (panic, with r none)
              ])
              opened
            ∙ given,
        behind,
      )
  get_page-Gives (some handle) p (k, i, content, e, below, at, found) h =
      elim (dec_lt (suc i) pages_per_segment) [
        | yes same ↦
            let ek : p / pages_per_segment ≡ k = omega arith in
            let ei : p % pages_per_segment ≡ suc i = omega arith in
            let (handle', given, behind) = at-place (some handle) p h in
            (
              handle',
              ap (read_page fs (with r (some handle)) p) (
                    at
                    ∙ (ap (λ (x : ℕ). place r x (suc i)) (sym ek)
                        ∙ ap (place r (p / pages_per_segment)) (sym ei)))
                  ∙ given,
              behind,
            )
        | no next ↦
            let last : suc i ≡ pages_per_segment = omega arith in
            let there : handle ≡ place r k pages_per_segment = at ∙ ap (place r k) last in
            let (handle', given, behind) = at-boundary p k content (omega arith) found h in
            (handle', ap (λ (x : Handle). read_page fs (with r (some x)) p x) there ∙ given, behind)
      ]
