-- ===== src/File/Reader/Totals.antt =====
-- The segments of a relation against its number of pages.
use native.Mathlib.Decide.{dec_lt, ℕ_discrete}
use pg_arrow.Base.{
  ℕ, zero, suc, ◌+◌, ◌*◌, ◌/◌, ◌%◌, ◌≤◌, ◌<◌, ◌≡◌, arith, ap, sym, ◌∙◌, ◌⊎◌, inl, inr, Bytes, none,
  some, Option-cases, length, length-sub_list, length-append,
}
use pg_arrow.Heap.Page.{page_buffer_size}
use pg_arrow.File.Reader.{pages_per_segment, FileSystem, TableFileReader}
use pg_arrow.File.Reader.Content.{
  Relation, contents, total_pages, pages_from, page_bytes, contents-some, contents-none,
}

module _ {fs : FileSystem} {reader : TableFileReader} (r : Relation fs reader) where
  last-lt : length (contents r r.full) < pages_per_segment * page_buffer_size
  last-lt = elim (Option-cases (r.segment r.full)) [
    | inl gone ↦ rw (gone, contents) (omega arith)
    | inr (content, found) ↦ rw (found, contents) (r.last_segment content found)
  ]

  pub gone-total : (k : ℕ) → r.segment k ≡ none → total_pages r ≤ k * pages_per_segment
  gone-total k gone = elim (dec_lt k r.full) [
    | yes h ↦
        let (content, found, size) = r.full_segments k h in
        let bad : none ≡ some content = sym gone ∙ found in cc
    | no h ↦ elim (ℕ_discrete k r.full) [
      | yes e ↦
          let empty : length (contents r r.full) ≡ 0 =
            ap length (contents-none r r.full (rw e at gone)) in
          omega arith
      | no n ↦ omega (arith, last-lt)
    ]
  ]

  -- A segment that is there is full, or the last one.
  pub found-total :
      (k : ℕ) (content : Bytes)
      → r.segment k ≡ some content
      → ((length content ≡ pages_per_segment * page_buffer_size)
          × (k * pages_per_segment + pages_per_segment ≤ total_pages r))
        ⊎ ((length content < pages_per_segment * page_buffer_size)
            × (total_pages r ≡ k * pages_per_segment + length content / page_buffer_size))
  found-total k content found = elim (dec_lt k r.full) [
    | yes h ↦
        let (content', found', size) = r.full_segments k h in
        let same : some content ≡ some content' = sym found ∙ found' in
        let same' : content ≡ content' = cc in inl (ap length same' ∙ size, omega arith)
    | no h ↦ elim (ℕ_discrete k r.full) [
      | yes e ↦
          let last = rw e at found in
          let size : length (contents r r.full) ≡ length content =
            ap length (contents-some r r.full last) in
          inr (omega (arith, last-lt), omega arith)
      | no n ↦ let bad : none ≡ some content = sym (r.no_more k (omega arith)) ∙ found in cc
    ]
  ]

  pub length-page_bytes : (p : ℕ) → p < total_pages r → length (page_bytes r p) ≡ page_buffer_size
  unfolding page_bytes
  length-page_bytes p h =
      let k = p / pages_per_segment in
      let start = p % pages_per_segment * page_buffer_size in
      let size = length-sub_list (contents r k) start (start + page_buffer_size) (omega arith) in
      elim (Option-cases (r.segment k)) [
        | inl gone ↦ absurd (omega (arith, gone-total k gone))
        | inr (content, found) ↦
            let there : length (contents r k) ≡ length content =
              ap length (contents-some r k found) in
            elim (found-total k content found) [
              | inl (full, more) ↦ omega (arith, size (omega arith))
              | inr (less, last) ↦ omega (arith, size (omega arith))
            ]
      ]

  pub length-pages_from :
      (p n : ℕ) → p + n ≤ total_pages r → length (pages_from r p n) ≡ n * page_buffer_size
  unfolding pages_from
  length-pages_from p zero h = omega arith
  length-pages_from p (suc n) h = omega (
    arith,
    length-append (page_bytes r p) (pages_from r (suc p) n),
    length-page_bytes p (omega arith),
    length-pages_from (suc p) n (omega arith),
  )
