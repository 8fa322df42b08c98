-- ===== src/File/Reader/Opened.antt =====
-- The segment that `open_segment` gives, from the cache or opened anew.
use pg_arrow.Base.{
  ℕ, ◌/◌, ◌≡◌, refl, arith, ap, ◌⊎◌, inl, inr, Bytes, none, some, ok, Option-cases, ◌==◌,
  Bool-cases,
}
use pg_arrow.File.Reader.{pages_per_segment, FileSystem, TableFileReader, SegmentCache}
use pg_arrow.File.Reader.Bulk.{open_new, open_segment}
use pg_arrow.File.Reader.Content.{Relation, path_of, get_page_file_and_offset-path}

module _ {fs : FileSystem} {reader : TableFileReader} (r : Relation fs reader) where
  -- The cached file is the segment that it is cached for.
  abbrev pub IsCache : SegmentCache → Type 0
  IsCache none = Unit {0}
  IsCache (some (k, path)) =
      (path ≡ path_of reader r.dir k) × ((content : Bytes) × (r.segment k ≡ some content))

  -- The segment's file, if it is there.
  abbrev pub Opened : ℕ → SegmentCache → Type 0
  Opened k cache =
      ((r.segment k ≡ none) × (cache ≡ none))
      ⊎ ((content : Bytes) × (r.segment k ≡ some content)
          × (cache ≡ some (k, path_of reader r.dir k)))

  open_new-Opened :
      (p : ℕ)
      → (cache : SegmentCache) × (open_new fs reader p ≡ ok cache)
        × Opened (p / pages_per_segment) cache
  unfolding open_new
  open_new-Opened p = elim (Option-cases (r.segment (p / pages_per_segment))) [
    | inl gone ↦ (
      none,
      rw (get_page_file_and_offset-path r p, r.opens (p / pages_per_segment), gone) refl,
      inl (gone, refl),
    )
    | inr (content, found) ↦ (
      some (p / pages_per_segment, path_of reader r.dir (p / pages_per_segment)),
      rw (get_page_file_and_offset-path r p, r.opens (p / pages_per_segment), found) refl,
      inr (content, found, refl),
    )
  ]

  pub open_segment-Opened :
      (p : ℕ) (cache : SegmentCache)
      → IsCache cache
      → (opened : SegmentCache) × (open_segment fs reader p cache ≡ ok opened)
        × Opened (p / pages_per_segment) opened
  unfolding open_segment
  open_segment-Opened p none h = open_new-Opened p
  open_segment-Opened p (some (k, path)) (e, (content, found)) =
      elim (Bool-cases (k == p / pages_per_segment)) [
        | inl same ↦
            let at : k ≡ p / pages_per_segment = ground arith in
            (
              some (k, path),
              rw same refl,
              inr (content, rw at at found, ap (λ (x : ℕ × _). some x) (cc)),
            )
        | inr other ↦ rw other (open_new-Opened p)
      ]
