-- ===== src/File/Reader/BulkPages.antt =====
-- `read_pages_bulk` on the files of a relation.
use Prim.Native.Nat.{min}
use mathlib.Core.List.{◌∷◌, append_assoc, append-nil}
use native.Mathlib.Decide.{dec_lt}
use pg_arrow.Base.{
  ℕ, zero, suc, ◌+◌, ◌-◌, ◌*◌, ◌/◌, ◌%◌, ◌≤◌, ◌<◌, ◌≡◌, refl, arith, ap, sym, ◌∙◌, inl, inr, Bytes,
  [], ◌++◌, some, ok, length, take, drop, length-take, length-drop, lt→ltb, le→ltb, ltb, ◌==◌,
  Bool-cases, false,
}
use pg_arrow.Heap.Page.{page_buffer_size}
use pg_arrow.File.Reader.{pages_per_segment, FileSystem, TableFileReader, SegmentCache}
use pg_arrow.File.Reader.Bulk.{
  Bulk, pages_to_read, take_pages, bulk_round, bulk_loop, read_pages_bulk,
}
use pg_arrow.File.Reader.Opened.{IsCache, open_segment-Opened}
use pg_arrow.File.Reader.Totals.{gone-total, found-total, length-pages_from}
use pg_arrow.File.Reader.Content.{
  Relation, path_of, total_pages, pages_from, contents-some, pages_from-add, take-pages,
}

take-take : (n m : ℕ) (xs : Bytes) → n ≤ m → take n (take m xs) ≡ take n xs
take-take zero m xs h = refl
take-take (suc n) zero xs h = absurd (omega arith)
take-take (suc n) (suc m) [] h = refl
take-take (suc n) (suc m) (x ∷ xs) h = ap (◌∷◌ x) (take-take n m xs (omega arith))

module _ {fs : FileSystem} {reader : TableFileReader} (r : Relation fs reader) where
  -- The outcome holds the buffer and behind it `n` pages from page `p` on.
  abbrev Reads : Bulk → Bytes → ℕ → ℕ → Type 0
  Reads bulk buf p n =
      (left : SegmentCache) × IsCache r left × (bulk ≡ some (ok (buf ++ pages_from r p n, left)))

  module _ (end_page : ℕ) (rest : ℕ → Bytes → SegmentCache → Bulk) where
    -- What a loop from page `p` on is to read.
    abbrev wanted : ℕ → ℕ
    wanted p = min (end_page - p) (total_pages r - p)

    -- The rounds behind page `p`.
    abbrev Behind : ℕ → Type 0
    Behind p =
        (q : ℕ) (buf : Bytes) (cache : SegmentCache)
        → p < q
        → IsCache r cache
        → Reads (rest q buf cache) buf q (wanted q)

    stop :
        (p : ℕ) (buf : Bytes) (cache : SegmentCache)
        → IsCache r cache
        → wanted p ≡ 0
        → Reads (some (ok (buf, cache))) buf p (wanted p)
    unfolding pages_from
    stop p buf cache h e =
        rw e (cache, h, ap (λ (b : Bytes). some (ok (b, cache))) (sym (append-nil buf)))

    take_pages-next :
        (p m : ℕ) (buf : Bytes) (cache : SegmentCache) (bytes : Bytes)
        → 0 < m
        → length bytes ≡ m * page_buffer_size
        → take (m * page_buffer_size) bytes ≡ pages_from r p m
        → take_pages rest p buf cache (m * page_buffer_size) (some bytes)
          ≡ rest (p + m) (buf ++ pages_from r p m) cache
    unfolding take_pages
    take_pages-next p m buf cache bytes some_page size same =
        let q : length bytes / page_buffer_size ≡ m = omega arith in
        let nonzero : (length bytes == 0) ≡ false = ground arith in
        let enough : ltb (length bytes) (m * page_buffer_size) ≡ false = le→ltb _ _ (omega arith) in
        rw (nonzero, enough, q, same) refl

    -- A `pread` of `m` pages that gives all their bytes.
    go_on :
        (p m : ℕ) (buf : Bytes) (cache : SegmentCache) (bytes : Bytes)
        → Behind p
        → IsCache r cache
        → 0 < m
        → length bytes ≡ m * page_buffer_size
        → p + m ≤ end_page
        → p + m ≤ total_pages r
        → take (m * page_buffer_size) bytes ≡ pages_from r p m
        → Reads (take_pages rest p buf cache (m * page_buffer_size) (some bytes)) buf p (wanted p)
    go_on p m buf cache bytes ih h some_page size fits there same =
        let (left, k, e) = ih (p + m) (buf ++ pages_from r p m) cache (omega arith) h in
        let count : wanted p ≡ m + wanted (p + m) = omega arith in
        let joined : buf ++ pages_from r p (wanted p)
            ≡ (buf ++ pages_from r p m) ++ pages_from r (p + m) (wanted (p + m)) =
          ap (λ (n : ℕ). buf ++ pages_from r p n) count
          ∙ (ap (λ (b : Bytes). buf ++ b) (pages_from-add r p m (wanted (p + m)))
              ∙ sym
                  (append_assoc buf (pages_from r p m) (pages_from r (p + m) (wanted (p + m))))) in
        (
          left,
          k,
          take_pages-next p m buf cache bytes some_page size same
              ∙ (e ∙ ap (λ (b : Bytes). some (ok (b, left))) (sym joined)),
        )

    -- A `pread` of fewer bytes, at the end of the relation.
    short :
        (p w : ℕ) (buf : Bytes) (cache : SegmentCache) (bytes : Bytes)
        → IsCache r cache
        → length bytes < w
        → wanted p ≡ length bytes / page_buffer_size
        → take (length bytes / page_buffer_size * page_buffer_size) bytes
          ≡ pages_from r p (length bytes / page_buffer_size)
        → Reads (take_pages rest p buf cache w (some bytes)) buf p (wanted p)
    unfolding take_pages
    short p w buf cache bytes h less count same = elim (Bool-cases (length bytes == 0)) [
      | inl empty ↦
          let none_left : wanted p ≡ 0 = ground arith in rw empty (stop p buf cache h none_left)
      | inr some_bytes ↦ rw (some_bytes, lt→ltb (length bytes) w less, count, same) (cache, h, refl)
    ]

    module _ (p : ℕ) (ih : Behind p) (below : p < end_page) where
      k : ℕ
      k = p / pages_per_segment

      i : ℕ
      i = p % pages_per_segment

      asked : ℕ
      asked = pages_to_read end_page p

      asked_facts :
          (0 < asked)
          × (i + asked ≤ pages_per_segment)
          × (p + asked ≤ end_page)
          × (k * pages_per_segment + i ≡ p)
      unfolding k i asked pages_to_read
      asked_facts = (omega arith, omega arith, omega arith, omega arith)

      -- What `pread` gives of a segment.
      given : Bytes → Bytes
      given content = take (asked * page_buffer_size) (drop (i * page_buffer_size) content)

      length-given :
          (content : Bytes)
          → length (given content)
            ≡ min (asked * page_buffer_size) (length content - i * page_buffer_size)
      unfolding given
      length-given content = omega (
        arith,
        length-take (asked * page_buffer_size) (drop (i * page_buffer_size) content),
        length-drop (i * page_buffer_size) content,
      )

      given-pages :
          (content : Bytes) (n : ℕ)
          → r.segment k ≡ some content
          → n ≤ asked
          → take (n * page_buffer_size) (given content) ≡ pages_from r p n
      unfolding given
      given-pages content n found h =
          let (some_page, inside, fits, place) = asked_facts in
          let xs = drop (i * page_buffer_size) content in
          take-take (n * page_buffer_size) (asked * page_buffer_size) xs (omega arith)
          ∙ (ap (λ (c : Bytes). take (n * page_buffer_size) (drop (i * page_buffer_size) c))
                (sym (contents-some r k found))
              ∙ (take-pages r k i n (omega arith) ∙ ap (λ (at : ℕ). pages_from r at n) place))

      read-all :
          (buf : Bytes) (cache : SegmentCache) (content : Bytes)
          → IsCache r cache
          → r.segment k ≡ some content
          → length (given content) ≡ asked * page_buffer_size
          → p + asked ≤ total_pages r
          → Reads
              (take_pages rest p buf cache (asked * page_buffer_size) (some (given content)))
              buf
              p
              (wanted p)
      read-all buf cache content h found whole there =
          let (some_page, inside, fits, place) = asked_facts in
          go_on p asked buf cache (given content) ih h some_page whole fits there
            (given-pages content asked found (omega arith))

      read-Reads :
          (buf : Bytes) (cache : SegmentCache) (content : Bytes)
          → IsCache r cache
          → r.segment k ≡ some content
          → Reads
              (take_pages rest p buf cache (asked * page_buffer_size) (some (given content)))
              buf
              p
              (wanted p)
      read-Reads buf cache content h found =
          let (some_page, inside, fits, place) = asked_facts in
          let size = length-given content in
          elim (found-total r k content found) [
            | inl (full, there) ↦ read-all buf cache content h found (omega arith) (omega arith)
            | inr (less, last) ↦ elim (dec_lt (length (given content)) (asked * page_buffer_size)) [
              | no n ↦ read-all buf cache content h found (omega arith) (omega arith)
              | yes l ↦
                  let count : wanted p ≡ length (given content) / page_buffer_size = omega arith in
                  short p (asked * page_buffer_size) buf cache (given content) h l count (
                    given-pages content (length (given content) / page_buffer_size) found
                      (omega arith))
            ]
          ]

      bulk_round-Reads :
          (buf : Bytes) (cache : SegmentCache)
          → IsCache r cache
          → Reads (bulk_round fs reader rest end_page p buf cache) buf p (wanted p)
      bulk_round-Reads buf cache h =
          let (opened, e, how) = open_segment-Opened r p cache h in
          elim how [
            | inl (gone, closed) ↦
                let none_left : wanted p ≡ 0 =
                  omega (arith, gone-total r (p / pages_per_segment) gone) in
                unfold bulk_round in rw (bulk_round, e, closed) (stop p buf cache h none_left)
            | inr (content, found, there) ↦
                unfold bulk_round k i asked given in
                rw
                  (
                    bulk_round,
                    e,
                    there,
                    r.preads (p / pages_per_segment) content (asked * page_buffer_size)
                        (i * page_buffer_size) found,
                  )
                  (read-Reads buf
                    (some (p / pages_per_segment, path_of reader r.dir (p / pages_per_segment)))
                    content (refl, (content, found)) found)
          ]

  bulk_loop-Reads :
      (end_page fuel p : ℕ) (buf : Bytes) (cache : SegmentCache)
      → IsCache r cache
      → end_page - p < fuel
      → Reads
          (bulk_loop fs reader end_page fuel p buf cache)
          buf
          p
          (min (end_page - p) (total_pages r - p))
  unfolding bulk_loop
  bulk_loop-Reads end_page zero p buf cache h enough = absurd (omega arith)
  bulk_loop-Reads end_page (suc fuel) p buf cache h enough = elim (dec_lt p end_page) [
    | yes l ↦ rw (lt→ltb p end_page l) (
        bulk_round-Reads end_page (bulk_loop fs reader end_page fuel) p
          (λ q buf' cache' further h'. bulk_loop-Reads end_page fuel q buf' cache' h' (omega arith))
          l buf cache h)
    | no n ↦
        let none_left : wanted end_page (bulk_loop fs reader end_page fuel) p ≡ 0 = omega arith in
        rw (le→ltb p end_page (omega arith))
          (stop end_page (bulk_loop fs reader end_page fuel) p buf cache h none_left)
  ]

from_loop :
    (fs : FileSystem) (reader : TableFileReader) (start_page count : ℕ) (cache left : SegmentCache)
    (buf : Bytes)
    → (count == 0) ≡ false
    → bulk_loop fs reader (start_page + count) (count + 1) start_page [] cache
      ≡ some (ok (buf, left))
    → read_pages_bulk fs reader start_page count cache
      ≡ some (ok ((buf, length buf / page_buffer_size), left))
unfolding read_pages_bulk
from_loop fs reader start_page count cache left buf h e = rw (h, read_pages_bulk, e) refl

-- The pages that are there, and their number.
length-found :
    {fs : FileSystem} {reader : TableFileReader} (r : Relation fs reader) (p count : ℕ)
    → length (pages_from r p (min count (total_pages r - p))) / page_buffer_size
      ≡ min count (total_pages r - p)
unfolding pages_from
length-found r p count = elim (dec_lt p (total_pages r)) [
  | yes h ↦ omega (arith, length-pages_from r p (min count (total_pages r - p)) (omega arith))
  | no h ↦
      let none_left : min count (total_pages r - p) ≡ 0 = omega arith in rw none_left (omega arith)
]

-- On the files of a relation, regular and laid out as the server does, and with a cache that is empty
-- or holds the segment it says, `read_pages_bulk` ends within its fuel and gives the pages of the
-- relation from `start_page` on, `count` of them or as many as there are, with their number, and again
-- such a cache.
pub read_pages_bulk-pages_from :
    (fs : FileSystem) (reader : TableFileReader) (r : Relation fs reader) (start_page count : ℕ)
    (cache : SegmentCache)
    → IsCache r cache
    → (left : SegmentCache) × IsCache r left
      × (read_pages_bulk fs reader start_page count cache
          ≡ some (
              ok (
                (
                  pages_from r start_page (min count (total_pages r - start_page)),
                  min count (total_pages r - start_page),
                ),
                left,
              )))
unfolding read_pages_bulk
read_pages_bulk-pages_from fs reader r start_page count cache h = elim (Bool-cases (count == 0)) [
  | inl zero_pages ↦
      let nothing : min count (total_pages r - start_page) ≡ 0 = ground arith in
      (cache, h, unfold pages_from in rw (zero_pages, nothing) refl)
  | inr some_pages ↦
      let (left, k, e) =
        bulk_loop-Reads r (start_page + count) (count + 1) start_page [] cache h (omega arith) in
      let all : min (start_page + count - start_page) (total_pages r - start_page)
          ≡ min count (total_pages r - start_page) =
        omega arith in
      (
        left,
        k,
        from_loop fs reader start_page count cache left _ some_pages
              (e ∙ ap (λ (m : ℕ). some (ok (pages_from r start_page m, left))) all)
            ∙ ap
                (λ (m : ℕ). some (
                  ok ((pages_from r start_page (min count (total_pages r - start_page)), m), left)))
                (length-found r start_page count),
      )
]
