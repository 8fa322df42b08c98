-- ===== src/File/Reader/Content.antt =====
-- The files of a relation, as the server writes them, and its pages.
use pg_arrow.Base.{
  ℕ, zero, suc, ◌+◌, ◌-◌, ◌*◌, ◌/◌, ◌%◌, ◌≤◌, ◌<◌, ◌≡◌, refl, arith, ap, sym, ◌∙◌, Bool, true,
  false, Bytes, [], ◌++◌, Option, none, some, ok, length, take, drop, drop-drop, sub_list, ◌∷◌,
}
use mathlib.Core.List.{append_assoc}
use pg_arrow.Heap.Page.{page_buffer_size}
use pg_arrow.File.Reader.{
  pages_per_segment, SegmentPath, Stat, file_size, not_found, FileSystem, TableFileReader,
  table_file, segment_path, get_page_file_and_offset,
}

abbrev pub segment_bytes : ℕ
segment_bytes = pages_per_segment * page_buffer_size

abbrev pub path_of : TableFileReader → Bytes → ℕ → SegmentPath
path_of reader dir k = segment_path (table_file reader dir) k

abbrev pub stat_of : Option Bytes → Stat
stat_of none = not_found
stat_of (some content) = file_size (length content)

abbrev pub exists : Option Bytes → Bool
exists none = false
exists (some content) = true

-- Regular files that nobody writes meanwhile, as POSIX documents `stat`, `open` and `pread` on them and Rust's library `read_exact`,
-- laid out as the server does: full segments, and behind them at most one that is not full.
pub record Relation (fs : FileSystem) (reader : TableFileReader) : Type 0 where
  pub dir : Bytes
  pub segment : ℕ → Option Bytes
  pub full : ℕ
  pub dir_lem : fs.data_dir ≡ some dir
  pub stats : (k : ℕ) → fs.metadata (path_of reader dir k) ≡ stat_of (segment k)
  pub opens : (k : ℕ) → fs.open_file (path_of reader dir k) ≡ exists (segment k)
  pub preads :
      (k : ℕ) (content : Bytes) (count offset : ℕ)
      → segment k ≡ some content
      → fs.pread (path_of reader dir k) count offset ≡ some (take count (drop offset content))
  pub exact_in :
      (k : ℕ) (content : Bytes) (position count : ℕ)
      → segment k ≡ some content
      → position + count ≤ length content
      → fs.read_exact (path_of reader dir k) position count
        ≡ (some (take count (drop position content)), position + count)
  pub exact_out :
      (k : ℕ) (content : Bytes) (position count : ℕ)
      → segment k ≡ some content
      → length content < position + count
      → (at : ℕ) × (fs.read_exact (path_of reader dir k) position count ≡ (none, at))
  pub full_segments :
      (k : ℕ)
      → k < full
      → (content : Bytes) × (segment k ≡ some content) × (length content ≡ segment_bytes)
  pub last_segment :
      (content : Bytes) → segment full ≡ some content → length content < segment_bytes
  pub no_more : (k : ℕ) → full < k → segment k ≡ none

module _ {fs : FileSystem} {reader : TableFileReader} (r : Relation fs reader) where
  -- What a segment holds.
  abbrev pub contents : ℕ → Bytes
  contents k = elim (r.segment k) [ none ↦ [] | some content ↦ content ]

  abbrev pub total_pages : ℕ
  total_pages = r.full * pages_per_segment + length (contents r.full) / page_buffer_size

  unfoldable pub page_bytes : ℕ → Bytes
  page_bytes p =
      let start = p % pages_per_segment * page_buffer_size in
      sub_list (contents (p / pages_per_segment)) start (start + page_buffer_size)

  -- `n` pages from page `p` on.
  unfoldable pub pages_from : ℕ → ℕ → Bytes
  pages_from p zero = []
  pages_from p (suc n) = page_bytes p ++ pages_from (suc p) n

  pub get_page_file_and_offset-path :
      (p : ℕ)
      → get_page_file_and_offset fs reader p
        ≡ ok
            (path_of reader r.dir (p / pages_per_segment), p % pages_per_segment * page_buffer_size)
  unfolding get_page_file_and_offset
  get_page_file_and_offset-path p = rw (r.dir_lem) refl

  pub contents-some : (k : ℕ) {content : Bytes} → r.segment k ≡ some content → contents k ≡ content
  contents-some k h = rw (h, contents) refl

  pub contents-none : (k : ℕ) → r.segment k ≡ none → contents k ≡ []
  contents-none k h = rw (h, contents) refl

  pub pages_from-add : (p a b : ℕ) → pages_from p (a + b) ≡ pages_from p a ++ pages_from (p + a) b
  unfolding pages_from
  pages_from-add p zero b =
      let e : 0 + b ≡ b = omega arith in let f : p + 0 ≡ p = omega arith in rw (e, f) refl
  pages_from-add p (suc a) b =
      let e : suc a + b ≡ suc (a + b) = omega arith in
      let f : p + suc a ≡ suc p + a = omega arith in
      rw (e, f, pages_from-add (suc p) a b)
        (sym (append_assoc (page_bytes p) (pages_from (suc p) a) (pages_from (suc p + a) b)))

  take-add : (a b : ℕ) (xs : Bytes) → take (a + b) xs ≡ take a xs ++ take b (drop a xs)
  take-add zero b xs = let e : 0 + b ≡ b = omega arith in rw e refl
  take-add (suc a) zero [] = let e : suc a + 0 ≡ suc a = omega arith in rw e refl
  take-add (suc a) (suc b) [] = let e : suc a + suc b ≡ suc (suc a + b) = omega arith in rw e refl
  take-add (suc a) b (x ∷ xs) =
      let e : suc a + b ≡ suc (a + b) = omega arith in rw e (ap (◌∷◌ x) (take-add a b xs))

  pub page_bytes-in :
      (k i : ℕ)
      → i < pages_per_segment
      → page_bytes (k * pages_per_segment + i)
        ≡ take page_buffer_size (drop (i * page_buffer_size) (contents k))
  unfolding page_bytes
  page_bytes-in k i h =
      let q : (k * pages_per_segment + i) / pages_per_segment ≡ k = omega arith in
      let s : (k * pages_per_segment + i) % pages_per_segment ≡ i = omega arith in
      let w : i * page_buffer_size + page_buffer_size - i * page_buffer_size ≡ page_buffer_size =
        omega arith in
      rw (q, s, w) refl

  -- Bytes of a segment are its pages.
  pub take-pages :
      (k i m : ℕ)
      → i + m ≤ pages_per_segment
      → take (m * page_buffer_size) (drop (i * page_buffer_size) (contents k))
        ≡ pages_from (k * pages_per_segment + i) m
  unfolding pages_from
  take-pages k i zero h = refl
  take-pages k i (suc m) h =
      let xs = drop (i * page_buffer_size) (contents k) in
      let n : suc m * page_buffer_size ≡ page_buffer_size + m * page_buffer_size = omega arith in
      let d : i * page_buffer_size + page_buffer_size ≡ suc i * page_buffer_size = omega arith in
      let next : k * pages_per_segment + suc i ≡ suc (k * pages_per_segment + i) = omega arith in
      ap (λ (c : ℕ). take c xs) n
      ∙ (take-add page_buffer_size (m * page_buffer_size) xs
          ∙ (ap (λ (zs : Bytes). take page_buffer_size xs ++ take (m * page_buffer_size) zs)
                (drop-drop page_buffer_size (i * page_buffer_size) (contents k)
                  ∙ ap (λ (c : ℕ). drop c (contents k)) d)
              ∙ (ap (λ (zs : Bytes). take page_buffer_size xs ++ zs)
                    (take-pages k (suc i) m (omega arith) ∙ ap (λ (c : ℕ). pages_from c m) next)
                  ∙ ap (λ (zs : Bytes). zs ++ pages_from (suc (k * pages_per_segment + i)) m)
                      (sym (page_bytes-in k i (omega arith))))))
