-- ===== src/Heap/Page/Parse.antt =====
-- `parse_bytes` on every buffer.
use native.Mathlib.Decide.{dec_le}
use pg_arrow.Base.{
  ℕ, zero, suc, ◌+◌, ◌-◌, ◌*◌, ◌/◌, ◌%◌, ◌^◌, ◌≤◌, ◌<◌, ◌≡◌, refl, arith, Bytes, List, [], ◌∷◌,
  some, Result, ok, err, panic, length, get_elem?, get_range-out, slice, read_word, read_word-in,
  word_at, lt→ltb, le→ltb, ap, bit_and, bit_or, IsByte, All, word_at-lt,
}
use pg_arrow.Base.Bits.{bit_and-ones, bit_and-field_at, bit_or-add}
use pg_arrow.File.Error.{PgError}
use pg_arrow.Heap.Page.{
  page_buffer_size, PageHeaderData, num_line_pointers, read_page_header, parse_header,
  read_line_pointer, HeapPageData, read_line_pointers, parse_page, parse_bytes, page_size,
  page_version,
}

-- The line pointer in slot `i`, in plain arithmetic.
abbrev pub slot : Bytes → ℕ → ℕ
slot page i = word_at 4 page (24 + i * 4)

abbrev pub slots : Bytes → ℕ → ℕ → List ℕ
slots page i zero = []
slots page i (suc n) = slot page i ∷ slots page (i + 1) n

pub length-slots : (page : Bytes) (i n : ℕ) → length (slots page i n) ≡ n
length-slots page i zero = refl
length-slots page i (suc n) = ap suc (length-slots page (i + 1) n)

pub get_elem?-slots :
    (page : Bytes) (i n k : ℕ) → k < n → get_elem? (slots page i n) k ≡ some (slot page (i + k))
get_elem?-slots page i zero k h = absurd (omega arith)
get_elem?-slots page i (suc n) zero h = let e : i + 0 ≡ i = omega arith in rw e
get_elem?-slots page i (suc n) (suc k) h =
    let e : i + suc k ≡ i + 1 + k = omega arith in
    rw e (get_elem?-slots page (i + 1) n k (omega arith))

-- All slots lie in the page, and are read.
read_line_pointers-in :
    (page : Bytes) (i n : ℕ)
    → 24 + (i + n) * 4 ≤ length page
    → read_line_pointers page i n ≡ ok (slots page i n)
unfolding read_line_pointers read_line_pointer
read_line_pointers-in page i zero h = refl
read_line_pointers-in page i (suc n) h = rw (
  read_word-in {E = PgError} 4 page (24 + i * 4) (omega arith),
  read_line_pointers-in page (i + 1) n (omega arith),
)

read_word-out :
    (n : ℕ) (page : Bytes) (a : ℕ) → length page < a + n → read_word {E = PgError} n page a ≡ panic
unfolding read_word slice
read_word-out n page a h = rw (get_range-out page a (a + n) h)

-- The last slot does not lie in the page.
read_line_pointers-out :
    (page : Bytes) (i n : ℕ)
    → 0 < n
    → length page < 24 + (i + n) * 4
    → read_line_pointers page i n ≡ panic
unfolding read_line_pointers read_line_pointer
read_line_pointers-out page i zero p h = absurd (omega arith)
read_line_pointers-out page i (suc n) p h = elim (dec_le (24 + i * 4 + 4) (length page)) [
  | yes here ↦ rw (
    read_word-in {E = PgError} 4 page (24 + i * 4) here,
    read_line_pointers-out page (i + 1) n (omega arith) (omega arith),
  )
  | no gone ↦ rw (read_word-out 4 page (24 + i * 4) (omega arith))
]

-- The page header, field by field.
abbrev pub header_at : Bytes → PageHeaderData
header_at page = record {
  pd_lsn = record { xlogid = word_at 4 page 0; xrecoff = word_at 4 page 4 };
  pd_checksum = word_at 2 page 8;
  pd_flags = word_at 2 page 10;
  pd_lower = word_at 2 page 12;
  pd_upper = word_at 2 page 14;
  pd_special = word_at 2 page 16;
  pd_pagesize_version =
      bit_or (bit_and (word_at 2 page 18) 0xff00) (bit_and (word_at 2 page 18) 0x00ff);
  pd_prune_xid = word_at 4 page 20;
}

parse_header-in : (page : Bytes) → 24 ≤ length page → parse_header page ≡ ok (header_at page)
unfolding parse_header read_page_header
parse_header-in page h = rw (
  le→ltb (length page) 24 h,
  read_word-in 4 page 0 (omega arith),
  read_word-in 4 page 4 (omega arith),
  read_word-in 2 page 8 (omega arith),
  read_word-in 2 page 10 (omega arith),
  read_word-in 2 page 12 (omega arith),
  read_word-in 2 page 14 (omega arith),
  read_word-in 2 page 16 (omega arith),
  read_word-in 2 page 18 (omega arith),
  read_word-in 4 page 20 (omega arith),
)

-- The number of line pointers that `pd_lower` announces.
abbrev pub announced : Bytes → ℕ
announced page = (word_at 2 page 12 - 24) / 4

abbrev pub page_at : Bytes → HeapPageData
page_at page = record {
  header = header_at page;
  lp_num = announced page;
  lp_items = slots page 0 (announced page);
  page_data = page;
}

-- What each result of `parse_bytes` says of the buffer.
abbrev pub Accounts : Bytes → Result PgError HeapPageData → Type 0
Accounts page (ok p) =
    (page_buffer_size ≤ length page) × (24 + announced page * 4 ≤ length page) × (p ≡ page_at page)
Accounts page (err e) =
    (length page < page_buffer_size)
    × (e ≡ PgError.page_buffer_too_short (length page) page_buffer_size)
Accounts page panic = (page_buffer_size ≤ length page) × (length page < 24 + announced page * 4)

-- On every buffer `parse_bytes` refuses a short one, with its size; reads the page header and all the
-- line pointers below `pd_lower` where the last of them lies in the buffer; and panics exactly where
-- it does not.
pub parse_bytes-Accounts : (page : Bytes) → Accounts page (parse_bytes page)
unfolding parse_bytes parse_page num_line_pointers
parse_bytes-Accounts page = elim (dec_le page_buffer_size (length page)) [
  | yes h ↦
      rw (le→ltb (length page) page_buffer_size h, parse_header-in page (omega arith))
        (elim (dec_le (24 + announced page * 4) (length page)) [
          | yes inside ↦
              rw (read_line_pointers-in page 0 (announced page) (omega arith)) (h, inside, refl)
          | no out ↦
              rw (read_line_pointers-out page 0 (announced page) (omega arith) (omega arith))
                (h, omega arith)
        ])
  | no h ↦ rw (lt→ltb (length page) page_buffer_size (omega arith)) (omega arith, refl)
]

-- The page size and the layout version are the two bytes of one word of the header, and putting them
-- together by `|`, as `PageHeaderData::parse` does, gives the word.
pub pagesize_version :
    (page : Bytes)
    → All IsByte page
    → 24 ≤ length page
    → ((header_at page).pd_pagesize_version ≡ word_at 2 page 18)
      × (page_size (header_at page) + page_version (header_at page) ≡ word_at 2 page 18)
      × (page_size (header_at page) % 256 ≡ 0)
unfolding page_size page_version
pagesize_version page h l =
    let w = word_at 2 page 18 in
    let fits : w < 2 ^ 16 = word_at-lt 2 page 18 h (omega arith) in
    let high : bit_and w 0xff00 ≡ w / 256 * 256 =
      omega (arith, bit_and-field_at 8 8 w {m = 0xff00} refl) in
    let low : bit_and w 0x00ff ≡ w % 256 = bit_and-ones 8 w in
    let joined : bit_or (bit_and w 0xff00) (bit_and w 0x00ff) ≡ w =
      rw (high, low) (omega (arith, bit_or-add 8 (w / 256) (w % 256))) in
    (joined, rw joined (omega (arith, high, low)), rw joined (omega (arith, high)))
