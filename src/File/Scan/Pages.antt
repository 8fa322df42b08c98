-- ===== src/File/Scan/Pages.antt =====
-- The pages that an iterator is given, and the rows on them.
use Prim.Native.Nat.{max}
use mathlib.Core.Path.{subst}
use pg_arrow.Base.{
  ℕ, zero, suc, ◌+◌, ◌%◌, ◌^◌, ◌≤◌, ◌<◌, ◌≡◌, refl, arith, List, [], ◌∷◌, ◌++◌, none, Result, ok,
  err, panic, ◌>>=◌, length, get_elem?, inl, inr,
}
use pg_arrow.File.Error.{PgError, generic}
use pg_arrow.Heap.Tuple.{block_number, HeapTupleData, from_u32}
use pg_arrow.Heap.Tuple.Masks.{block_number-from_u32}
use pg_arrow.Heap.Page.{HeapPageData, get_row_data}
use pg_arrow.Heap.Page.Rows.{Accounts, get_row_data-Accounts}
use pg_arrow.File.Scan.{next_block}

-- As many line pointers as the page says, of which a 16-bit number tells each.
abbrev pub IsPage : HeapPageData → Type 0
IsPage page = (length page.lp_items ≡ page.lp_num) × (page.lp_num ≤ 2 ^ 16)

-- A row in front, where there is one.
unfoldable pub add_row : Result PgError HeapTupleData → List HeapTupleData → List HeapTupleData
add_row (ok row) rows = row ∷ rows
add_row _ rows = rows

-- The rows of `n` slots from slot `i` on.
unfoldable pub slot_rows : HeapPageData → (i n : ℕ) → List HeapTupleData
slot_rows page i zero = []
slot_rows page i (suc n) = add_row (get_row_data page i) (slot_rows page (suc i) n)

unfoldable pub page_rows : HeapPageData → List HeapTupleData
page_rows page = slot_rows page 0 page.lp_num

unfoldable pub rows_of : List HeapPageData → List HeapTupleData
rows_of [] = []
rows_of (page ∷ pages) = page_rows page ++ rows_of pages

-- A round for each slot, and for a page without slots.
abbrev pub rounds : List HeapPageData → ℕ
rounds [] = 0
rounds (page ∷ pages) = max 1 page.lp_num + rounds pages

-- A page reader that gives these pages from index `i` on, and then an error.
module _ {S : Type 0} (get_page_by_index : S → ℕ → Result PgError HeapPageData × S) where
  abbrev pub Serves : S → ℕ → List HeapPageData → Type 0
  Serves s i [] = (e : PgError) × (s' : S) × (get_page_by_index s i ≡ (err e, s'))
  Serves s i (page ∷ pages) =
      (s' : S) × (get_page_by_index s i ≡ (ok page, s')) × Serves s' (suc i) pages

-- A loop over rows, up to the first error of its body.
module _ {A : Type 0} (visit : A → HeapTupleData → Result PgError A) where
  unfoldable pub visit_all : A → List HeapTupleData → Result PgError A
  visit_all a [] = ok a
  visit_all a (row ∷ rows) = visit a row >>= λ a'. visit_all a' rows

nothing_at : {A : Type 0} (xs : List A) → length xs ≡ 0 → get_elem? xs 0 ≡ none
nothing_at [] h = refl
nothing_at (x ∷ xs) h = absurd (omega arith)

-- Slot 0 of a page without slots.
pub get_row_data-empty :
    (page : HeapPageData) → page.lp_num ≡ 0 → IsPage page → get_row_data page 0 ≡ err generic
unfolding get_row_data
get_row_data-empty page h (k, small) =
    rw (nothing_at page.lp_items (omega arith), get_row_data) refl

pub get_row_data-ne-panic : (page : HeapPageData) (i : ℕ) → ¬ get_row_data page i ≡ panic
get_row_data-ne-panic page i h = refuse (subst (Accounts page i) h (get_row_data-Accounts page i))
  where
    refuse : Accounts page i panic → ⊥
    refuse (inl (out, e)) = cc
    refuse (inr (lp, found, inl (dead, e))) = cc
    refuse (inr (lp, found, inr (normal, e))) = e

pub next_block-suc : (b : ℕ) → b + 1 < 2 ^ 32 → block_number (next_block b) ≡ b + 1
unfolding next_block
next_block-suc b h =
    let (joined, split) = block_number-from_u32 (b + 1) 0 0 h (omega arith) (omega arith) in
    let whole : (b + 1) % 2 ^ 32 ≡ b + 1 = omega arith in unfold from_u32 in rw whole joined
