-- ===== src/Heap/Page/Rows.antt =====
-- `get_row_data` on every page and slot.
use native.Mathlib.Decide.{dec_le, ℕ_discrete}
use pg_arrow.Base.{
  ℕ, ◌+◌, ◌≤◌, ◌<◌, ◌≡◌, ◌≢◌, ◌⊎◌, inl, inr, refl, arith, Bytes, none, some, Result, ok, err, panic,
  length, get_elem?, get_range-in, get_range-out, sub_list, Option-cases,
}
use pg_arrow.File.Error.{PgError}
use pg_arrow.Heap.Tuple.{HeapTupleData, parse_and_build}
use pg_arrow.Heap.Tuple.Build.{IsBuilt, Refused, parse_and_build-Accounts}
use pg_arrow.Heap.Page.{HeapPageData, lp_off, lp_flags, lp_len, lp_normal, row_at, get_row_data}
use pg_arrow.Heap.Page.LinePointers.{lp_flags-lt}

abbrev pub tuple_bytes : Bytes → ℕ → Bytes
tuple_bytes page lp = sub_list page (lp_off lp) (lp_off lp + lp_len lp)

-- The row of a normal line pointer.
abbrev FromPointer : Bytes → ℕ → Result PgError HeapTupleData → Type 0
FromPointer page lp (ok t) = (lp_off lp + lp_len lp ≤ length page) × IsBuilt (tuple_bytes page lp) t
FromPointer page lp (err e) =
    ((length page < lp_off lp + lp_len lp) × (e ≡ PgError.generic))
    ⊎ ((lp_off lp + lp_len lp ≤ length page) × Refused (tuple_bytes page lp) e)
FromPointer page lp panic = ⊥

row_at-FromPointer : (page : Bytes) (lp : ℕ) → FromPointer page lp (row_at page lp)
unfolding row_at
row_at-FromPointer page lp = elim (dec_le (lp_off lp + lp_len lp) (length page)) [
  | yes h ↦ rw (get_range-in page (lp_off lp) (lp_off lp + lp_len lp) (omega arith) h) (
      go (parse_and_build (tuple_bytes page lp)) h (parse_and_build-Accounts (tuple_bytes page lp)))
  | no h ↦
      rw (get_range-out page (lp_off lp) (lp_off lp + lp_len lp) (omega arith))
        (inl (omega arith, refl))
]
  where
    go :
        (r : Result PgError HeapTupleData)
        → lp_off lp + lp_len lp ≤ length page
        → pg_arrow.Heap.Tuple.Build.Accounts (tuple_bytes page lp) r
        → FromPointer page lp r
    go (ok t) h a = (h, a)
    go (err e) h a = inr (h, a)
    go panic h a = a

-- The three outcomes of `get_row_data`, by the slot.
abbrev pub Accounts : HeapPageData → ℕ → Result PgError HeapTupleData → Type 0
Accounts page i r =
    ((get_elem? page.lp_items i ≡ none) × (r ≡ err PgError.generic))
    ⊎ ((lp : ℕ) × (get_elem? page.lp_items i ≡ some lp)
        × ((lp_flags lp ≢ lp_normal) × (r ≡ err (PgError.dead_tuple_line_pointer i))
            ⊎ (lp_flags lp ≡ lp_normal) × FromPointer page.page_data lp r))

-- For every page and slot number, `get_row_data` refuses a slot that is not there; answers
-- `DeadTupleLinePointer` for every line pointer whose state is not `LP_NORMAL`; and else builds the
-- tuple from exactly the bytes the pointer designates, or refuses them because they are not all in
-- the page or for a reason of `parse_and_build`. It never panics.
pub get_row_data-Accounts : (page : HeapPageData) (i : ℕ) → Accounts page i (get_row_data page i)
unfolding get_row_data
get_row_data-Accounts page i = elim (Option-cases (get_elem? page.lp_items i)) [
  | inl out ↦ inl (out, rw out)
  | inr (lp, found) ↦ inr (
    lp,
    found,
    elim (ℕ_discrete (lp_flags lp) lp_normal) [
      | yes normal ↦ inr (normal, rw (found, normal) (row_at-FromPointer page.page_data lp))
      | no dead ↦ inl (dead, rw found (ground (arith, lp_flags-lt lp)))
    ],
  )
]
