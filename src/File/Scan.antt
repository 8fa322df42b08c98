-- ===== src/File/Scan.antt =====
-- src/file/reader.rs: `PageRowIter`, the tuples of a relation in the order of its pages, and the loop
-- `for row_result in page_reader.into_iter()` of src/table/mod.rs over it.
pub mod Pages
pub mod Visits
pub mod OnDisk
mod Tests
use pg_arrow.Base.{
  ℕ, zero, suc, ◌+◌, ◌-◌, ◌/◌, ◌%◌, ◌^◌, Option, none, some, Result, ok, err, panic, leb,
  if◌then◌else◌,
}
use pg_arrow.File.Error.{PgError}
use pg_arrow.Heap.Tuple.{BlockIdData, block_number, ItemPointerData, HeapTupleData}
use pg_arrow.Heap.Page.{HeapPageData, get_row_data}

-- The iterator; `current_row_info` is the `ctid` that its `RowInfo` holds.
pub record PageRowIter (S : Type 0) : Type 0 where
  pub page_reader : S
  pub current_row_info : Option ItemPointerData
  pub current_page : Option HeapPageData

unfoldable pub into_iter : {S : Type 0} → S → PageRowIter S
into_iter reader = record { page_reader = reader; current_row_info = none; current_page = none }

-- What one round of the loop of `next` does: it returns a row, goes round again, or returns `None`.
pub data Round (S : Type 0) : Type 0 where
  yield : HeapTupleData → PageRowIter S → Round S
  again : PageRowIter S → Round S
  finished : PageRowIter S → Round S
  crashed : Round S

-- The block number behind `n`, as it is assigned: `(n + 1) as u16` and `((n + 1) as u32 >> 16) as u16`.
unfoldable pub next_block : ℕ → BlockIdData
next_block n = record { bi_hi = (n + 1) % 2 ^ 32 / 2 ^ 16 % 2 ^ 16; bi_lo = (n + 1) % 2 ^ 16 }

-- `ip_posid.wrapping_add(1)`
unfoldable pub next_tid : ItemPointerData → ItemPointerData
next_tid tid = record { ip_blkid = tid.ip_blkid; ip_posid = (tid.ip_posid + 1) % 2 ^ 16 }

-- The first slot of the first page.
abbrev pub first_tid : ItemPointerData
first_tid = record { ip_blkid = record { bi_hi = 0; bi_lo = 0 }; ip_posid = 0 }

-- The `ctid` in front of the first slot of the page behind: `u16::MAX` wraps to 0.
unfoldable pub page_start : BlockIdData → ItemPointerData
unfolding next_block
page_start blkid = record { ip_blkid = next_block (block_number blkid); ip_posid = 2 ^ 16 - 1 }

module _ {S : Type 0} (get_page_by_index : S → ℕ → Result PgError HeapPageData × S) where
  -- A row that is there is returned; every error is passed over.
  unfoldable pub emit : PageRowIter S → Result PgError HeapTupleData → Round S
  emit iter (ok row) = yield row iter
  emit iter (err e) = again iter
  emit iter panic = crashed

  -- The row of the slot `tid` of `page`.
  unfoldable pub at_slot : S → HeapPageData → ItemPointerData → Round S
  unfolding emit
  at_slot reader page tid =
      emit (record { page_reader = reader; current_row_info = some tid; current_page = some page })
        (get_row_data page tid.ip_posid)

  -- The page behind the one that is finished.
  unfoldable pub turn_page :
      HeapPageData → ItemPointerData → Result PgError HeapPageData × S → Round S
  unfolding at_slot
  turn_page page tid (ok page', reader) = at_slot reader page' (next_tid (page_start tid.ip_blkid))
  turn_page page tid (err e, reader) =
      finished
        (record { page_reader = reader; current_row_info = some tid; current_page = some page })
  turn_page page tid (panic, reader) = crashed

  -- The slot behind the last one, on this page or on the next.
  unfoldable pub on_page : S → HeapPageData → Option ItemPointerData → Round S
  unfolding at_slot turn_page
  on_page reader page none = at_slot reader page first_tid
  on_page reader page (some tid) =
      if leb page.lp_num (tid.ip_posid + 1)
      then turn_page page tid (get_page_by_index reader (block_number tid.ip_blkid + 1))
      else at_slot reader page (next_tid tid)

  unfoldable pub first_page : Option ItemPointerData → Result PgError HeapPageData × S → Round S
  unfolding on_page
  first_page info (ok page, reader) = on_page reader page info
  first_page info (err e, reader) =
      finished (record { page_reader = reader; current_row_info = info; current_page = none })
  first_page info (panic, reader) = crashed

  -- One round of the loop of `next`.
  unfoldable pub round : PageRowIter S → Round S
  unfolding on_page first_page
  round iter = elim iter.current_page [
    | some page ↦ on_page iter.page_reader page iter.current_row_info
    | none ↦ first_page iter.current_row_info (get_page_by_index iter.page_reader 0)
  ]

  -- The outcome of a loop over the rows; `none` is one that is still running when the fuel, a round for
  -- each, is used up.
  module _ {A : Type 0} (visit : A → HeapTupleData → Result PgError A) where
    abbrev pub Looped : Type 0
    Looped = Option (Result PgError A)

    -- The body of the loop on a row, and the loop behind it.
    unfoldable pub visit_row : (A → Looped) → Result PgError A → Looped
    visit_row rest (ok a) = rest a
    visit_row rest (err e) = some (err e)
    visit_row rest panic = some panic

    unfoldable pub after_round : (PageRowIter S → A → Looped) → A → Round S → Looped
    unfolding visit_row
    after_round rest a (yield row iter) = visit_row (rest iter) (visit a row)
    after_round rest a (again iter) = rest iter a
    after_round rest a (finished iter) = some (ok a)
    after_round rest a crashed = some panic

    unfoldable pub for_each_row : ℕ → PageRowIter S → A → Looped
    unfolding after_round
    for_each_row zero iter a = none
    for_each_row (suc fuel) iter a = after_round (for_each_row fuel) a (round iter)
