-- ===== src/File/Scan/Tests.antt =====
-- A loop over a page of one row.
use pg_arrow.Base.{ℕ, ◌+◌, ◌≡◌, refl, arith, [], ◌∷◌, some, Result, ok, err, ◌==◌, if◌then◌else◌}
use pg_arrow.File.Error.{PgError, generic}
use pg_arrow.Heap.Tuple.{HeapTupleData}
use pg_arrow.Heap.Page.{HeapPageData}
use pg_arrow.Heap.Page.Tests.{one_row}
use pg_arrow.File.Scan.Pages.{rows_of, visit_all}
use pg_arrow.File.Scan.Visits.{for_each_row-rows_of}
use pg_arrow.File.Scan.{for_each_row, into_iter}

abbrev page_at : Unit {0} → ℕ → Result PgError HeapPageData × Unit {0}
page_at reader i = if i == 0 then (ok one_row, tt) else (err generic, tt)

abbrev count : ℕ → HeapTupleData → Result PgError ℕ
count n row = ok (n + 1)

for_each_row-rows_of_example :
    for_each_row page_at count 2 (into_iter tt) 0
    ≡ some (visit_all count 0 (rows_of (one_row ∷ [])))
for_each_row-rows_of_example =
    for_each_row-rows_of page_at count tt (one_row ∷ []) 2 0 (tt, refl, (generic, tt, refl))
      ((omega arith, omega arith), tt) (omega arith) (omega arith)
