-- ===== src/Table/Rows/Nulls.antt =====
-- Which columns of a row are NULL.
use pg_arrow.Base.{ℕ, ◌+◌, ◌≡◌, ◌↔◌, true, List, some, get_elem?}
use pg_arrow.Types.Datum.{PgDatum}
use pg_arrow.Heap.Tuple.{HeapTupleData, is_null}

-- Column `k` of the walk from column `i` on is NULL in the tuple, and in the row.
abbrev Agrees : HeapTupleData → ℕ → List PgDatum → ℕ → Type 0
Agrees t i row k = (is_null t (i + k) ≡ true) ↔ (get_elem? row k ≡ some PgDatum.null)
