-- ===== src/Types/Catalog/ClassFields.antt =====
-- src/types/pg_type.rs: what each field of `PgClass` says of its column.
use pg_arrow.Base.{◌≤◌, ◌≡◌, arith, List, ok, length}
use pg_arrow.Types.Datum.{PgDatum}
use pg_arrow.Types.Schema.{PgSchema, num_columns}
use pg_arrow.Heap.Tuple.{HeapTupleData}
use pg_arrow.Table.Rows.{decode_row}
use pg_arrow.Table.Rows.Project.{length-decode_row}
use pg_arrow.Types.Catalog.Class.{PgClass, class_of, from_row, from_row-class_of}
use pg_arrow.Types.Catalog.Values.{
  IsU32, IsI32, IsI16, IsF32, IsBool, IsU8, IsText, ColumnIs, column-IsU32, column-IsI32,
  column-IsI16, column-IsF32, column-IsBool, column-IsU8, column-IsText,
}

-- The fields, each against its column.
abbrev pub IsClass : List PgDatum → PgClass → Type 0
IsClass row c =
    ColumnIs row 0 IsU32 c.oid
    × ColumnIs row 1 IsText c.relname
    × ColumnIs row 2 IsU32 c.relnamespace
    × ColumnIs row 3 IsU32 c.reltype
    × ColumnIs row 4 IsU32 c.reloftype
    × ColumnIs row 5 IsU32 c.relowner
    × ColumnIs row 6 IsU32 c.relam
    × ColumnIs row 7 IsU32 c.relfilenode
    × ColumnIs row 8 IsU32 c.reltablespace
    × ColumnIs row 9 IsI32 c.relpages
    × ColumnIs row 10 IsF32 c.reltuples
    × ColumnIs row 11 IsI32 c.relallvisible
    × ColumnIs row 12 IsI32 c.relallfrozen
    × ColumnIs row 13 IsU32 c.reltoastrelid
    × ColumnIs row 14 IsBool c.relhasindex
    × ColumnIs row 15 IsBool c.relisshared
    × ColumnIs row 16 IsU8 c.relpersistence
    × ColumnIs row 17 IsU8 c.relkind
    × ColumnIs row 18 IsI16 c.relnatts
    × ColumnIs row 19 IsI16 c.relchecks
    × ColumnIs row 20 IsBool c.relhasrules
    × ColumnIs row 21 IsBool c.relhastriggers
    × ColumnIs row 22 IsBool c.relhassubclass
    × ColumnIs row 23 IsBool c.relrowsecurity
    × ColumnIs row 24 IsBool c.relforcerowsecurity
    × ColumnIs row 25 IsBool c.relispopulated
    × ColumnIs row 26 IsU8 c.relreplident
    × ColumnIs row 27 IsBool c.relispartition
    × ColumnIs row 28 IsU32 c.relrewrite
    × ColumnIs row 29 IsU32 c.relfrozenxid
    × ColumnIs row 30 IsU32 c.relminmxid

class_of-IsClass : (row : List PgDatum) → 31 ≤ length row → IsClass row (class_of row)
class_of-IsClass row h = (
  column-IsU32 row 0 (omega arith),
  column-IsText row 1 (omega arith),
  column-IsU32 row 2 (omega arith),
  column-IsU32 row 3 (omega arith),
  column-IsU32 row 4 (omega arith),
  column-IsU32 row 5 (omega arith),
  column-IsU32 row 6 (omega arith),
  column-IsU32 row 7 (omega arith),
  column-IsU32 row 8 (omega arith),
  column-IsI32 row 9 (omega arith),
  column-IsF32 row 10 (omega arith),
  column-IsI32 row 11 (omega arith),
  column-IsI32 row 12 (omega arith),
  column-IsU32 row 13 (omega arith),
  column-IsBool row 14 (omega arith),
  column-IsBool row 15 (omega arith),
  column-IsU8 row 16 (omega arith),
  column-IsU8 row 17 (omega arith),
  column-IsI16 row 18 (omega arith),
  column-IsI16 row 19 (omega arith),
  column-IsBool row 20 (omega arith),
  column-IsBool row 21 (omega arith),
  column-IsBool row 22 (omega arith),
  column-IsBool row 23 (omega arith),
  column-IsBool row 24 (omega arith),
  column-IsBool row 25 (omega arith),
  column-IsU8 row 26 (omega arith),
  column-IsBool row 27 (omega arith),
  column-IsU32 row 28 (omega arith),
  column-IsU32 row 29 (omega arith),
  column-IsU32 row 30 (omega arith),
)

-- Where `decode_row` gives a row of at least 31 columns, `PgClass::from_row` gives on the same tuple and
-- schema a `PgClass` in which each field has the value of the column of its number: that of a datum of
-- the field's kind (an OID or a transaction for the unsigned ones of 32 bits), and 0, false or the empty
-- name where the column is NULL or a datum of another kind.
pub from_row-IsClass :
    (t : HeapTupleData) (s : PgSchema) (row : List PgDatum)
    → decode_row t s ≡ ok row
    → 31 ≤ num_columns s
    → (c : PgClass) × (from_row t s ≡ ok c) × IsClass row c
from_row-IsClass t s row h wide = (
  class_of row,
  from_row-class_of t s row h wide,
  class_of-IsClass row (omega (arith, length-decode_row t s row h)),
)
