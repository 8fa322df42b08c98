-- ===== src/Types/Catalog/Database.antt =====
-- src/types/pg_type.rs: `PgDatabase` and `PgDatabase::from_row`, and the row against `decode_row`.
use pg_arrow.Base.{Bytes, Result, ok, ◌≡◌, ◌≤◌, List, ℕ}
use pg_arrow.Types.Datum.{PgDatum}
use pg_arrow.Types.Schema.{PgSchema, num_columns}
use pg_arrow.File.Error.{PgError}
use pg_arrow.Heap.Tuple.{HeapTupleData}
use pg_arrow.Table.Rows.{decode_row}
use pg_arrow.Types.Catalog.Cursor.{Cursor, field, pure, ◌>>=◌, run, as_name_str, as_u32}
use pg_arrow.Types.Catalog.Reads.{Reads, reads_rules, datum_of, run-Reads}

pub record PgDatabase : Type 0 where
  pub oid : ℕ
  pub datname : Bytes

-- The fields in the order of the columns.
read_fields : HeapTupleData → PgSchema → Cursor PgDatabase
read_fields tuple schema = do
  oid ← field tuple schema as_u32 0
  datname ← field tuple schema as_name_str 1
  pure (record { oid = oid; datname = datname })

unfoldable pub from_row : HeapTupleData → PgSchema → Result PgError PgDatabase
unfolding read_fields
from_row tuple schema = run (read_fields tuple schema)

-- The fields, each from its column of a decoded row.
abbrev pub database_of : List PgDatum → PgDatabase
database_of row = record { oid = as_u32 (datum_of row 0); datname = as_name_str (datum_of row 1) }

read_fields-Reads :
    (t : HeapTupleData) (s : PgSchema) (row : List PgDatum)
    → Reads t s row (read_fields t s) 0 2 (database_of row)
unfolding read_fields
read_fields-Reads t s row = search reads_rules depth 40

-- Where `decode_row` gives a row of at least 2 columns, `PgDatabase::from_row` gives on the same tuple and
-- schema the `PgDatabase` whose fields are the row's columns in their order: a NULL, or a datum of another
-- kind than the field's, is the default of the field.
pub from_row-database_of :
    (t : HeapTupleData) (s : PgSchema) (row : List PgDatum)
    → decode_row t s ≡ ok row
    → 2 ≤ num_columns s
    → from_row t s ≡ ok (database_of row)
unfolding from_row read_fields
from_row-database_of t s row h wide = run-Reads t s row (read_fields-Reads t s row) h wide
