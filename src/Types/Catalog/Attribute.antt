-- ===== src/Types/Catalog/Attribute.antt =====
-- src/types/pg_type.rs: `PgAttribute` and `PgAttribute::from_row`, and the row against `decode_row`.
use pg_arrow.Base.{Result, ok, ◌≡◌, ◌≤◌, List}
use pg_arrow.Types.Datum.{PgDatum}
use pg_arrow.Types.Schema.{PgSchema, PgAttribute, num_columns}
use pg_arrow.File.Error.{PgError}
use pg_arrow.Heap.Tuple.{HeapTupleData}
use pg_arrow.Table.Rows.{decode_row}
use pg_arrow.Types.Catalog.Cursor.{
  Cursor, field, pure, ◌>>=◌, run, as_bool, as_i16, as_i32, as_name_str, as_u32, as_u8,
}
use pg_arrow.Types.Catalog.Reads.{Reads, reads_rules, datum_of, run-Reads}

-- The fields in the order of the columns.
read_fields : HeapTupleData → PgSchema → Cursor PgAttribute
read_fields tuple schema = do
  attrelid ← field tuple schema as_u32 0
  attname ← field tuple schema as_name_str 1
  atttypid ← field tuple schema as_u32 2
  attlen ← field tuple schema as_i16 3
  attnum ← field tuple schema as_i16 4
  atttypmod ← field tuple schema as_i32 5
  attndims ← field tuple schema as_i16 6
  attbyval ← field tuple schema as_bool 7
  attalign ← field tuple schema as_u8 8
  attstorage ← field tuple schema as_u8 9
  attcompression ← field tuple schema as_u8 10
  attnotnull ← field tuple schema as_bool 11
  atthasdef ← field tuple schema as_bool 12
  atthasmissing ← field tuple schema as_bool 13
  attidentity ← field tuple schema as_u8 14
  attgenerated ← field tuple schema as_u8 15
  attisdropped ← field tuple schema as_bool 16
  attislocal ← field tuple schema as_bool 17
  attinhcount ← field tuple schema as_i16 18
  attcollation ← field tuple schema as_u32 19
  pure (record {
    attrelid = attrelid;
    attname = attname;
    atttypid = atttypid;
    attlen = attlen;
    attnum = attnum;
    atttypmod = atttypmod;
    attndims = attndims;
    attbyval = attbyval;
    attalign = attalign;
    attstorage = attstorage;
    attcompression = attcompression;
    attnotnull = attnotnull;
    atthasdef = atthasdef;
    atthasmissing = atthasmissing;
    attidentity = attidentity;
    attgenerated = attgenerated;
    attisdropped = attisdropped;
    attislocal = attislocal;
    attinhcount = attinhcount;
    attcollation = attcollation;
  })

unfoldable pub from_row : HeapTupleData → PgSchema → Result PgError PgAttribute
unfolding read_fields
from_row tuple schema = run (read_fields tuple schema)

-- The fields, each from its column of a decoded row.
abbrev pub attribute_of : List PgDatum → PgAttribute
attribute_of row = record {
  attrelid = as_u32 (datum_of row 0);
  attname = as_name_str (datum_of row 1);
  atttypid = as_u32 (datum_of row 2);
  attlen = as_i16 (datum_of row 3);
  attnum = as_i16 (datum_of row 4);
  atttypmod = as_i32 (datum_of row 5);
  attndims = as_i16 (datum_of row 6);
  attbyval = as_bool (datum_of row 7);
  attalign = as_u8 (datum_of row 8);
  attstorage = as_u8 (datum_of row 9);
  attcompression = as_u8 (datum_of row 10);
  attnotnull = as_bool (datum_of row 11);
  atthasdef = as_bool (datum_of row 12);
  atthasmissing = as_bool (datum_of row 13);
  attidentity = as_u8 (datum_of row 14);
  attgenerated = as_u8 (datum_of row 15);
  attisdropped = as_bool (datum_of row 16);
  attislocal = as_bool (datum_of row 17);
  attinhcount = as_i16 (datum_of row 18);
  attcollation = as_u32 (datum_of row 19);
}

read_fields-Reads :
    (t : HeapTupleData) (s : PgSchema) (row : List PgDatum)
    → Reads t s row (read_fields t s) 0 20 (attribute_of row)
unfolding read_fields
read_fields-Reads t s row = search reads_rules depth 40

-- Where `decode_row` gives a row of at least 20 columns, `PgAttribute::from_row` gives on the same tuple and
-- schema the `PgAttribute` whose fields are the row's columns in their order: a NULL, or a datum of another
-- kind than the field's, is the default of the field.
pub from_row-attribute_of :
    (t : HeapTupleData) (s : PgSchema) (row : List PgDatum)
    → decode_row t s ≡ ok row
    → 20 ≤ num_columns s
    → from_row t s ≡ ok (attribute_of row)
unfolding from_row read_fields
from_row-attribute_of t s row h wide = run-Reads t s row (read_fields-Reads t s row) h wide
