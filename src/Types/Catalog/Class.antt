-- ===== src/Types/Catalog/Class.antt =====
-- src/types/pg_type.rs: `PgClass` and `PgClass::from_row`, and the row against `decode_row`.
use pg_arrow.Base.{Bytes, Result, ok, ◌≡◌, ◌≤◌, List, ℕ, Bool}
use pg_arrow.Base.Int.{ℤ}
use pg_arrow.Types.Datum.{PgDatum}
use pg_arrow.Types.Schema.{PgSchema, num_columns}
use pg_arrow.File.Error.{PgError}
use pg_arrow.Heap.Tuple.{HeapTupleData}
use pg_arrow.Table.Rows.{decode_row}
use pg_arrow.Types.Catalog.Cursor.{
  Cursor, field, pure, ◌>>=◌, run, as_bool, as_f32, as_i16, as_i32, as_name_str, as_u32, as_u8,
}
use pg_arrow.Types.Catalog.Reads.{Reads, reads_rules, datum_of, run-Reads}

pub record PgClass : Type 0 where
  pub oid : ℕ
  pub relname : Bytes
  pub relnamespace : ℕ
  pub reltype : ℕ
  pub reloftype : ℕ
  pub relowner : ℕ
  pub relam : ℕ
  pub relfilenode : ℕ
  pub reltablespace : ℕ
  pub relpages : ℤ
  pub reltuples : ℕ
  pub relallvisible : ℤ
  pub relallfrozen : ℤ
  pub reltoastrelid : ℕ
  pub relhasindex : Bool
  pub relisshared : Bool
  pub relpersistence : ℕ
  pub relkind : ℕ
  pub relnatts : ℤ
  pub relchecks : ℤ
  pub relhasrules : Bool
  pub relhastriggers : Bool
  pub relhassubclass : Bool
  pub relrowsecurity : Bool
  pub relforcerowsecurity : Bool
  pub relispopulated : Bool
  pub relreplident : ℕ
  pub relispartition : Bool
  pub relrewrite : ℕ
  pub relfrozenxid : ℕ
  pub relminmxid : ℕ

-- The fields in the order of the columns.
read_fields : HeapTupleData → PgSchema → Cursor PgClass
read_fields tuple schema = do
  oid ← field tuple schema as_u32 0
  relname ← field tuple schema as_name_str 1
  relnamespace ← field tuple schema as_u32 2
  reltype ← field tuple schema as_u32 3
  reloftype ← field tuple schema as_u32 4
  relowner ← field tuple schema as_u32 5
  relam ← field tuple schema as_u32 6
  relfilenode ← field tuple schema as_u32 7
  reltablespace ← field tuple schema as_u32 8
  relpages ← field tuple schema as_i32 9
  reltuples ← field tuple schema as_f32 10
  relallvisible ← field tuple schema as_i32 11
  relallfrozen ← field tuple schema as_i32 12
  reltoastrelid ← field tuple schema as_u32 13
  relhasindex ← field tuple schema as_bool 14
  relisshared ← field tuple schema as_bool 15
  relpersistence ← field tuple schema as_u8 16
  relkind ← field tuple schema as_u8 17
  relnatts ← field tuple schema as_i16 18
  relchecks ← field tuple schema as_i16 19
  relhasrules ← field tuple schema as_bool 20
  relhastriggers ← field tuple schema as_bool 21
  relhassubclass ← field tuple schema as_bool 22
  relrowsecurity ← field tuple schema as_bool 23
  relforcerowsecurity ← field tuple schema as_bool 24
  relispopulated ← field tuple schema as_bool 25
  relreplident ← field tuple schema as_u8 26
  relispartition ← field tuple schema as_bool 27
  relrewrite ← field tuple schema as_u32 28
  relfrozenxid ← field tuple schema as_u32 29
  relminmxid ← field tuple schema as_u32 30
  pure (record {
    oid = oid;
    relname = relname;
    relnamespace = relnamespace;
    reltype = reltype;
    reloftype = reloftype;
    relowner = relowner;
    relam = relam;
    relfilenode = relfilenode;
    reltablespace = reltablespace;
    relpages = relpages;
    reltuples = reltuples;
    relallvisible = relallvisible;
    relallfrozen = relallfrozen;
    reltoastrelid = reltoastrelid;
    relhasindex = relhasindex;
    relisshared = relisshared;
    relpersistence = relpersistence;
    relkind = relkind;
    relnatts = relnatts;
    relchecks = relchecks;
    relhasrules = relhasrules;
    relhastriggers = relhastriggers;
    relhassubclass = relhassubclass;
    relrowsecurity = relrowsecurity;
    relforcerowsecurity = relforcerowsecurity;
    relispopulated = relispopulated;
    relreplident = relreplident;
    relispartition = relispartition;
    relrewrite = relrewrite;
    relfrozenxid = relfrozenxid;
    relminmxid = relminmxid;
  })

unfoldable pub from_row : HeapTupleData → PgSchema → Result PgError PgClass
unfolding read_fields
from_row tuple schema = run (read_fields tuple schema)

-- The fields, each from its column of a decoded row.
abbrev pub class_of : List PgDatum → PgClass
class_of row = record {
  oid = as_u32 (datum_of row 0);
  relname = as_name_str (datum_of row 1);
  relnamespace = as_u32 (datum_of row 2);
  reltype = as_u32 (datum_of row 3);
  reloftype = as_u32 (datum_of row 4);
  relowner = as_u32 (datum_of row 5);
  relam = as_u32 (datum_of row 6);
  relfilenode = as_u32 (datum_of row 7);
  reltablespace = as_u32 (datum_of row 8);
  relpages = as_i32 (datum_of row 9);
  reltuples = as_f32 (datum_of row 10);
  relallvisible = as_i32 (datum_of row 11);
  relallfrozen = as_i32 (datum_of row 12);
  reltoastrelid = as_u32 (datum_of row 13);
  relhasindex = as_bool (datum_of row 14);
  relisshared = as_bool (datum_of row 15);
  relpersistence = as_u8 (datum_of row 16);
  relkind = as_u8 (datum_of row 17);
  relnatts = as_i16 (datum_of row 18);
  relchecks = as_i16 (datum_of row 19);
  relhasrules = as_bool (datum_of row 20);
  relhastriggers = as_bool (datum_of row 21);
  relhassubclass = as_bool (datum_of row 22);
  relrowsecurity = as_bool (datum_of row 23);
  relforcerowsecurity = as_bool (datum_of row 24);
  relispopulated = as_bool (datum_of row 25);
  relreplident = as_u8 (datum_of row 26);
  relispartition = as_bool (datum_of row 27);
  relrewrite = as_u32 (datum_of row 28);
  relfrozenxid = as_u32 (datum_of row 29);
  relminmxid = as_u32 (datum_of row 30);
}

read_fields-Reads :
    (t : HeapTupleData) (s : PgSchema) (row : List PgDatum)
    → Reads t s row (read_fields t s) 0 31 (class_of row)
unfolding read_fields
read_fields-Reads t s row = search reads_rules depth 40

-- Where `decode_row` gives a row of at least 31 columns, `PgClass::from_row` gives on the same tuple and
-- schema the `PgClass` whose fields are the row's columns in their order: a NULL, or a datum of another
-- kind than the field's, is the default of the field.
pub from_row-class_of :
    (t : HeapTupleData) (s : PgSchema) (row : List PgDatum)
    → decode_row t s ≡ ok row
    → 31 ≤ num_columns s
    → from_row t s ≡ ok (class_of row)
unfolding from_row read_fields
from_row-class_of t s row h wide = run-Reads t s row (read_fields-Reads t s row) h wide
