-- ===== src/Types/Catalog/TypeRow.antt =====
-- src/types/pg_type.rs: `PgType` and `PgType::from_row`, and the row against `decode_row`.
use pg_arrow.Base.{Bytes, Result, ok, ◌≡◌, ◌≤◌, List, ℕ, Bool}
use pg_arrow.Base.Int.{ℤ}
use pg_arrow.Types.Datum.{PgDatum}
use pg_arrow.Types.Schema.{PgSchema, num_columns}
use pg_arrow.File.Error.{PgError}
use pg_arrow.Heap.Tuple.{HeapTupleData}
use pg_arrow.Table.Rows.{decode_row}
use pg_arrow.Types.Catalog.Cursor.{
  Cursor, field, pure, ◌>>=◌, run, as_bool, as_i16, as_i32, as_name_str, as_u32, as_u8,
}
use pg_arrow.Types.Catalog.Reads.{Reads, reads_rules, datum_of, run-Reads}

pub record PgType : Type 0 where
  pub oid : ℕ
  pub typname : Bytes
  pub typnamespace : ℕ
  pub typowner : ℕ
  pub typlen : ℤ
  pub typbyval : Bool
  pub typtype : ℕ
  pub typcategory : ℕ
  pub typispreferred : Bool
  pub typisdefined : Bool
  pub typdelim : ℕ
  pub typrelid : ℕ
  pub typsubscript : ℕ
  pub typelem : ℕ
  pub typarray : ℕ
  pub typinput : ℕ
  pub typoutput : ℕ
  pub typreceive : ℕ
  pub typsend : ℕ
  pub typmodin : ℕ
  pub typmodout : ℕ
  pub typanalyze : ℕ
  pub typalign : ℕ
  pub typstorage : ℕ
  pub typnotnull : Bool
  pub typbasetype : ℕ
  pub typtypmod : ℤ
  pub typndims : ℤ
  pub typcollation : ℕ

-- The fields in the order of the columns.
read_fields : HeapTupleData → PgSchema → Cursor PgType
read_fields tuple schema = do
  oid ← field tuple schema as_u32 0
  typname ← field tuple schema as_name_str 1
  typnamespace ← field tuple schema as_u32 2
  typowner ← field tuple schema as_u32 3
  typlen ← field tuple schema as_i16 4
  typbyval ← field tuple schema as_bool 5
  typtype ← field tuple schema as_u8 6
  typcategory ← field tuple schema as_u8 7
  typispreferred ← field tuple schema as_bool 8
  typisdefined ← field tuple schema as_bool 9
  typdelim ← field tuple schema as_u8 10
  typrelid ← field tuple schema as_u32 11
  typsubscript ← field tuple schema as_u32 12
  typelem ← field tuple schema as_u32 13
  typarray ← field tuple schema as_u32 14
  typinput ← field tuple schema as_u32 15
  typoutput ← field tuple schema as_u32 16
  typreceive ← field tuple schema as_u32 17
  typsend ← field tuple schema as_u32 18
  typmodin ← field tuple schema as_u32 19
  typmodout ← field tuple schema as_u32 20
  typanalyze ← field tuple schema as_u32 21
  typalign ← field tuple schema as_u8 22
  typstorage ← field tuple schema as_u8 23
  typnotnull ← field tuple schema as_bool 24
  typbasetype ← field tuple schema as_u32 25
  typtypmod ← field tuple schema as_i32 26
  typndims ← field tuple schema as_i32 27
  typcollation ← field tuple schema as_u32 28
  pure (record {
    oid = oid;
    typname = typname;
    typnamespace = typnamespace;
    typowner = typowner;
    typlen = typlen;
    typbyval = typbyval;
    typtype = typtype;
    typcategory = typcategory;
    typispreferred = typispreferred;
    typisdefined = typisdefined;
    typdelim = typdelim;
    typrelid = typrelid;
    typsubscript = typsubscript;
    typelem = typelem;
    typarray = typarray;
    typinput = typinput;
    typoutput = typoutput;
    typreceive = typreceive;
    typsend = typsend;
    typmodin = typmodin;
    typmodout = typmodout;
    typanalyze = typanalyze;
    typalign = typalign;
    typstorage = typstorage;
    typnotnull = typnotnull;
    typbasetype = typbasetype;
    typtypmod = typtypmod;
    typndims = typndims;
    typcollation = typcollation;
  })

unfoldable pub from_row : HeapTupleData → PgSchema → Result PgError PgType
unfolding read_fields
from_row tuple schema = run (read_fields tuple schema)

-- The fields, each from its column of a decoded row.
abbrev pub type_of_row : List PgDatum → PgType
type_of_row row = record {
  oid = as_u32 (datum_of row 0);
  typname = as_name_str (datum_of row 1);
  typnamespace = as_u32 (datum_of row 2);
  typowner = as_u32 (datum_of row 3);
  typlen = as_i16 (datum_of row 4);
  typbyval = as_bool (datum_of row 5);
  typtype = as_u8 (datum_of row 6);
  typcategory = as_u8 (datum_of row 7);
  typispreferred = as_bool (datum_of row 8);
  typisdefined = as_bool (datum_of row 9);
  typdelim = as_u8 (datum_of row 10);
  typrelid = as_u32 (datum_of row 11);
  typsubscript = as_u32 (datum_of row 12);
  typelem = as_u32 (datum_of row 13);
  typarray = as_u32 (datum_of row 14);
  typinput = as_u32 (datum_of row 15);
  typoutput = as_u32 (datum_of row 16);
  typreceive = as_u32 (datum_of row 17);
  typsend = as_u32 (datum_of row 18);
  typmodin = as_u32 (datum_of row 19);
  typmodout = as_u32 (datum_of row 20);
  typanalyze = as_u32 (datum_of row 21);
  typalign = as_u8 (datum_of row 22);
  typstorage = as_u8 (datum_of row 23);
  typnotnull = as_bool (datum_of row 24);
  typbasetype = as_u32 (datum_of row 25);
  typtypmod = as_i32 (datum_of row 26);
  typndims = as_i32 (datum_of row 27);
  typcollation = as_u32 (datum_of row 28);
}

read_fields-Reads :
    (t : HeapTupleData) (s : PgSchema) (row : List PgDatum)
    → Reads t s row (read_fields t s) 0 29 (type_of_row row)
unfolding read_fields
read_fields-Reads t s row = search reads_rules depth 40

-- Where `decode_row` gives a row of at least 29 columns, `PgType::from_row` gives on the same tuple and
-- schema the `PgType` whose fields are the row's columns in their order: a NULL, or a datum of another
-- kind than the field's, is the default of the field.
pub from_row-type_of_row :
    (t : HeapTupleData) (s : PgSchema) (row : List PgDatum)
    → decode_row t s ≡ ok row
    → 29 ≤ num_columns s
    → from_row t s ≡ ok (type_of_row row)
unfolding from_row read_fields
from_row-type_of_row t s row h wide = run-Reads t s row (read_fields-Reads t s row) h wide
