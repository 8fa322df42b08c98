-- ===== src/Table/Reader/Cluster.antt =====
-- A cluster of four files: `pg_database` with one database, a `pg_class` that lists one table, a
-- `pg_attribute` with one column of it, and the table with one row.
use pg_arrow.Base.{
  ℕ, true, false, Bytes, List, [], ◌∷◌, ◌++◌, Option, none, some, ◌==◌, if◌then◌else◌, replicate,
  drop,
}
use pg_arrow.Base.Int.{pos, negsuc}
use pg_arrow.Types.Schema.{PgAttribute}
use pg_arrow.Types.Datum.{PgDatum}
use pg_arrow.Types.Catalog.Class.{PgClass, class_of}
use pg_arrow.File.Reader.{
  FileSystem, Stat, SegmentPath, TablePath, first_segment, later_segment, base_file, global_file,
}
use pg_arrow.Heap.Tuple.{HeapTupleData}
use pg_arrow.Heap.Tuple.Build
use pg_arrow.Heap.Tuple.Tests.{raw_tuple}
use pg_arrow.Heap.Page.{HeapPageData}
use pg_arrow.Heap.Page.LinePointers.{pack}
use pg_arrow.Heap.Page.Parse.{header_at}
use pg_arrow.Heap.Page.Tests.{page_header}

-- The OID, the name `t`, the filenode and the kind; all other columns are NULL.
abbrev raw_class : Bytes
raw_class =
    1
    ∷ 0
    ∷ 0
    ∷ 0
    ∷ 0
    ∷ 0
    ∷ 0
    ∷ 0
    ∷ 0
    ∷ 0
    ∷ 0
    ∷ 0
    ∷ 0
    ∷ 0
    ∷ 0
    ∷ 0
    ∷ 1
    ∷ 0
    ∷ 31
    ∷ 0
    ∷ 1
    ∷ 8
    ∷ 32
    ∷ 131
    ∷ 0
    ∷ 2
    ∷ 0
    ∷ 0
    ∷ 0
    ∷ 0
    ∷ 0
    ∷ 0
    ∷ 0
    ∷ 64
    ∷ 0
    ∷ 0
    ∷ 116
    ∷ (replicate 63 0 ++ (0 ∷ 64 ∷ 0 ∷ 0 ∷ 114 ∷ []))

abbrev class_bytes : Bytes
class_bytes = page_header ++ (28 ∷ 128 ∷ 210 ∷ 0 ∷ (raw_class ++ replicate 8059 0))

-- The OID and the name `t`.
abbrev pub raw_database : Bytes
raw_database = replicate 18 0 ++ (2 ∷ 0 ∷ 0 ∷ 8 ∷ 24 ∷ 0 ∷ 5 ∷ 0 ∷ 0 ∷ 0 ∷ 116 ∷ replicate 63 0)

abbrev database_bytes : Bytes
database_bytes = page_header ++ (28 ∷ 128 ∷ 184 ∷ 0 ∷ (raw_database ++ replicate 8072 0))

-- Column 1 of the table, with the name `a` and the type `int4`.
abbrev raw_attribute : Bytes
raw_attribute =
    replicate 18 0
    ++ (20
        ∷ 0
        ∷ 0
        ∷ 8
        ∷ 24
        ∷ 0
        ∷ 0
        ∷ 64
        ∷ 0
        ∷ 0
        ∷ 97
        ∷ (replicate 63 0
            ++ (23 ∷ 0 ∷ 0 ∷ 0 ∷ 4 ∷ 0 ∷ 1 ∷ 0 ∷ 255 ∷ 255 ∷ 255 ∷ 255 ∷ 0 ∷ 0 ∷ 1 ∷ 105 ∷ 112 ∷ 0
                ∷ 0 ∷ 0 ∷ 0 ∷ 0 ∷ 0 ∷ 0 ∷ 1 ∷ 0 ∷ 0 ∷ 0 ∷ 0 ∷ 0 ∷ 0 ∷ 0 ∷ [])))

abbrev attribute_bytes : Bytes
attribute_bytes = page_header ++ (28 ∷ 128 ∷ 248 ∷ 0 ∷ (raw_attribute ++ replicate 8040 0))

abbrev row_bytes : Bytes
row_bytes = page_header ++ (28 ∷ 128 ∷ 62 ∷ 0 ∷ (raw_tuple ++ replicate 8133 0))

abbrev pub class_page : HeapPageData
class_page = record {
  header = header_at page_header;
  lp_num = 1;
  lp_items = pack 28 1 105 ∷ [];
  page_data = class_bytes;
}

abbrev pub database_page : HeapPageData
database_page = record {
  header = header_at page_header;
  lp_num = 1;
  lp_items = pack 28 1 92 ∷ [];
  page_data = database_bytes;
}

abbrev pub attribute_page : HeapPageData
attribute_page = record {
  header = header_at page_header;
  lp_num = 1;
  lp_items = pack 28 1 124 ∷ [];
  page_data = attribute_bytes;
}

abbrev pub row_page : HeapPageData
row_page = record {
  header = header_at page_header;
  lp_num = 1;
  lp_items = pack 28 1 31 ∷ [];
  page_data = row_bytes;
}

-- The relation of a path.
abbrev relation_of : TablePath → ℕ
relation_of (global_file dir relation_id) = relation_id
relation_of (base_file dir db_id relation_id) = relation_id

abbrev file_of : SegmentPath → Option Bytes
file_of (later_segment table k) = none
file_of (first_segment table) =
    if relation_of table == 1259
    then some class_bytes
    else if relation_of table == 1249
    then some attribute_bytes
    else if relation_of table == 1262
    then some database_bytes
    else if relation_of table == 16384
    then some row_bytes
    else none

abbrev pub cluster : FileSystem
cluster = record {
  data_dir = some (47 ∷ []);
  metadata = λ path. Stat.stat_failed;
  open_file = λ path. true;
  pread = λ path count offset. none;
  read_exact = λ path at count. if at == 0 then (file_of path, 8192) else (none, at);
}

-- The row of `pg_class`.
abbrev pub class_row : List PgDatum
class_row =
    PgDatum.oid 16384
    ∷ PgDatum.text (116 ∷ [])
    ∷ (replicate 5 PgDatum.null
        ++ (PgDatum.oid 16384
            ∷ (replicate 9 PgDatum.null ++ (PgDatum.char 114 ∷ replicate 13 PgDatum.null))))

abbrev pub table : PgClass
table = class_of class_row

abbrev pub class_tuple : HeapTupleData
class_tuple = record {
  header = Build.header_at raw_class 32;
  null_bitmap = 131 ∷ 0 ∷ 2 ∷ 0 ∷ [];
  bytes = drop 32 raw_class;
}

abbrev pub database_tuple : HeapTupleData
database_tuple = record {
  header = Build.header_at raw_database 24;
  null_bitmap = [];
  bytes = drop 24 raw_database;
}

-- The row of `pg_attribute`.
abbrev pub attribute : PgAttribute
attribute = record {
  attrelid = 16384;
  attname = 97 ∷ [];
  atttypid = 23;
  attlen = pos 4;
  attnum = pos 1;
  atttypmod = negsuc 0;
  attndims = pos 0;
  attbyval = true;
  attalign = 105;
  attstorage = 112;
  attcompression = 0;
  attnotnull = false;
  atthasdef = false;
  atthasmissing = false;
  attidentity = 0;
  attgenerated = 0;
  attisdropped = false;
  attislocal = true;
  attinhcount = pos 0;
  attcollation = 0;
}

abbrev pub attribute_tuple : HeapTupleData
attribute_tuple = record {
  header = Build.header_at raw_attribute 24;
  null_bitmap = [];
  bytes = drop 24 raw_attribute;
}
