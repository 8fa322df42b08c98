-- ===== src/Lib.antt =====
-- A model of pg_arrow, which reads PostgreSQL's heap files without a server and turns their rows into
-- Arrow record batches.
--
-- How the program works. A page of 8192 bytes starts with a header and an array of line pointers; a
-- line pointer designates the bytes of a tuple, which are a header, a null bitmap and the columns one
-- after another, each aligned as its type asks. `HeapPageData::parse_bytes` reads the pointers,
-- `get_row_data` cuts out a tuple, `HeapTupleData::parse_and_build` reads its header, and `decode_row`
-- walks the columns by the schema, with `decode_datum` for each value. `decode_row_projected` walks
-- alike but steps over the columns that are not asked for, by `skip_datum`. A relation is a row of
-- segment files; `read_pages_bulk` reads whole pages from them by number, and `get_page_by_index` one
-- after the other. On the first stands `RecordBatchStream`, which yields a batch for each page; on the
-- second `PageRowIter`, which yields the tuples, and on it `PgTableReader`, which reads the catalogs
-- pg_class and pg_attribute, selects a table in them and fetches its rows.
--
-- The files:
--   Base: lists and options measured by native numbers, slices, words in little-endian order, bit
--     masks as arithmetic, signed integers, the stable sort, the UTF-8 check of Rust's standard
--     library, and `Result` with panics as a third outcome.
--   Types/Defs, Types/TypeId, Types/Info (src/types/codec.rs): `PgTypeId` and the functions that
--     give a type's OID, length, alignment and metadata.
--   Types/Datum, Types/Fixed, Types/Codec (src/types/codec.rs): `PgDatum`, `DecodeError`,
--     `decode_fixed`, `decode_varlena`, `read_varlena_header`, `decode_datum` and `skip_datum`.
--   Types/Numeric (src/types/arrow.rs): `parse_numeric_header`.
--   Types/Catalog (src/types/catalog.rs, pg_type.rs): the schemas of the system catalogs, and
--     `from_row` of each; Cursor is the closure over the offset, Reads its agreement with `decode_row`,
--     Values and ClassFields the fields against their columns.
--   Types/Schema (src/types/column.rs, schema.rs, pg_type.rs): columns, schemas and projections;
--     Split and Names are lemmas for them.
--   File/Error (src/file/error.rs): `PgError`.
--   File/Relation (src/file/relation.rs): `parse_relmap`, which reads pg_filenode.map.
--   File/Reader (src/file/reader.rs): `TableFileReader` in Segments and Bulk, `PageReader` in Pages;
--     Content is a relation on disk, Opened and Totals are lemmas on it, and
--     Places, Gives and InOrder follow `get_page_by_index` through it.
--   File/Stream (src/file/reader.rs): `RecordBatchStream` over any `ChunkReader`; Source is what it
--     relies on, with the table's files as an instance; Fill, Drain, Keeps and Buffer are lemmas on it.
--   File/Scan (src/file/reader.rs): `PageRowIter` and the `for` loop over it; OnDisk joins it to the files.
--   Heap/Tuple, Heap/Column (src/heap/tuple.rs): tuple headers, flags, block numbers,
--     `parse_and_build`, the null bitmap, `get_column` and `skip_column`.
--   Heap/Page (src/heap/page.rs): line pointers, the page header, `parse_bytes` and `get_row_data`.
--   Heap/Snapshot (src/heap/snapshot.rs): `PgSnapshot` and `xmin_visible`.
--   Table/Rows (src/table/mod.rs): `decode_row` and `decode_row_projected`.
--   Table/Reader (src/table/mod.rs): `PgTableReader` and `bootstrap_catalogs`; Tables and Whole are
--     about a table from its name to its rows; Cluster is a small cluster for the runs.
--   Table/Databases (src/table/mod.rs): `list_databases` and `get_database_oid`; Walk, Live and Lookup
--     are about them.
-- The modules below a component hold its theorems, those named RoundTrip with the server's layout of a
-- value, a tuple or a row's place in a page written out, and those named Tests its runs.
--
-- How it is modelled. A byte is a number, a byte string a list of them, and a theorem that needs bytes
-- below 256 says so. Words are native numbers with the wrap-around or the mask of the source written
-- out; `usize` has no bound but in `align_to`, whose arithmetic is on 64 bits. `from_ne_bytes` is
-- little-endian. An `unwrap` that fails and an index out of range are the outcome `panic`. A float is
-- its bit pattern. The operating system is the record `FileSystem`: a function for each call, without
-- time, so that a file does not change while it is read. Loops over a buffer are structural recursions;
-- those over files run on fuel, a round for each, and give `none` where it is used up: `count + 1`
-- rounds for `read_pages_bulk`, of which each but the last reads a page; a round more than there are
-- segments for `segment_sizes`; one more than there are batches for a stream; one more than there
-- are slots, and pages without slots, for a loop over rows; and one more than there are pages for
-- `list_databases`. A stream's conversion of a page is a
-- parameter, and so is its chunk reader, as in the source.
--
-- Not modelled: the value of a numeric behind its header, the conversion of pages and rows to record
-- batches and the Arrow builders, the Arrow types (of a third-party crate), the parser of snapshot
-- strings, the asynchronous stream, and the text that the program prints or
-- logs.
pub mod Base
pub mod Types
pub mod File
pub mod Heap
pub mod Table
