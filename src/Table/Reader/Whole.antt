-- ===== src/Table/Reader/Whole.antt =====
-- A table read from the files up: the catalogs, the selection and the rows.
use pg_arrow.Base.{ℕ, Bytes, ◌<◌, ◌≡◌, refl, List, ◌∷◌, ◌++◌, All, none, some, ok}
use pg_arrow.Types.Schema.{PgAttribute, PgSchema}
use pg_arrow.Types.Schema.Attributes.{IsSchema}
use pg_arrow.Types.Catalog.Relation.{catalog_schema}
use pg_arrow.Types.Catalog.Tables.{pg_class, pg_attribute}
use pg_arrow.Types.Catalog.Class
use pg_arrow.Types.Catalog.Class.{PgClass}
use pg_arrow.Types.Catalog.Attribute
use pg_arrow.File.Reader.{FileSystem}
use pg_arrow.File.Scan.Pages.{rows_of, rounds}
use pg_arrow.Heap.Page.{HeapPageData}
use pg_arrow.Table.Reader.{
  PgTableReader, require_table, require_by, then_loop, new_reader, set_table, select, schema_of,
  fetch_all,
}
use pg_arrow.Table.Reader.Fetch.{
  Stored, kept, live_rows, decode_all, bootstrap_catalogs-kept, fetch_all-decode_all,
}
use pg_arrow.Table.Reader.Tables.{IsTable, IsColumnOf, find_table-first, schema_of-IsSchema}

-- A reader with nothing selected, on a database with these catalogs.
abbrev pub IsFresh : ℕ → List PgClass → List PgAttribute → PgTableReader → Type 0
IsFresh db_id classes attributes r =
    (r.db_id ≡ db_id)
    × (r.pg_class_cache ≡ classes)
    × (r.pg_attribute_cache ≡ attributes)
    × (r.current_table ≡ none)
    × (r.current_schema ≡ none)

-- A table is read from the files up. Where the pages of `pg_class` and `pg_attribute` are stored, and
-- no row of theirs panics, a new reader has in its catalogs the rows of `pg_class` that no transaction
-- has deleted and all rows of `pg_attribute`, each where it decodes, and nothing selected. With a row
-- in the first for an ordinary table of the name, and none in front of it, `set_table` selects that
-- row and a schema of the table's name, whose columns are those of exactly the rows of `pg_attribute`
-- that have the OID of the table, are not dropped and have a number above 0, in the order of their
-- numbers. Then `fetch_all` gives the rows on the pages of the table's filenode, in the order of the
-- pages and slots, decoded by this schema, or the error of the first that does not decode. The fuel is
-- a round for each slot, each page without slots and one more.
pub new_reader-fetch_all :
    (fs : FileSystem) (fuel db_id : ℕ) (class_pages attribute_pages pages : List HeapPageData)
    (before after : List PgClass) (attributes : List PgAttribute) (name : Bytes) (table : PgClass)
    → Stored fs db_id 1259 class_pages
    → Stored fs db_id 1249 attribute_pages
    → Stored fs db_id table.relfilenode pages
    → rounds class_pages < fuel
    → rounds attribute_pages < fuel
    → rounds pages < fuel
    → kept (λ t. Class.from_row t (catalog_schema pg_class)) (live_rows (rows_of class_pages))
      ≡ ok (before ++ (table ∷ after))
    → kept (λ t. Attribute.from_row t (catalog_schema pg_attribute)) (rows_of attribute_pages)
      ≡ ok attributes
    → IsTable name table
    → All (λ c. ¬ IsTable name c) before
    → (r0 : PgTableReader) × (r : PgTableReader) × (schema : PgSchema) × (new_reader fs fuel db_id
        ≡ some (ok r0))
      × IsFresh db_id (before ++ (table ∷ after)) attributes r0
      × (set_table r0 name ≡ (ok tt, r))
      × (r.current_table ≡ some table)
      × (r.current_schema ≡ some schema)
      × IsSchema (IsColumnOf table) table.relname attributes schema
      × (fetch_all fs fuel r ≡ some (decode_all schema (rows_of pages)))
unfolding new_reader then_loop set_table select require_table require_by
new_reader-fetch_all fs fuel db_id class_pages attribute_pages pages before after attributes name
      table c a p fc fa fp hc ha ordinary none_before =
    let classes = before ++ (table ∷ after) in
    let schema = schema_of attributes table in
    let r0 : PgTableReader = record {
      db_id = db_id;
      pg_class_cache = classes;
      pg_attribute_cache = attributes;
      current_table = none;
      current_schema = none;
    } in
    let booted =
      bootstrap_catalogs-kept fs fuel db_id class_pages attribute_pages classes attributes c a fc fa
        hc ha in
    let found = find_table-first name before table after ordinary none_before in
    let r = select r0 (some table) (some schema) in
    (
      r0,
      r,
      schema,
      (rw (new_reader, booted) refl),
      (refl, refl, refl, refl, refl),
      (rw (set_table, found) refl),
      refl,
      refl,
      schema_of-IsSchema table attributes,
      fetch_all-decode_all fs fuel r table schema pages refl p fp,
    )
