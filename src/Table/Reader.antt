-- ===== src/Table/Reader.antt =====
-- src/table/mod.rs: `PgTableReader` and `bootstrap_catalogs`, over the files of the cluster. The
-- fuel is the rounds that each loop over rows may take.
pub mod Fetch
pub mod Tables
pub mod Whole
pub mod Select
pub mod Same
pub mod Errors
pub mod Cluster
mod Tests
use pg_arrow.Base.{
  ℕ, zero, suc, ◌+◌, Bool, not, ◌&&◌, Bytes, List, [], ◌∷◌, ◌++◌, Option, none, some, Result, ok,
  err, panic, ◌>>=◌, ◌==◌, if◌then◌else◌,
}
use pg_arrow.Types.Datum.{PgDatum}
use pg_arrow.Types.Schema.{PgAttribute, PgSchema, from_attributes, bytes_eq}
use pg_arrow.Types.Catalog.Relation.{catalog_schema}
use pg_arrow.Types.Catalog.Tables.{pg_class, pg_attribute}
use pg_arrow.Types.Catalog.Class.{PgClass}
use pg_arrow.Types.Catalog.Class
use pg_arrow.Types.Catalog.Attribute
use pg_arrow.File.Error.{PgError, table_not_found, no_table_selected}
use pg_arrow.File.Reader.{FileSystem}
use pg_arrow.File.Reader.Pages.{PageReader, get_page_reader, get_page_by_index}
use pg_arrow.File.Scan.{
  PageRowIter, into_iter, Round, yield, again, finished, crashed, round, for_each_row,
}
use pg_arrow.Heap.Tuple.{HeapTupleData}
use pg_arrow.Table.Rows.{decode_row, decode_row_projected}

pub record PgTableReader : Type 0 where
  pub db_id : ℕ
  pub pg_class_cache : List PgClass
  pub pg_attribute_cache : List PgAttribute
  pub current_table : Option PgClass
  pub current_schema : Option PgSchema

-- `c.relname == table_name && c.relkind == b'r'`
unfoldable pub is_table : Bytes → PgClass → Bool
is_table name c = bytes_eq c.relname name && c.relkind == b'r'

-- `iter().find(...)`
unfoldable pub find_table : List PgClass → Bytes → Option PgClass
find_table [] name = none
find_table (c ∷ cs) name =
    let later = find_table cs name in if is_table name c then some c else later

-- `filter(|a| a.attrelid == table.oid)`
unfoldable pub attributes_of : List PgAttribute → ℕ → List PgAttribute
attributes_of [] oid = []
attributes_of (a ∷ attrs) oid =
    let rest = attributes_of attrs oid in if a.attrelid == oid then a ∷ rest else rest

-- `PgSchema::from_attributes(&table.relname, &table_attrs)`
unfoldable pub schema_of : List PgAttribute → PgClass → PgSchema
schema_of attrs table = from_attributes table.relname (attributes_of attrs table.oid)

-- The outcome of a method that changes the reader, and the reader that it leaves.
abbrev pub Changed : Type 0
Changed = Result PgError (Unit {0}) × PgTableReader

-- The selection.
unfoldable pub select : PgTableReader → Option PgClass → Option PgSchema → PgTableReader
select r table schema = record {
  db_id = r.db_id;
  pg_class_cache = r.pg_class_cache;
  pg_attribute_cache = r.pg_attribute_cache;
  current_table = table;
  current_schema = schema;
}

unfoldable pub set_table : PgTableReader → Bytes → Changed
unfolding select
set_table r table_name = elim (find_table r.pg_class_cache table_name) [
  | none ↦ (err (table_not_found table_name), r)
  | some table ↦ (ok tt, select r (some table) (some (schema_of r.pg_attribute_cache table)))
]

-- The loop of `get_all_tables`.
unfoldable pub tables_of : List PgClass → List PgAttribute → List (PgClass × PgSchema)
tables_of [] attrs = []
tables_of (c ∷ cs) attrs =
    let rest = tables_of cs attrs in
    if c.relkind == b'r' then (c, schema_of attrs c) ∷ rest else rest

unfoldable pub get_all_tables : PgTableReader → List (PgClass × PgSchema)
get_all_tables r = tables_of r.pg_class_cache r.pg_attribute_cache

unfoldable pub require_by : Option PgClass → Option PgSchema → Result PgError (PgClass × PgSchema)
require_by (some table) (some schema) = ok (table, schema)
require_by _ _ = err no_table_selected

unfoldable pub require_table : PgTableReader → Result PgError (PgClass × PgSchema)
unfolding require_by
require_table r = require_by r.current_table r.current_schema

-- A row that does not decode is skipped.
unfoldable pub keep_row : {A : Type 0} → List A → Result PgError A → Result PgError (List A)
keep_row rows (ok row) = ok (rows ++ (row ∷ []))
keep_row rows (err e) = ok rows
keep_row rows panic = panic

-- The bodies of the two loops of `bootstrap_catalogs`.
unfoldable pub visit_class : List PgClass → HeapTupleData → Result PgError (List PgClass)
unfolding keep_row
visit_class rows tuple =
    if tuple.header.t_xmax == 0
    then keep_row rows (Class.from_row tuple (catalog_schema pg_class))
    else ok rows

unfoldable pub visit_attribute :
    List PgAttribute → HeapTupleData → Result PgError (List PgAttribute)
unfolding keep_row
visit_attribute rows tuple = keep_row rows (Attribute.from_row tuple (catalog_schema pg_attribute))

-- The bodies of the loops of `fetch_all`, `fetch_all_projected` and `fetch_with_filter`.
unfoldable pub visit_row :
    PgSchema → List (List PgDatum) → HeapTupleData → Result PgError (List (List PgDatum))
visit_row schema rows tuple = do row ← decode_row tuple schema; ok (rows ++ (row ∷ []))

unfoldable pub visit_projected :
    PgSchema → List ℕ → List (List PgDatum) → HeapTupleData → Result PgError (List (List PgDatum))
visit_projected schema projection rows tuple = do
  row ← decode_row_projected tuple schema projection
  ok (rows ++ (row ∷ []))

unfoldable pub visit_filter :
    PgSchema
    → (List PgDatum → Bool)
    → List (List PgDatum)
    → HeapTupleData
    → Result PgError (List (List PgDatum))
visit_filter schema predicate rows tuple = do
  row ← decode_row tuple schema
  ok (if predicate row then rows ++ (row ∷ []) else rows)

-- `result?` behind a loop, which may be out of fuel.
unfoldable pub then_loop :
    {A B : Type 0}
    → Option (Result PgError A)
    → (A → Option (Result PgError B))
    → Option (Result PgError B)
then_loop none rest = none
then_loop (some (ok a)) rest = rest a
then_loop (some (err e)) rest = some (err e)
then_loop (some panic) rest = some panic

module _ (fs : FileSystem) (fuel : ℕ) where
  -- `TableFileReader::new(db_id, relation).get_page_reader()?.into_iter()`, which opens nothing.
  unfoldable pub rows_in : (db_id relation : ℕ) → PageRowIter PageReader
  rows_in db_id relation =
      into_iter (get_page_reader (record { relation_id = relation; db_id = db_id }))

  -- A loop over the rows of a relation.
  unfoldable pub loop_rows :
      {A : Type 0}
      → (A → HeapTupleData → Result PgError A)
      → (db_id relation : ℕ) → A
      → Option (Result PgError A)
  unfolding rows_in
  loop_rows visit db_id relation a =
      for_each_row (get_page_by_index fs) visit fuel (rows_in db_id relation) a

  unfoldable pub bootstrap_catalogs : ℕ → Option (Result PgError (List PgClass × List PgAttribute))
  unfolding then_loop
  bootstrap_catalogs db_id =
      then_loop (loop_rows visit_class db_id pg_class.relation_oid []) (λ classes.
        then_loop (loop_rows visit_attribute db_id pg_attribute.relation_oid [])
          (λ attributes. some (ok (classes, attributes))))

  -- `PgTableReader::new`
  unfoldable pub new_reader : ℕ → Option (Result PgError PgTableReader)
  unfolding then_loop
  new_reader db_id = then_loop (bootstrap_catalogs db_id) (λ (classes, attributes). some (
      ok (record {
        db_id = db_id;
        pg_class_cache = classes;
        pg_attribute_cache = attributes;
        current_table = none;
        current_schema = none;
      })))

  -- The reader with another database and no selection, and with other catalogs.
  unfoldable pub clear_selection : PgTableReader → ℕ → PgTableReader
  clear_selection r db_id = record {
    db_id = db_id;
    pg_class_cache = r.pg_class_cache;
    pg_attribute_cache = r.pg_attribute_cache;
    current_table = none;
    current_schema = none;
  }

  unfoldable pub set_catalogs :
      PgTableReader → Result PgError (List PgClass × List PgAttribute) → Changed
  set_catalogs r (ok (classes, attributes)) = (
    ok tt,
    record {
      db_id = r.db_id;
      pg_class_cache = classes;
      pg_attribute_cache = attributes;
      current_table = r.current_table;
      current_schema = r.current_schema;
    },
  )
  set_catalogs r (err e) = (err e, r)
  set_catalogs r panic = (panic, r)

  unfoldable pub set_db : PgTableReader → ℕ → Option Changed
  unfolding clear_selection set_catalogs
  set_db r db_id = elim (bootstrap_catalogs db_id) [
    | none ↦ none
    | some catalogs ↦ some (set_catalogs (clear_selection r db_id) catalogs)
  ]

  -- A loop over the rows of the selected table.
  unfoldable pub fetch :
      (PgSchema → List (List PgDatum) → HeapTupleData → Result PgError (List (List PgDatum)))
      → PgTableReader
      → Option (Result PgError (List (List PgDatum)))
  fetch visit r = elim (require_table r) [
    | ok (table, schema) ↦ loop_rows (visit schema) r.db_id table.relfilenode []
    | err e ↦ some (err e)
    | panic ↦ some panic
  ]

  unfoldable pub fetch_all : PgTableReader → Option (Result PgError (List (List PgDatum)))
  fetch_all r = fetch visit_row r

  unfoldable pub fetch_all_projected :
      PgTableReader → List ℕ → Option (Result PgError (List (List PgDatum)))
  fetch_all_projected r projection = fetch (λ schema. visit_projected schema projection) r

  unfoldable pub fetch_with_filter :
      PgTableReader → (List PgDatum → Bool) → Option (Result PgError (List (List PgDatum)))
  fetch_with_filter r predicate = fetch (λ schema. visit_filter schema predicate) r

  -- A round of the loop of `fetch_by_limit`, which counts the rows and keeps none of them; `take(limit)` asks for no
  -- more behind `limit` of them.
  unfoldable pub count_round :
      (ℕ → PageRowIter PageReader → Option (Result PgError (Unit {0})))
      → ℕ
      → Round PageReader
      → Option (Result PgError (Unit {0}))
  count_round rest limit (yield row iter) = rest limit iter
  count_round rest limit (again iter) = rest (suc limit) iter
  count_round rest limit (finished iter) = some (ok tt)
  count_round rest limit crashed = some panic

  -- `limit` items of the iterator.
  unfoldable pub count_rows :
      ℕ → (limit : ℕ) → PageRowIter PageReader → Option (Result PgError (Unit {0}))
  unfolding count_round
  count_rows zero limit iter = none
  count_rows (suc rounds) zero iter = some (ok tt)
  count_rows (suc rounds) (suc limit) iter =
      count_round (count_rows rounds) limit (round (get_page_by_index fs) iter)

  unfoldable pub fetch_by_limit : PgTableReader → ℕ → Option (Result PgError (List (List PgDatum)))
  unfolding rows_in then_loop
  fetch_by_limit r limit = elim (require_table r) [
    | ok (table, schema) ↦
        then_loop (count_rows fuel limit (rows_in r.db_id table.relfilenode))
          (λ counted. some (ok []))
    | err e ↦ some (err e)
    | panic ↦ some panic
  ]
