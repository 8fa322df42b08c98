-- ===== src/Table/Reader/Tests.antt =====
-- The table of the small cluster, read from its files.
use pg_arrow.Base.{
  ◌≡◌, refl, arith, Bool, List, [], ◌∷◌, none, some, ok, err, get_range, read_word, slice, from_le,
  map, ltb, length, ap, ◌∙◌,
}
use pg_arrow.Base.Utf8.{invalid_from}
use pg_arrow.Base.Int.{pos}
use pg_arrow.Types.TypeId.{type_len, align}
use pg_arrow.Types.Fixed.{check_len, decode_fixed}
use pg_arrow.Types.Datum.{PgDatum, from_utf8, index, nul_position, from_bytes_until_nul}
use pg_arrow.Types.Codec.{decode_by_len, decode_datum}
use pg_arrow.Types.Schema.{PgSchema, column, num_columns}
use pg_arrow.Types.Catalog.Relation.{catalog_columns, catalog_schema}
use pg_arrow.Types.Catalog.Tables.{pg_class, pg_attribute}
use pg_arrow.Types.Catalog.Cursor.{
  ◌>>=◌, pure, run, read_live, next_datum, field, as_u32, as_i32, as_i16, as_f32, as_bool, as_u8,
  as_name_str,
}
use pg_arrow.Types.Catalog.Reads.{datum_of, present}
use pg_arrow.Types.Catalog.Class
use pg_arrow.Types.Catalog.Attribute
use pg_arrow.File.Error.{generic}
use pg_arrow.File.Reader.{get_page_file_and_offset}
use pg_arrow.File.Reader.Pages.{get_page_reader, get_reader, get_page_by_index}
use pg_arrow.File.Scan.Pages.{add_row, slot_rows, page_rows, rows_of}
use pg_arrow.Heap.Tuple.{
  bit_clear, is_null, has_flag, mask_value, bitmap_bytes, read_header, read_null_bitmap,
  parse_and_build,
}
use pg_arrow.Heap.Column.{resolve, get_column}
use pg_arrow.Heap.Page.{
  align_to, parse_bytes, parse_header, num_line_pointers, read_line_pointers, read_line_pointer,
  get_row_data, lp_off, lp_flags, lp_len,
}
use pg_arrow.Table.Rows.{is_pad, is_varlena, align_column}
use pg_arrow.Table.Reader.{
  PgTableReader, require_table, require_by, then_loop, fetch_all_projected, fetch_with_filter,
  find_table, new_reader, set_table, select, fetch_all, schema_of,
}
use pg_arrow.Table.Reader.Fetch.{
  Stored, kept, live_rows, decode_all, fetch_all-decode_all, bootstrap_catalogs-kept,
}
use pg_arrow.Table.Reader.Tables.{IsTable, IsColumnOf, find_table-first}
use pg_arrow.Table.Reader.Whole.{IsFresh, new_reader-fetch_all}
use pg_arrow.Types.Schema.Attributes.{IsSchema}
use pg_arrow.Table.Reader.Select.{IsSelected, Reach, opened, after, use_table, Reach-IsSelected}
use pg_arrow.Table.Reader.Errors.{new_reader-ne-err}
use pg_arrow.Table.Reader.Same.{filter, fetch_all-Same}
use pg_arrow.Table.Rows.Project.{datum_at}
use pg_arrow.Table.Rows.Tests.{tuple, three_columns, decode_row-tuple}
use pg_arrow.Table.Reader.Cluster.{
  cluster, class_page, class_tuple, row_page, table, attribute_page, attribute, attribute_tuple,
}

class_page-Stored : Stored cluster 5 1259 (class_page ∷ [])
unfolding get_page_reader get_page_by_index get_reader get_page_file_and_offset parse_bytes
    parse_header num_line_pointers read_line_pointers read_line_pointer read_word slice get_range
    from_le
class_page-Stored = ((_, refl, (generic, _, refl)), ((omega arith, omega arith), tt), omega arith)

attribute_page-Stored : Stored cluster 5 1249 (attribute_page ∷ [])
unfolding get_page_reader get_page_by_index get_reader get_page_file_and_offset parse_bytes
    parse_header num_line_pointers read_line_pointers read_line_pointer read_word slice get_range
    from_le
attribute_page-Stored =
    ((_, refl, (generic, _, refl)), ((omega arith, omega arith), tt), omega arith)

row_page-Stored : Stored cluster 5 16384 (row_page ∷ [])
unfolding get_page_reader get_page_by_index get_reader get_page_file_and_offset parse_bytes
    parse_header num_line_pointers read_line_pointers read_line_pointer read_word slice get_range
    from_le
row_page-Stored = ((_, refl, (generic, _, refl)), ((omega arith, omega arith), tt), omega arith)

class_rows : rows_of (class_page ∷ []) ≡ class_tuple ∷ []
unfolding rows_of page_rows slot_rows add_row get_row_data lp_off lp_flags lp_len parse_and_build
    read_header read_null_bitmap has_flag mask_value bitmap_bytes index read_word slice get_range
    from_le
class_rows = refl

class_tuple-kept :
    kept (λ t. Class.from_row t (catalog_schema pg_class)) (live_rows (class_tuple ∷ []))
    ≡ ok (table ∷ [])
unfolding kept live_rows Class.from_row catalog_schema catalog_columns pg_class run ◌>>=◌ pure field
    next_datum read_live as_u32 as_i32 as_i16 as_f32 as_bool as_u8 as_name_str datum_of present
    is_null bit_clear column align_column is_pad is_varlena align_to type_len align get_column
    resolve decode_datum decode_by_len decode_fixed check_len get_range read_word slice from_le
    nul_position from_bytes_until_nul from_utf8 invalid_from index
class_tuple-kept = refl

table-IsTable : IsTable (116 ∷ []) table
unfolding as_u32 as_i32 as_i16 as_f32 as_bool as_u8 as_name_str datum_of present
table-IsTable = (refl, refl)

found : find_table (table ∷ []) (116 ∷ []) ≡ some table
found = find_table-first (116 ∷ []) [] table [] table-IsTable tt

attribute_rows : rows_of (attribute_page ∷ []) ≡ attribute_tuple ∷ []
unfolding rows_of page_rows slot_rows add_row get_row_data lp_off lp_flags lp_len parse_and_build
    read_header read_null_bitmap has_flag mask_value bitmap_bytes index read_word slice get_range
    from_le
attribute_rows = refl

attribute_tuple-kept :
    kept (λ t. Attribute.from_row t (catalog_schema pg_attribute)) (attribute_tuple ∷ [])
    ≡ ok (attribute ∷ [])
unfolding kept Attribute.from_row catalog_schema catalog_columns pg_attribute run ◌>>=◌ pure field
    next_datum read_live as_u32 as_i32 as_i16 as_f32 as_bool as_u8 as_name_str datum_of present
    is_null bit_clear column align_column is_pad is_varlena align_to type_len align get_column
    resolve decode_datum decode_by_len decode_fixed check_len get_range read_word slice from_le
    nul_position from_bytes_until_nul from_utf8 invalid_from index
attribute_tuple-kept = refl

new_reader-fetch_all_example :
    (r0 : PgTableReader) × (r : PgTableReader) × (schema : PgSchema) × (new_reader cluster 3 5
      ≡ some (ok r0))
    × IsFresh 5 (table ∷ []) (attribute ∷ []) r0
    × (set_table r0 (116 ∷ []) ≡ (ok tt, r))
    × (r.current_table ≡ some table)
    × (r.current_schema ≡ some schema)
    × IsSchema (IsColumnOf table) table.relname (attribute ∷ []) schema
    × (fetch_all cluster 3 r ≡ some (decode_all schema (rows_of (row_page ∷ []))))
unfolding as_u32 datum_of present
new_reader-fetch_all_example =
    new_reader-fetch_all cluster 3 5 (class_page ∷ []) (attribute_page ∷ []) (row_page ∷ []) [] []
      (attribute ∷ []) (116 ∷ []) table class_page-Stored attribute_page-Stored row_page-Stored
      (omega arith) (omega arith) (omega arith) (rw class_rows class_tuple-kept)
      (rw attribute_rows attribute_tuple-kept) table-IsTable tt

-- The table with the schema of its one column.
abbrev selected : PgTableReader
selected = record {
  db_id = 5;
  pg_class_cache = table ∷ [];
  pg_attribute_cache = attribute ∷ [];
  current_table = some table;
  current_schema = some three_columns;
}

abbrev all_rows : List (List PgDatum)
all_rows = (PgDatum.int4 (pos 7) ∷ PgDatum.null ∷ PgDatum.text (97 ∷ 98 ∷ []) ∷ []) ∷ []

row_rows : rows_of (row_page ∷ []) ≡ tuple ∷ []
unfolding rows_of page_rows slot_rows add_row get_row_data lp_off lp_flags lp_len parse_and_build
    read_header read_null_bitmap has_flag mask_value bitmap_bytes index read_word slice get_range
    from_le
row_rows = refl

decoded : decode_all three_columns (tuple ∷ []) ≡ ok all_rows
unfolding decode_all
decoded = rw decode_row-tuple refl

fetched : fetch_all cluster 3 selected ≡ some (ok all_rows)
unfolding require_table require_by as_u32 datum_of present
fetched =
    fetch_all-decode_all cluster 3 selected table three_columns (row_page ∷ []) refl row_page-Stored
      (omega arith)
    ∙ ap some (ap (decode_all three_columns) row_rows ∙ decoded)

abbrev is_long : List PgDatum → Bool
is_long row = ltb 2 (length row)

fetch_all-Same_example :
    (fetch_all_projected cluster 3 selected (2 ∷ 0 ∷ [])
      ≡ some (ok (map (λ row. map (datum_at row) (2 ∷ 0 ∷ [])) all_rows)))
    × (fetch_with_filter cluster 3 selected is_long ≡ some (ok (filter is_long all_rows)))
unfolding require_table require_by
fetch_all-Same_example =
    fetch_all-Same cluster 3 selected table three_columns all_rows (2 ∷ 0 ∷ []) is_long refl fetched
      (unfold num_columns in omega arith) (omega arith)

abbrev unselected : PgTableReader
unselected = record {
  db_id = 5;
  pg_class_cache = table ∷ [];
  pg_attribute_cache = attribute ∷ [];
  current_table = none;
  current_schema = none;
}

started : new_reader cluster 3 5 ≡ some (ok unselected)
unfolding new_reader then_loop
started =
    rw
      (
        new_reader,
        bootstrap_catalogs-kept cluster 3 5 (class_page ∷ []) (attribute_page ∷ []) (table ∷ [])
            (attribute ∷ []) class_page-Stored attribute_page-Stored (omega arith) (omega arith)
            (rw class_rows class_tuple-kept) (rw attribute_rows attribute_tuple-kept),
      )
      refl

-- The reader behind `set_table`.
abbrev chosen : PgTableReader
chosen = record {
  db_id = 5;
  pg_class_cache = table ∷ [];
  pg_attribute_cache = attribute ∷ [];
  current_table = some table;
  current_schema = some (schema_of (attribute ∷ []) table);
}

chosen-Reach : Reach cluster 3 chosen
unfolding set_table select
chosen-Reach =
    after unselected chosen (opened unselected 5 started)
      (use_table (116 ∷ []) (ok tt) (rw (set_table, found) refl))

Reach-IsSelected_example : IsSelected chosen
Reach-IsSelected_example = Reach-IsSelected cluster 3 chosen chosen-Reach

new_reader-ne-err_example : ¬ new_reader cluster 3 5 ≡ some (err generic)
new_reader-ne-err_example = new_reader-ne-err cluster 3 5 generic
