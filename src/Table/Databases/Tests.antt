-- ===== src/Table/Databases/Tests.antt =====
-- The database of the small cluster, found in its files.
use pg_arrow.Base.{
  ℕ, ◌≡◌, refl, arith, List, [], ◌∷◌, Option, some, ok, get_range, read_word, slice, from_le,
}
use pg_arrow.Base.Utf8.{invalid_from}
use pg_arrow.Types.TypeId.{type_len, align}
use pg_arrow.Types.Fixed.{check_len, decode_fixed}
use pg_arrow.Types.Datum.{from_utf8, index, nul_position, from_bytes_until_nul}
use pg_arrow.Types.Codec.{decode_by_len, decode_datum}
use pg_arrow.Types.Schema.{column}
use pg_arrow.Types.Catalog.Relation.{catalog_columns, catalog_schema}
use pg_arrow.Types.Catalog.Tables.{pg_database}
use pg_arrow.Types.Catalog.Cursor.{
  ◌>>=◌, pure, run, read_live, next_datum, field, as_u32, as_name_str,
}
use pg_arrow.Types.Catalog.Reads.{datum_of, present}
use pg_arrow.Types.Catalog.Database
use pg_arrow.Types.Catalog.Database.{PgDatabase}
use pg_arrow.File.Error.{generic}
use pg_arrow.File.Reader.{get_page_file_and_offset}
use pg_arrow.File.Reader.Pages.{get_page_reader, get_reader, get_page_by_index}
use pg_arrow.File.Scan.Pages.{add_row, slot_rows, page_rows, rows_of}
use pg_arrow.Heap.Tuple.{
  bit_clear, is_null, has_flag, mask_value, bitmap_bytes, read_header, read_null_bitmap,
  parse_and_build,
}
use pg_arrow.Heap.Column.{resolve, get_column}
use pg_arrow.Heap.Page.{
  align_to, parse_bytes, parse_header, num_line_pointers, read_line_pointers, read_line_pointer,
  get_row_data, lp_off, lp_flags, lp_len,
}
use pg_arrow.Table.Rows.{is_pad, is_varlena, align_column}
use pg_arrow.Table.Reader.Fetch.{Stored, kept, live_rows}
use pg_arrow.Table.Reader.Cluster.{cluster, database_page, database_tuple}
use pg_arrow.Table.Databases.{list_databases, get_database_oid}
use pg_arrow.Table.Databases.Live.{databases_in, named, list_databases-databases_in}
use pg_arrow.Table.Databases.Lookup.{Finds, get_database_oid-Finds}

database_page-Stored : Stored cluster 0 1262 (database_page ∷ [])
unfolding get_page_reader get_page_by_index get_reader get_page_file_and_offset parse_bytes
    parse_header num_line_pointers read_line_pointers read_line_pointer read_word slice get_range
    from_le
database_page-Stored =
    ((_, refl, (generic, _, refl)), ((omega arith, omega arith), tt), omega arith)

database_rows : rows_of (database_page ∷ []) ≡ database_tuple ∷ []
unfolding rows_of page_rows slot_rows add_row get_row_data lp_off lp_flags lp_len parse_and_build
    read_header read_null_bitmap has_flag mask_value bitmap_bytes index read_word slice get_range
    from_le
database_rows = refl

abbrev databases : List PgDatabase
databases = record { oid = 5; datname = 116 ∷ [] } ∷ []

database_tuple-listed : databases_in (database_tuple ∷ []) ≡ ok databases
unfolding kept live_rows named Database.from_row catalog_schema catalog_columns pg_database run
    ◌>>=◌ pure field next_datum read_live as_u32 as_name_str datum_of present is_null bit_clear
    column align_column is_pad is_varlena align_to type_len align get_column resolve decode_datum
    decode_by_len decode_fixed check_len get_range read_word slice from_le nul_position
    from_bytes_until_nul from_utf8 invalid_from index
database_tuple-listed = refl

list_databases-databases_in_example :
    list_databases cluster 2 ≡ some (databases_in (rows_of (database_page ∷ [])))
list_databases-databases_in_example =
    list_databases-databases_in cluster 2 (database_page ∷ []) database_page-Stored (omega arith)

get_database_oid-Finds_example :
    (found : Option ℕ) × (get_database_oid cluster 2 (116 ∷ []) ≡ some (ok found))
    × Finds (116 ∷ []) databases found
get_database_oid-Finds_example =
    get_database_oid-Finds cluster 2 (database_page ∷ []) databases (116 ∷ []) database_page-Stored
      (omega arith) (rw database_rows database_tuple-listed)
