-- ===== src/Table/Rows/Tests.antt =====
-- A row of three columns, the second NULL, and the theorems on rows at it.
use pg_arrow.Base.{
  ◌≡◌, refl, arith, false, true, List, [], ◌∷◌, map, ok, length, get_range, read_word, slice,
  from_le,
}
use pg_arrow.Base.Int.{pos, negsuc}
use pg_arrow.Base.Utf8.{invalid_from}
use pg_arrow.Types.Defs.{PgTypeId}
use pg_arrow.Types.TypeId.{type_len, align}
use pg_arrow.Types.Fixed.{check_len, decode_fixed}
use pg_arrow.Types.Datum.{PgDatum, from_utf8}
use pg_arrow.Types.Codec.{decode_varlena, read_varlena_header, decode_by_len, decode_datum}
use pg_arrow.Types.Schema.{PgSchema, column, num_columns}
use pg_arrow.Heap.Tuple.{HeapTupleData, bit_clear, is_null}
use pg_arrow.Heap.Tuple.Tests.{header}
use pg_arrow.Heap.Column.{resolve, get_column}
use pg_arrow.Heap.Page.{align_to}
use pg_arrow.Table.Rows.Project.{datum_at, decode_row_projected-decode_row, length-decode_row}
use pg_arrow.Table.Rows.{
  is_pad, is_varlena, align_column, push_datum, decode_columns, decode_row, first_out_of, max_index,
  fill_positions, write_datum, project_loop, decode_row_projected,
}

abbrev pub three_columns : PgSchema
three_columns = record {
  name = [];
  columns =
      record { name = 105 ∷ []; type_id = PgTypeId.int4; nullable = false; typmod = negsuc 0 }
      ∷ record { name = 106 ∷ []; type_id = PgTypeId.int8; nullable = true; typmod = negsuc 0 }
      ∷ record { name = 107 ∷ []; type_id = PgTypeId.text; nullable = true; typmod = negsuc 0 }
      ∷ [];
}

abbrev pub tuple : HeapTupleData
tuple = record { header = header; null_bitmap = 5 ∷ []; bytes = 7 ∷ 0 ∷ 0 ∷ 0 ∷ 7 ∷ 97 ∷ 98 ∷ [] }

abbrev pub row : List PgDatum
row = PgDatum.int4 (pos 7) ∷ PgDatum.null ∷ PgDatum.text (97 ∷ 98 ∷ []) ∷ []

pub decode_row-tuple : decode_row tuple three_columns ≡ ok row
unfolding decode_row decode_columns num_columns is_null bit_clear column align_column is_pad
    is_varlena align_to type_len align push_datum get_column resolve decode_datum decode_by_len
    decode_fixed check_len decode_varlena read_varlena_header from_utf8 invalid_from get_range
    read_word slice from_le
decode_row-tuple = refl

decode_row_projected-decode_row_example :
    decode_row_projected tuple three_columns (2 ∷ 0 ∷ []) ≡ ok (map (datum_at row) (2 ∷ 0 ∷ []))
decode_row_projected-decode_row_example =
    decode_row_projected-decode_row tuple three_columns (2 ∷ 0 ∷ []) row decode_row-tuple
      (unfold num_columns in omega arith) (omega arith)

length-decode_row_example : length row ≡ num_columns three_columns
length-decode_row_example = length-decode_row tuple three_columns row decode_row-tuple

-- An index that stands in the projection twice leaves its first place NULL.
twice :
    decode_row_projected tuple three_columns (0 ∷ 0 ∷ [])
    ≡ ok (PgDatum.null ∷ PgDatum.int4 (pos 7) ∷ [])
unfolding decode_row_projected project_loop first_out_of max_index fill_positions write_datum
    num_columns is_null bit_clear column align_column is_pad is_varlena align_to type_len align
    get_column resolve decode_datum decode_by_len decode_fixed check_len get_range read_word slice
    from_le
twice = refl
