-- ===== src/Types/Catalog/Tests.antt =====
-- A row of `pg_class` in which all columns but the OID and the number of pages are NULL.
use pg_arrow.Base.{
  refl, ok, ◌≡◌, arith, List, [], ◌∷◌, ◌++◌, get_range, read_word, slice, from_le, replicate,
}
use pg_arrow.Base.Int.{pos}
use pg_arrow.Types.TypeId.{type_len, align}
use pg_arrow.Types.Fixed.{check_len, decode_fixed}
use pg_arrow.Types.Datum.{PgDatum}
use pg_arrow.Types.Codec.{decode_by_len, decode_datum}
use pg_arrow.Types.Schema.{column, num_columns}
use pg_arrow.Types.Catalog.Relation.{catalog_columns, catalog_schema}
use pg_arrow.Types.Catalog.Tables.{pg_class}
use pg_arrow.Types.Catalog.Class.{PgClass, from_row}
use pg_arrow.Types.Catalog.ClassFields.{IsClass, from_row-IsClass}
use pg_arrow.Heap.Tuple.{HeapTupleData, bit_clear, is_null}
use pg_arrow.Heap.Tuple.Tests.{header}
use pg_arrow.Heap.Column.{resolve, get_column}
use pg_arrow.Heap.Page.{align_to}
use pg_arrow.Table.Rows.{is_pad, is_varlena, align_column, push_datum, decode_columns, decode_row}

abbrev tuple : HeapTupleData
tuple = record {
  header = header;
  null_bitmap = 1 ∷ 2 ∷ 0 ∷ 0 ∷ [];
  bytes = 7 ∷ 0 ∷ 0 ∷ 0 ∷ 3 ∷ 0 ∷ 0 ∷ 0 ∷ [];
}

abbrev row : List PgDatum
row =
    PgDatum.oid 7 ∷ (replicate 8 PgDatum.null ++ (PgDatum.int4 (pos 3) ∷ replicate 21 PgDatum.null))

decode_row-tuple : decode_row tuple (catalog_schema pg_class) ≡ ok row
unfolding decode_row decode_columns num_columns is_null bit_clear column align_column is_pad
    is_varlena align_to type_len align push_datum get_column resolve decode_datum decode_by_len
    decode_fixed check_len get_range read_word slice from_le catalog_schema catalog_columns pg_class
decode_row-tuple = refl

from_row-IsClass_example :
    (c : PgClass) × (from_row tuple (catalog_schema pg_class) ≡ ok c) × IsClass row c
from_row-IsClass_example =
    from_row-IsClass tuple (catalog_schema pg_class) row decode_row-tuple
      (unfold num_columns catalog_schema catalog_columns pg_class in omega arith)
