-- ===== src/Heap/Column.antt =====
-- src/heap/tuple.rs: `ColumnSearchArg`, `get_column` and `skip_column`.
use pg_arrow.Base.{ℕ, Bytes, Result, ok, err, ◌>>=◌, if◌then◌else◌, ok_or, unwrap, map_err}
use pg_arrow.Types.Datum.{PgDatum}
use pg_arrow.Types.TypeId.{type_len}
use pg_arrow.Types.Codec.{decode_datum, skip_datum}
use pg_arrow.Types.Schema.{PgColumn, PgSchema, column, find_column}
use pg_arrow.File.Error.{
  PgError, null_column_value, column_not_found, decode_error, of_decode, Detail, column_named,
}
use pg_arrow.Heap.Tuple.{HeapTupleData, is_null}

pub data ColumnSearchArg : Type 0 where
  column_index : ℕ → ColumnSearchArg
  column_name : Bytes → ColumnSearchArg

-- The column's index and its metadata; an index out of range panics.
unfoldable pub resolve : ColumnSearchArg → PgSchema → Result PgError (ℕ × PgColumn)
resolve (column_index i) schema = do col ← unwrap (column schema i); ok (i, col)
resolve (column_name name) schema =
    ok_or (find_column 0 schema.columns name) (column_not_found (column_named name))

unfoldable pub get_column :
    HeapTupleData → ColumnSearchArg → PgSchema → ℕ → Result PgError (PgDatum × ℕ)
unfolding resolve
get_column t target schema offset = do
  (i, col) ← resolve target schema
  if is_null t i
      then err (null_column_value i)
      else map_err (λ e. decode_error (of_decode e)) (decode_datum col.type_id t.bytes offset)

unfoldable pub skip_column : HeapTupleData → ℕ → PgSchema → ℕ → Result PgError ℕ
skip_column t i schema offset = do
  col ← ok_or (column schema i) (column_not_found (Detail.column_index i))
  if is_null t i
      then err (null_column_value i)
      else map_err (λ e. decode_error (of_decode e))
          (skip_datum (type_len col.type_id) t.bytes offset)
