-- ===== src/Table/Rows.antt =====
-- src/table/mod.rs: `decode_row` and `decode_row_projected`.
pub mod Scatter
pub mod Positions
pub mod Walk
pub mod Project
pub mod Nulls
pub mod Tests
use pg_arrow.Base.{
  ℕ, zero, suc, ◌+◌, Bool, true, false, Bytes, List, [], ◌∷◌, Option, none, some, Result, ok, err,
  panic, ◌>>=◌, ltb, leb, ◌==◌, if◌then◌else◌, length, get_elem?, set, replicate, unwrap,
}
use pg_arrow.Types.Defs.{PgTypeId, PgTypeLen}
use pg_arrow.Types.TypeId.{type_len, align}
use pg_arrow.Types.Datum.{PgDatum}
use pg_arrow.Types.Schema.{PgSchema, column, num_columns}
use pg_arrow.File.Error.{PgError, null_column_value, column_not_found, column_out_of}
use pg_arrow.Heap.Tuple.{HeapTupleData, is_null}
use pg_arrow.Heap.Page.{align_to}
use pg_arrow.Heap.Column.{column_index, get_column, skip_column}

-- `tuple.data.get(offset).is_none_or(|&b| b == 0)`
unfoldable pub is_pad : Bytes → ℕ → Bool
is_pad bytes offset = elim (get_elem? bytes offset) [ none ↦ true | some b ↦ b == 0 ]

unfoldable pub is_varlena : PgTypeLen → Bool
is_varlena PgTypeLen.varlena = true
is_varlena _ = false

-- The alignment rules of `att_align_pointer`, before a column of type `t` is read.
unfoldable pub align_column : PgTypeId → Bytes → ℕ → ℕ
align_column t bytes offset =
    if ltb 1 (align t)
    then if is_varlena (type_len t)
      then if is_pad bytes offset then align_to offset (align t) else offset
      else align_to offset (align t)
    else offset

-- What `decode_row` does with the outcome of `get_column` at `offset`; `rest` decodes the columns
-- behind from its offset on.
unfoldable pub push_datum :
    (ℕ → Result PgError (List PgDatum))
    → ℕ
    → Result PgError (PgDatum × ℕ)
    → Result PgError (List PgDatum)
push_datum rest offset (ok (datum, size)) = do columns ← rest (offset + size); ok (datum ∷ columns)
push_datum rest offset (err (null_column_value _)) = do
  columns ← rest offset
  ok (PgDatum.null ∷ columns)
push_datum rest offset (err e) = err e
push_datum rest offset panic = panic

pub push_null : Result PgError (List PgDatum) → Result PgError (List PgDatum)
push_null rest = do columns ← rest; ok (PgDatum.null ∷ columns)

-- One column that is not NULL.
pub decode_column :
    HeapTupleData
    → PgSchema
    → ℕ
    → (ℕ → Result PgError (List PgDatum))
    → ℕ
    → Result PgError (List PgDatum)
decode_column tuple schema i rest offset = do
  col ← unwrap (column schema i)
  let aligned = align_column col.type_id tuple.bytes offset
  push_datum rest aligned (get_column tuple (column_index i) schema aligned)

-- The loop of `decode_row`: `n` columns from column `i` on.
unfoldable pub decode_columns : HeapTupleData → PgSchema → ℕ → ℕ → ℕ → Result PgError (List PgDatum)
unfolding push_null decode_column
decode_columns tuple schema i zero offset = ok []
decode_columns tuple schema i (suc n) offset =
    let rest = decode_columns tuple schema (i + 1) n in
    if is_null tuple i then push_null (rest offset) else decode_column tuple schema i rest offset

-- A `PgRow` is its columns.
unfoldable pub decode_row : HeapTupleData → PgSchema → Result PgError (List PgDatum)
decode_row tuple schema = decode_columns tuple schema 0 (num_columns schema) 0

-- The first index of the projection that is out of range.
unfoldable pub first_out_of : ℕ → List ℕ → Option ℕ
first_out_of n [] = none
first_out_of n (i ∷ projection) =
    let later = first_out_of n projection in if leb n i then some i else later

-- `iter().copied().max()` of a list that is not empty, with 0 for the empty one.
unfoldable pub max_index : List ℕ → ℕ
max_index [] = 0
max_index (i ∷ projection) = let rest = max_index projection in if ltb i rest then rest else i

-- `output_pos[col_idx] = Some(out_idx)` for the entries of the projection from `out_idx` on.
unfoldable pub fill_positions : List (Option ℕ) → ℕ → List ℕ → List (Option ℕ)
fill_positions positions out_idx [] = positions
fill_positions positions out_idx (col_idx ∷ projection) =
    fill_positions (set positions col_idx (some out_idx)) (out_idx + 1) projection

-- A projected column: its datum is written to its place in the output.
unfoldable pub write_datum :
    (ℕ → List PgDatum → Result PgError (List PgDatum))
    → ℕ
    → ℕ
    → List PgDatum
    → Result PgError (PgDatum × ℕ)
    → Result PgError (List PgDatum)
write_datum rest place offset columns (ok (datum, size)) =
    rest (offset + size) (set columns place datum)
write_datum rest place offset columns (err (null_column_value _)) = rest offset columns
write_datum rest place offset columns (err e) = err e
write_datum rest place offset columns panic = panic

-- A column that is not projected: the offset moves behind it.
unfoldable pub skip_over :
    (ℕ → List PgDatum → Result PgError (List PgDatum))
    → ℕ
    → List PgDatum
    → Result PgError ℕ
    → Result PgError (List PgDatum)
skip_over rest offset columns (ok size) = rest (offset + size) columns
skip_over rest offset columns (err (null_column_value _)) = rest offset columns
skip_over rest offset columns (err e) = err e
skip_over rest offset columns panic = panic

-- One column that is not NULL, with its place in the output.
project_column :
    HeapTupleData
    → PgSchema
    → ℕ
    → Option ℕ
    → (ℕ → List PgDatum → Result PgError (List PgDatum))
    → ℕ
    → List PgDatum
    → Result PgError (List PgDatum)
project_column tuple schema i place rest offset columns = do
  col ← unwrap (column schema i)
  let aligned = align_column col.type_id tuple.bytes offset
  elim place [
    | some j ↦ write_datum rest j aligned columns (get_column tuple (column_index i) schema aligned)
    | none ↦ skip_over rest aligned columns (skip_column tuple i schema aligned)
  ]

-- The loop of `decode_row_projected` over the places of the columns from column `i` on.
unfoldable pub project_loop :
    HeapTupleData
    → PgSchema
    → ℕ
    → List (Option ℕ)
    → ℕ
    → List PgDatum
    → Result PgError (List PgDatum)
unfolding project_column
project_loop tuple schema i [] offset columns = ok columns
project_loop tuple schema i (place ∷ positions) offset columns =
    let rest = project_loop tuple schema (i + 1) positions in
    if is_null tuple i
    then rest offset columns
    else project_column tuple schema i place rest offset columns

-- The walk for a projection that is not empty and in range.
project_checked : HeapTupleData → PgSchema → List ℕ → Result PgError (List PgDatum)
project_checked tuple schema projection =
    project_loop tuple schema 0
      (fill_positions (replicate (suc (max_index projection)) none) 0 projection) 0
      (replicate (length projection) PgDatum.null)

unfoldable pub decode_row_projected :
    HeapTupleData → PgSchema → List ℕ → Result PgError (List PgDatum)
unfolding project_checked
decode_row_projected tuple schema [] = ok []
decode_row_projected tuple schema (i ∷ projection) =
    elim (first_out_of (num_columns schema) (i ∷ projection)) [
      | some bad ↦ err (column_not_found (column_out_of bad (num_columns schema)))
      | none ↦ project_checked tuple schema (i ∷ projection)
    ]
