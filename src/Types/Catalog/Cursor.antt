-- ===== src/Types/Catalog/Cursor.antt =====
-- src/types/pg_type.rs: `next_datum` and the conversions of a datum that the `from_row` functions
-- share. A cursor is an action on the offset that their closure `col` keeps.
use pg_arrow.Base.{
  ℕ, ◌+◌, Bool, false, Bytes, [], Option, none, some, Result, ok, err, panic, if◌then◌else◌,
  replicate,
}
use pg_arrow.Base.Int.{ℤ, pos}
use pg_arrow.Types.Datum.{PgDatum}
use pg_arrow.Types.Schema.{PgSchema, column}
use pg_arrow.File.Error.{PgError, null_column_value}
use pg_arrow.Heap.Tuple.{HeapTupleData, is_null}
use pg_arrow.Heap.Column.{column_index, get_column}
use pg_arrow.Table.Rows.{align_column}

abbrev pub Cursor : Type 0 → Type 0
Cursor A = ℕ → Result PgError (A × ℕ)

infixl 5 ◌>>=◌
unfoldable pub ◌>>=◌ : {A B : Type 0} → Cursor A → (A → Cursor B) → Cursor B
(action >>= next) offset = elim (action offset) [
  | ok (a, at) ↦ next a at
  | err e ↦ err e
  | panic ↦ panic
]

unfoldable pub pure : {A : Type 0} → A → Cursor A
pure a offset = ok (a, offset)

-- An action from offset 0 on.
unfoldable pub run : {A : Type 0} → Cursor A → Result PgError A
run action = elim (action 0) [ ok (a, at) ↦ ok a | err e ↦ err e | panic ↦ panic ]

-- The match on the outcome of `get_column` at `offset`.
unfoldable pub advance : ℕ → Result PgError (PgDatum × ℕ) → Result PgError (Option PgDatum × ℕ)
advance offset (ok (datum, size)) = ok (some datum, offset + size)
advance offset (err (null_column_value _)) = ok (none, offset)
advance offset (err e) = err e
advance offset panic = panic

-- The column that is not NULL: aligned, as in `decode_row`, and read.
unfoldable pub read_live : HeapTupleData → PgSchema → ℕ → Cursor (Option PgDatum)
unfolding advance
read_live tuple schema col_index offset = elim (column schema col_index) [
  | none ↦ panic
  | some col ↦
      let aligned = align_column col.type_id tuple.bytes offset in
      advance aligned (get_column tuple (column_index col_index) schema aligned)
]

unfoldable pub next_datum : HeapTupleData → PgSchema → ℕ → Cursor (Option PgDatum)
unfolding read_live
next_datum tuple schema col_index offset =
    if is_null tuple col_index then ok (none, offset) else read_live tuple schema col_index offset

unfoldable pub as_u32 : Option PgDatum → ℕ
as_u32 (some (PgDatum.oid v)) = v
as_u32 (some (PgDatum.xid v)) = v
as_u32 _ = 0

unfoldable pub as_i32 : Option PgDatum → ℤ
as_i32 (some (PgDatum.int4 v)) = v
as_i32 _ = pos 0

unfoldable pub as_i16 : Option PgDatum → ℤ
as_i16 (some (PgDatum.int2 v)) = v
as_i16 _ = pos 0

-- The bit pattern of 0.0 is 0.
unfoldable pub as_f32 : Option PgDatum → ℕ
as_f32 (some (PgDatum.float4 v)) = v
as_f32 _ = 0

unfoldable pub as_bool : Option PgDatum → Bool
as_bool (some (PgDatum.bool v)) = v
as_bool _ = false

unfoldable pub as_u8 : Option PgDatum → ℕ
as_u8 (some (PgDatum.char v)) = v
as_u8 _ = 0

unfoldable pub as_name : Option PgDatum → Bytes
as_name (some (PgDatum.name v)) = v
as_name _ = replicate 64 0

unfoldable pub as_name_str : Option PgDatum → Bytes
as_name_str (some (PgDatum.text v)) = v
as_name_str _ = []

-- `as_...(col(i)?)`
unfoldable pub field : {A : Type 0} → HeapTupleData → PgSchema → (Option PgDatum → A) → ℕ → Cursor A
unfolding ◌>>=◌ pure next_datum
field tuple schema convert i = do d ← next_datum tuple schema i; pure (convert d)
