-- ===== src/Table/Rows/Walk.antt =====
-- The walks of `decode_row` and of `decode_row_projected` side by side.
use pg_arrow.Base.{
  ℕ, zero, suc, ◌+◌, ◌≤◌, ◌≡◌, refl, arith, ap, false, List, [], ◌∷◌, Option, none, some, inl, inr,
  Bool-cases, Result, ok, err, panic, >>=-eq-ok, map_err, unwrap, length,
}
use pg_arrow.Types.TypeId.{type_len}
use pg_arrow.Types.Datum.{PgDatum, DecodeError}
use pg_arrow.Types.Codec.{decode_datum, skip_datum}
use pg_arrow.Types.Codec.Skip.{skip_datum-decode_datum}
use pg_arrow.Types.Codec.NotNull.{decode_datum-ne-null}
use pg_arrow.Types.Schema.{PgColumn, PgSchema, column}
use pg_arrow.File.Error.{PgError, decode_error, of_decode}
use pg_arrow.Heap.Tuple.{HeapTupleData, is_null}
use pg_arrow.Heap.Column.{column_index, resolve, get_column, skip_column}
use pg_arrow.Table.Rows.Scatter.{put_datum, scatter}
use pg_arrow.Table.Rows.{
  align_column, push_datum, push_null, decode_column, decode_columns, write_datum, skip_over,
  project_column, project_loop,
}

abbrev as_error : DecodeError → PgError
as_error e = decode_error (of_decode e)

unwrap-eq-ok : {A E : Type 0} (o : Option A) {a : A} → unwrap {E = E} o ≡ ok a → o ≡ some a
unwrap-eq-ok none h = cc
unwrap-eq-ok (some b) h = cc

pub push_null-ok :
    (rest : Result PgError (List PgDatum)) {row : List PgDatum}
    → push_null rest ≡ ok row
    → (columns : List PgDatum) × (rest ≡ ok columns) × (row ≡ PgDatum.null ∷ columns)
unfolding push_null
push_null-ok rest h = let (columns, found, h') = >>=-eq-ok rest _ h in (columns, found, cc)

-- A datum was decoded, and the columns behind it.
push_datum-ok :
    (rest : ℕ → Result PgError (List PgDatum)) (offset : ℕ) (r : Result DecodeError (PgDatum × ℕ))
    {row : List PgDatum}
    → push_datum rest offset (map_err as_error r) ≡ ok row
    → (d : PgDatum) × (size : ℕ) × (columns : List PgDatum) × (r ≡ ok (d, size))
      × (rest (offset + size) ≡ ok columns)
      × (row ≡ d ∷ columns)
unfolding push_datum
push_datum-ok rest offset (ok (d, size)) h =
    let (columns, found, h') = >>=-eq-ok (rest (offset + size)) _ h in
    (d, size, columns, refl, found, cc)
push_datum-ok rest offset (err e) h = cc
push_datum-ok rest offset panic h = cc

module _ (t : HeapTupleData) (s : PgSchema) (i : ℕ) {col : PgColumn} (live : is_null t i ≡ false)
    (there : column s i ≡ some col) (offset : ℕ) where
  pub get_column-live :
      get_column t (column_index i) s offset
      ≡ map_err as_error (decode_datum col.type_id t.bytes offset)
  unfolding get_column resolve
  get_column-live = rw (there, live) refl

  skip_column-live :
      skip_column t i s offset ≡ map_err as_error (skip_datum (type_len col.type_id) t.bytes offset)
  unfolding skip_column
  skip_column-live = rw (there, live) refl

-- What `decode_row` does on a column that is not NULL.
pub decode_column-ok :
    (t : HeapTupleData) (s : PgSchema) (i : ℕ) (rest : ℕ → Result PgError (List PgDatum))
    (offset : ℕ) {row : List PgDatum}
    → is_null t i ≡ false
    → decode_column t s i rest offset ≡ ok row
    → (col : PgColumn) × (column s i ≡ some col)
      × ((d : PgDatum) × (size : ℕ) × (columns : List PgDatum) × (decode_datum col.type_id t.bytes
              (align_column col.type_id t.bytes offset)
            ≡ ok (d, size))
          × (rest (align_column col.type_id t.bytes offset + size) ≡ ok columns)
          × (row ≡ d ∷ columns))
unfolding decode_column
decode_column-ok t s i rest offset live h =
    let (col, found, h') = >>=-eq-ok (unwrap (column s i)) _ h in
    let there = unwrap-eq-ok (column s i) found in
    let aligned = align_column col.type_id t.bytes offset in
    (
      col,
      there,
      push_datum-ok rest aligned (decode_datum col.type_id t.bytes aligned)
          (rw (get_column-live t s i live there aligned) at h'),
    )

-- The same column in `decode_row_projected`.
project_column-ok :
    (t : HeapTupleData) (s : PgSchema) (i : ℕ) (place : Option ℕ)
    (rest : ℕ → List PgDatum → Result PgError (List PgDatum)) (offset : ℕ) (out : List PgDatum)
    {col : PgColumn} {d : PgDatum} {size : ℕ}
    → is_null t i ≡ false
    → column s i ≡ some col
    → decode_datum col.type_id t.bytes (align_column col.type_id t.bytes offset) ≡ ok (d, size)
    → project_column t s i place rest offset out
      ≡ rest (align_column col.type_id t.bytes offset + size) (scatter (place ∷ []) (d ∷ []) out)
unfolding project_column write_datum skip_over
project_column-ok t s i none rest offset out {col} live there decoded =
    let aligned = align_column col.type_id t.bytes offset in
    let skipped = skip_datum-decode_datum col.type_id t.bytes aligned decoded in
    rw (there, skip_column-live t s i live there aligned, skipped.0) refl
project_column-ok t s i (some j) rest offset out {col} {d} live there decoded =
    let aligned = align_column col.type_id t.bytes offset in
    let written = put_datum d j out (decode_datum-ne-null col.type_id t.bytes aligned decoded) in
    rw (there, get_column-live t s i live there aligned, decoded, written) refl

scatter-step :
    (place : Option ℕ) (places : List (Option ℕ)) (d : PgDatum) (row out : List PgDatum)
    → scatter (place ∷ places) (d ∷ row) out
      ≡ scatter places row (scatter (place ∷ []) (d ∷ []) out)
scatter-step none places d row out = refl
scatter-step (some j) places d row out = refl

scatter_null :
    (place : Option ℕ) (out : List PgDatum) → scatter (place ∷ []) (PgDatum.null ∷ []) out ≡ out
scatter_null none out = refl
scatter_null (some j) out = refl

-- Where `decode_row` gives a row from column `i` on, the projected walk writes that row's datums to
-- their places, for as many columns as it walks over.
pub project_loop-scatter :
    (t : HeapTupleData) (s : PgSchema) (places : List (Option ℕ)) (i n offset : ℕ)
    (row out : List PgDatum)
    → length places ≤ n
    → decode_columns t s i n offset ≡ ok row
    → project_loop t s i places offset out ≡ ok (scatter places row out)
unfolding project_loop decode_columns
project_loop-scatter t s [] i n offset row out l h = refl
project_loop-scatter t s (place ∷ places) i zero offset row out l h = absurd (omega arith)
project_loop-scatter t s (place ∷ places) i (suc n) offset row out l h =
    elim (Bool-cases (is_null t i)) [
      | inl null ↦
          let (columns, found, e) =
            push_null-ok (decode_columns t s (i + 1) n offset) (rw null at h) in
          rw (null, e, scatter-step place places PgDatum.null columns out, scatter_null place out)
            (project_loop-scatter t s places (i + 1) n offset columns out (omega arith) found)
      | inr live ↦
          let (col, there, (d, size, columns, decoded, found, e)) =
            decode_column-ok t s i (decode_columns t s (i + 1) n) offset live (rw live at h) in
          rw
            (
              live,
              e,
              project_column-ok t s i place (project_loop t s (i + 1) places) offset out live there
                  decoded,
              scatter-step place places d columns out,
            )
            (project_loop-scatter t s places (i + 1) n _ columns _ (omega arith) found)
    ]

pub length-decode_columns :
    (t : HeapTupleData) (s : PgSchema) (i n offset : ℕ) (row : List PgDatum)
    → decode_columns t s i n offset ≡ ok row
    → length row ≡ n
unfolding decode_columns
length-decode_columns t s i zero offset row h = let e : [] ≡ row = cc in rw (← e) refl
length-decode_columns t s i (suc n) offset row h = elim (Bool-cases (is_null t i)) [
  | inl null ↦
      let (columns, found, e) = push_null-ok (decode_columns t s (i + 1) n offset) (rw null at h) in
      rw e (ap suc (length-decode_columns t s (i + 1) n offset columns found))
  | inr live ↦
      let (col, there, (d, size, columns, decoded, found, e)) =
        decode_column-ok t s i (decode_columns t s (i + 1) n) offset live (rw live at h) in
      rw e (ap suc (length-decode_columns t s (i + 1) n _ columns found))
]
