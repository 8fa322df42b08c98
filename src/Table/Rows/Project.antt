-- ===== src/Table/Rows/Project.antt =====
-- `decode_row_projected` against `decode_row`.
use mathlib.Core.Path.{subst}
use pg_arrow.Base.{
  ℕ, zero, suc, ◌≤◌, ◌<◌, ◌≡◌, refl, arith, sym, ap, ◌∙◌, List, [], ◌∷◌, map, Option, none, some,
  All, All-get_elem?, ok, length, length-map, length-replicate, get_elem?, get_elem?-in,
  get_elem?-lt, replicate,
}
use pg_arrow.Types.Datum.{PgDatum}
use pg_arrow.Types.Schema.{PgSchema, num_columns}
use pg_arrow.Heap.Tuple.{HeapTupleData}
use pg_arrow.Table.Rows.Positions.{
  Distinct, length-fill_positions, fill_positions-place, get_elem?-replicate, fill_positions-Only,
  max_index-le, max_index-lt, first_out_of-in,
}
use pg_arrow.Table.Rows.Scatter.{scatter, length-scatter, scatter-Only}
use pg_arrow.Table.Rows.Walk.{project_loop-scatter, length-decode_columns}
use pg_arrow.Table.Rows.{
  decode_row, max_index, fill_positions, project_checked, decode_row_projected,
}

-- Column `i` of a row.
abbrev pub datum_at : List PgDatum → ℕ → PgDatum
datum_at row i = elim (get_elem? row i) [ none ↦ PgDatum.null | some d ↦ d ]

datum_at-in :
    (row : List PgDatum) (i : ℕ) {v : PgDatum} → get_elem? row i ≡ some v → datum_at row i ≡ v
datum_at-in row i h = rw (h, datum_at) refl

list_ext :
    {A : Type 0} (xs ys : List A)
    → length xs ≡ length ys
    → ((k : ℕ) (y : A) → get_elem? ys k ≡ some y → get_elem? xs k ≡ some y)
    → xs ≡ ys
list_ext [] [] l h = refl
list_ext [] (y ∷ ys) l h = absurd (omega arith)
list_ext (x ∷ xs) [] l h = absurd (omega arith)
list_ext (x ∷ xs) (y ∷ ys) l h =
    let tails = list_ext xs ys (omega arith) (λ k. h (suc k)) in
    let heads : some x ≡ some y = h 0 y refl in cc

get_elem?-map-some :
    {A B : Type 0} (f : A → B) (xs : List A) (k : ℕ) {y : B}
    → get_elem? (map f xs) k ≡ some y
    → (x : A) × (get_elem? xs k ≡ some x) × (y ≡ f x)
get_elem?-map-some f [] k h = cc
get_elem?-map-some f (x ∷ xs) zero h = (x, refl, cc)
get_elem?-map-some f (x ∷ xs) (suc k) h = get_elem?-map-some f xs k h

-- The places of the projection, and what the row's datums give at them.
module _ (projection : List ℕ) (row : List PgDatum) where
  places : List (Option ℕ)
  places = fill_positions (replicate (suc (max_index projection)) none) 0 projection

  length-places : length places ≡ suc (max_index projection)
  unfolding places
  length-places =
      length-fill_positions (replicate (suc (max_index projection)) none) 0 projection
      ∙ length-replicate (suc (max_index projection)) none

  blank : List PgDatum
  blank = replicate (length projection) PgDatum.null

  -- The entry of the output for entry `k` of the projection.
  scatter-place :
      (k i : ℕ)
      → Distinct projection
      → get_elem? projection k ≡ some i
      → i < length row
      → get_elem? (scatter places row blank) k ≡ some (datum_at row i)
  unfolding places blank
  scatter-place k i d found within =
      let (datum, there) = get_elem?-in row i within in
      let size = suc (max_index projection) in
      let below : i < size = omega (arith, max_index-le projection k i found) in
      let room = get_elem?-replicate size i none below in
      let place : get_elem? places i ≡ some (some k) =
        fill_positions-place (replicate size none) 0 projection k i d found room
        ∙ ap some (ap some (omega arith)) in
      let inside : k < length projection = get_elem?-lt projection k found in
      let empty = get_elem?-replicate (length projection) k PgDatum.null inside in
      scatter-Only places row blank i k place (fill_positions-Only size projection k i found) there
        empty
      ∙ ap some (sym (datum_at-in row i there))

  scatter-places :
      Distinct projection
      → All (λ i. i < length row) projection
      → scatter places row blank ≡ map (datum_at row) projection
  scatter-places d inside =
      list_ext (scatter places row blank) (map (datum_at row) projection) lengths entries
    where
      lengths : length (scatter places row blank) ≡ length (map (datum_at row) projection)
      lengths =
          unfold blank in
          length-scatter places row blank
          ∙ (length-replicate (length projection) PgDatum.null
              ∙ sym (length-map (datum_at row) projection))

      entries :
          (k : ℕ) (y : PgDatum)
          → get_elem? (map (datum_at row) projection) k ≡ some y
          → get_elem? (scatter places row blank) k ≡ some y
      entries k y h =
          let (i, found, e) = get_elem?-map-some (datum_at row) projection k h in
          scatter-place k i d found
            (All-get_elem? (λ (j : ℕ). j < length row) projection k i inside found)
          ∙ ap some (sym e)

-- Where `decode_row` gives a row, `decode_row_projected` gives for every projection with indices in
-- range, and none of them twice, the row of the projected columns in the order of the projection.
pub decode_row_projected-decode_row :
    (t : HeapTupleData) (s : PgSchema) (projection : List ℕ) (row : List PgDatum)
    → decode_row t s ≡ ok row
    → All (λ i. i < num_columns s) projection
    → Distinct projection
    → decode_row_projected t s projection ≡ ok (map (datum_at row) projection)
unfolding decode_row decode_row_projected project_checked places blank
decode_row_projected-decode_row t s [] row h inside d = refl
decode_row_projected-decode_row t s (c ∷ projection) row h inside d =
    let n = num_columns s in
    let whole = c ∷ projection in
    let width : length row ≡ n = length-decode_columns t s 0 n 0 row h in
    let few : length (places whole row) ≤ n =
      omega (arith, length-places whole row, max_index-lt n c projection inside) in
    rw
      (
        decode_row_projected,
        first_out_of-in n whole inside,
        project_loop-scatter t s (places whole row) 0 n 0 row (blank whole row) few h,
        scatter-places whole row d (subst (λ (m : ℕ). All (λ i. i < m) whole) (sym width) inside),
      )
      refl

-- A row that `decode_row` gives has as many datums as the schema has columns.
pub length-decode_row :
    (t : HeapTupleData) (s : PgSchema) (row : List PgDatum)
    → decode_row t s ≡ ok row
    → length row ≡ num_columns s
unfolding decode_row
length-decode_row t s row h = length-decode_columns t s 0 (num_columns s) 0 row h
