-- ===== src/Table/Reader/Same.antt =====
-- The three ways to fetch rows, side by side.
use mathlib.Core.List.{map-append}
use pg_arrow.Base.{
  ℕ, zero, suc, ◌<◌, ◌≡◌, refl, ap, sym, ◌∙◌, Bool, List, [], ◌∷◌, ◌++◌, map, some, Result, ok, err,
  panic, >>=-eq-ok, All, inl, inr, Bool-cases, if◌then◌else◌,
}
use pg_arrow.Types.Datum.{PgDatum}
use pg_arrow.Types.Schema.{PgSchema, num_columns}
use pg_arrow.Types.Catalog.Class.{PgClass}
use pg_arrow.File.Error.{PgError}
use pg_arrow.File.Reader.{FileSystem}
use pg_arrow.File.Scan.{
  PageRowIter, Round, yield, again, finished, crashed, round, Looped, visit_row as visit_next,
  after_round, for_each_row,
}
use pg_arrow.Heap.Page.{HeapPageData}
use pg_arrow.Heap.Tuple.{HeapTupleData}
use pg_arrow.Table.Rows.{decode_row}
use pg_arrow.Table.Rows.Positions.{Distinct}
use pg_arrow.Table.Rows.Project.{datum_at, decode_row_projected-decode_row}
use pg_arrow.Table.Reader.{
  PgTableReader, require_table, visit_row, visit_projected, visit_filter, loop_rows, fetch,
  fetch_all, fetch_all_projected, fetch_with_filter,
}

-- Two loops over the same rows whose bodies keep step.
module _ {S A B : Type 0} (get_page : S → ℕ → Result PgError HeapPageData × S)
    (visit : A → HeapTupleData → Result PgError A) (visit' : B → HeapTupleData → Result PgError B)
    (f : A → B)
    (in_step : (a a' : A) (t : HeapTupleData)
      → visit a t ≡ ok a'
      → visit' (f a) t ≡ ok (f a')) where
  visit_next-ok :
      (rest : A → Looped get_page visit) (rest' : B → Looped get_page visit') (a b : A)
      (t : HeapTupleData)
      → ((a' : A) → rest a' ≡ some (ok b) → rest' (f a') ≡ some (ok (f b)))
      → visit_next get_page visit rest (visit a t) ≡ some (ok b)
      → visit_next get_page visit' rest' (visit' (f a) t) ≡ some (ok (f b))
  unfolding visit_next
  visit_next-ok rest rest' a b t ih h = go (visit a t) refl h
    where
      go :
          (r : Result PgError A)
          → visit a t ≡ r
          → visit_next get_page visit rest r ≡ some (ok b)
          → visit_next get_page visit' rest' (visit' (f a) t) ≡ some (ok (f b))
      go (ok a') e k = rw (in_step a a' t e) (ih a' k)
      go (err x) e k = cc
      go panic e k = cc

  after_round-ok :
      (rest : PageRowIter S → A → Looped get_page visit)
      (rest' : PageRowIter S → B → Looped get_page visit') (a b : A) (r : Round S)
      → ((iter : PageRowIter S) (a' : A)
          → rest iter a' ≡ some (ok b)
          → rest' iter (f a') ≡ some (ok (f b)))
      → after_round get_page visit rest a r ≡ some (ok b)
      → after_round get_page visit' rest' (f a) r ≡ some (ok (f b))
  unfolding after_round
  after_round-ok rest rest' a b (yield row iter) ih h =
      visit_next-ok (rest iter) (rest' iter) a b row (ih iter) h
  after_round-ok rest rest' a b (again iter) ih h = ih iter a h
  after_round-ok rest rest' a b (finished iter) ih h =
      let e : a ≡ b = cc in ap (λ (x : A). some (ok (f x))) e
  after_round-ok rest rest' a b crashed ih h = cc

  for_each_row-ok :
      (fuel : ℕ) (iter : PageRowIter S) (a b : A)
      → for_each_row get_page visit fuel iter a ≡ some (ok b)
      → for_each_row get_page visit' fuel iter (f a) ≡ some (ok (f b))
  unfolding for_each_row
  for_each_row-ok zero iter a b h = cc
  for_each_row-ok (suc fuel) iter a b h =
      after_round-ok (for_each_row get_page visit fuel) (for_each_row get_page visit' fuel) a b
        (round get_page iter) (λ iter' a' k. for_each_row-ok fuel iter' a' b k) h

-- The rows that satisfy the predicate, in their order.
abbrev pub filter : (List PgDatum → Bool) → List (List PgDatum) → List (List PgDatum)
filter predicate [] = []
filter predicate (row ∷ rows) =
    let rest = filter predicate rows in if predicate row then row ∷ rest else rest

filter-append :
    (predicate : List PgDatum → Bool) (xs : List (List PgDatum)) (row : List PgDatum)
    → filter predicate (xs ++ (row ∷ []))
      ≡ (if predicate row then filter predicate xs ++ (row ∷ []) else filter predicate xs)
filter-append predicate [] row = refl
filter-append predicate (x ∷ xs) row = elim (Bool-cases (predicate x)) [
  | inl kept ↦
      rw (kept, filter-append predicate xs row)
        (elim (Bool-cases (predicate row)) [ inl e ↦ rw e refl | inr e ↦ rw e refl ])
  | inr dropped ↦ rw dropped (filter-append predicate xs row)
]

module _ (schema : PgSchema) (rows rows' : List (List PgDatum)) (t : HeapTupleData) where
  visit_row-ok :
      visit_row schema rows t ≡ ok rows'
      → (row : List PgDatum) × (decode_row t schema ≡ ok row) × (rows' ≡ rows ++ (row ∷ []))
  unfolding visit_row
  visit_row-ok h = let (row, decoded, e) = >>=-eq-ok (decode_row t schema) _ h in (row, decoded, cc)

  -- `fetch_with_filter` on a row that `fetch_all` decodes.
  visit_filter-ok :
      (predicate : List PgDatum → Bool)
      → visit_row schema rows t ≡ ok rows'
      → visit_filter schema predicate (filter predicate rows) t ≡ ok (filter predicate rows')
  unfolding visit_filter
  visit_filter-ok predicate h =
      let (row, decoded, e) = visit_row-ok h in
      rw (decoded, e) (ap ok (sym (filter-append predicate rows row)))

  -- `fetch_all_projected` on such a row.
  visit_projected-ok :
      (projection : List ℕ)
      → All (λ i. i < num_columns schema) projection
      → Distinct projection
      → visit_row schema rows t ≡ ok rows'
      → visit_projected schema projection (map (λ row. map (datum_at row) projection) rows) t
        ≡ ok (map (λ row. map (datum_at row) projection) rows')
  unfolding visit_projected
  visit_projected-ok projection inside distinct h =
      let (row, decoded, e) = visit_row-ok h in
      rw (decode_row_projected-decode_row t schema projection row decoded inside distinct, e)
        (ap ok (sym (map-append (λ row. map (datum_at row) projection) rows (row ∷ []))))

module _ (fs : FileSystem) (fuel : ℕ) (r : PgTableReader) {table : PgClass} {schema : PgSchema}
    (selected : require_table r ≡ ok (table, schema)) where
  fetch-selected :
      (visit : PgSchema
        → List (List PgDatum)
        → HeapTupleData
        → Result PgError (List (List PgDatum)))
      → fetch fs fuel visit r ≡ loop_rows fs fuel (visit schema) r.db_id table.relfilenode []
  unfolding fetch
  fetch-selected visit = rw (fetch, selected) refl

  fetch-ok :
      (visit visit' : PgSchema
        → List (List PgDatum)
        → HeapTupleData
        → Result PgError (List (List PgDatum)))
      (f : List (List PgDatum) → List (List PgDatum)) (rows : List (List PgDatum))
      → f [] ≡ []
      → ((a a' : List (List PgDatum)) (t : HeapTupleData)
          → visit schema a t ≡ ok a'
          → visit' schema (f a) t ≡ ok (f a'))
      → fetch fs fuel visit r ≡ some (ok rows)
      → fetch fs fuel visit' r ≡ some (ok (f rows))
  unfolding loop_rows
  fetch-ok visit visit' f rows nothing in_step h =
      fetch-selected visit'
      ∙ (ap (loop_rows fs fuel (visit' schema) r.db_id table.relfilenode) (sym nothing)
          ∙ for_each_row-ok _ (visit schema) (visit' schema) f in_step fuel _ [] rows
              (sym (fetch-selected visit) ∙ h))

-- With a table selected, and on files that do not change meanwhile: where `fetch_all` gives rows,
-- `fetch_all_projected` gives for every projection with indices in range of the table's schema, and none
-- of them twice, the projected columns of each of these rows, and `fetch_with_filter` gives those of
-- the rows that satisfy the predicate, both in the same order.
pub fetch_all-Same :
    (fs : FileSystem) (fuel : ℕ) (r : PgTableReader) (table : PgClass) (schema : PgSchema)
    (rows : List (List PgDatum)) (projection : List ℕ) (predicate : List PgDatum → Bool)
    → require_table r ≡ ok (table, schema)
    → fetch_all fs fuel r ≡ some (ok rows)
    → All (λ i. i < num_columns schema) projection
    → Distinct projection
    → (fetch_all_projected fs fuel r projection
        ≡ some (ok (map (λ row. map (datum_at row) projection) rows)))
      × (fetch_with_filter fs fuel r predicate ≡ some (ok (filter predicate rows)))
unfolding fetch_all fetch_all_projected fetch_with_filter
fetch_all-Same fs fuel r table schema rows projection predicate selected h inside distinct = (
  fetch-ok fs fuel r selected visit_row (λ s. visit_projected s projection)
      (map (λ row. map (datum_at row) projection)) rows refl
      (λ a a' t k. visit_projected-ok schema a a' t projection inside distinct k) h,
  fetch-ok fs fuel r selected visit_row (λ s. visit_filter s predicate) (filter predicate) rows refl
      (λ a a' t k. visit_filter-ok schema a a' t predicate k) h,
)
