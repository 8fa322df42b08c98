-- ===== src/Table/Reader/Fetch.antt =====
-- What `fetch_all` gives on the pages of the selected table, and what the catalogs hold.
use pg_arrow.Base.{
  ℕ, ◌^◌, ◌≤◌, ◌<◌, ◌≡◌, refl, ap, sym, ◌∙◌, List, [], ◌∷◌, ◌++◌, All, some, Result, ok, err, panic,
  ◌>>=◌, length, if◌then◌else◌, ◌==◌, inl, inr, Bool-cases,
}
use mathlib.Core.List.{append_assoc, append-nil}
use pg_arrow.Types.Datum.{PgDatum}
use pg_arrow.Types.Schema.{PgSchema, PgAttribute}
use pg_arrow.Types.Catalog.Relation.{catalog_schema}
use pg_arrow.Types.Catalog.Tables.{pg_class, pg_attribute}
use pg_arrow.Types.Catalog.Class
use pg_arrow.Types.Catalog.Class.{PgClass}
use pg_arrow.Types.Catalog.Attribute
use pg_arrow.File.Error.{PgError}
use pg_arrow.File.Reader.{FileSystem}
use pg_arrow.File.Reader.Pages.{get_page_reader, get_page_by_index}
use pg_arrow.File.Scan.Pages.{IsPage, rows_of, rounds, Serves, visit_all}
use pg_arrow.File.Scan.Visits.{for_each_row-rows_of}
use pg_arrow.Heap.Page.{HeapPageData}
use pg_arrow.Heap.Tuple.{HeapTupleData}
use pg_arrow.Table.Rows.{decode_row}
use pg_arrow.Table.Reader.{
  PgTableReader, require_table, visit_row, visit_class, visit_attribute, keep_row, then_loop,
  rows_in, loop_rows, bootstrap_catalogs, fetch, fetch_all,
}

-- Every row decoded, or the first error.
unfoldable pub decode_all : PgSchema → List HeapTupleData → Result PgError (List (List PgDatum))
decode_all schema [] = ok []
decode_all schema (t ∷ ts) = do
  row ← decode_row t schema
  rows ← decode_all schema ts
  ok (row ∷ rows)

keep_rest :
    {A : Type 0} (r : Result PgError (List A)) (rows : List A) (row : A)
    → (r >>= λ more. ok ((rows ++ (row ∷ [])) ++ more))
      ≡ ((r >>= λ more. ok (row ∷ more)) >>= λ more. ok (rows ++ more))
keep_rest (ok more) rows row = ap ok (append_assoc rows (row ∷ []) more)
keep_rest (err e) rows row = refl
keep_rest panic rows row = refl

visit_all-decode_all :
    (schema : PgSchema) (ts : List HeapTupleData) (rows : List (List PgDatum))
    → visit_all (visit_row schema) rows ts ≡ (decode_all schema ts >>= λ more. ok (rows ++ more))
unfolding visit_all decode_all visit_row
visit_all-decode_all schema [] rows = ap ok (sym (append-nil rows))
visit_all-decode_all schema (t ∷ ts) rows =
    go (decode_row t schema) (λ more. visit_all-decode_all schema ts more)
  where
    go :
        (r : Result PgError (List PgDatum))
        → ((more : List (List PgDatum))
            → visit_all (visit_row schema) more ts
              ≡ (decode_all schema ts >>= λ rest. ok (more ++ rest)))
        → ((r >>= λ row. ok (rows ++ (row ∷ []))) >>= λ a. visit_all (visit_row schema) a ts) ≡ (
            (r >>= λ row. decode_all schema ts >>= λ more. ok (row ∷ more)) >>= λ more.
            ok (rows ++ more))
    go (ok row) ih = ih (rows ++ (row ∷ [])) ∙ keep_rest (decode_all schema ts) rows row
    go (err e) ih = refl
    go panic ih = refl

same_result : {A : Type 0} (r : Result PgError A) → (r >>= ok) ≡ r
same_result (ok a) = refl
same_result (err e) = refl
same_result panic = refl

-- What is read of a row, in front, where it decodes.
unfoldable pub keep_first :
    {A : Type 0} → Result PgError A → Result PgError (List A) → Result PgError (List A)
keep_first (ok a) rest = rest >>= λ more. ok (a ∷ more)
keep_first (err e) rest = rest
keep_first panic rest = panic

-- What is read of the rows that decode; the others are left out.
unfoldable pub kept :
    {A : Type 0} → (HeapTupleData → Result PgError A) → List HeapTupleData → Result PgError (List A)
unfolding keep_first
kept read [] = ok []
kept read (t ∷ ts) = keep_first (read t) (kept read ts)

-- The pages of a relation, as its reader gives them.
abbrev pub Stored : FileSystem → (db_id relation : ℕ) → List HeapPageData → Type 0
Stored fs db_id relation pages =
    Serves (get_page_by_index fs)
      (get_page_reader (record { relation_id = relation; db_id = db_id })) 0 pages
    × All IsPage pages
    × (length pages ≤ 2 ^ 32)

-- The rows of a catalog that no transaction has deleted.
unfoldable pub live_rows : List HeapTupleData → List HeapTupleData
live_rows [] = []
live_rows (t ∷ ts) = let rest = live_rows ts in if t.header.t_xmax == 0 then t ∷ rest else rest

keep_row-keep_first :
    {A : Type 0} (rows : List A) (r : Result PgError A) (next : List A → Result PgError (List A))
    (rest : Result PgError (List A))
    → ((more : List A) → next more ≡ (rest >>= λ a. ok (more ++ a)))
    → (keep_row rows r >>= next) ≡ (keep_first r rest >>= λ a. ok (rows ++ a))
unfolding keep_row keep_first
keep_row-keep_first rows (ok row) next rest h = h (rows ++ (row ∷ [])) ∙ keep_rest rest rows row
keep_row-keep_first rows (err e) next rest h = h rows
keep_row-keep_first rows panic next rest h = refl

visit_attribute-kept :
    (ts : List HeapTupleData) (rows : List PgAttribute)
    → visit_all visit_attribute rows ts
      ≡ (kept (λ t. Attribute.from_row t (catalog_schema pg_attribute)) ts >>= λ a. ok (rows ++ a))
unfolding visit_all kept visit_attribute
visit_attribute-kept [] rows = ap ok (sym (append-nil rows))
visit_attribute-kept (t ∷ ts) rows =
    keep_row-keep_first rows (Attribute.from_row t (catalog_schema pg_attribute))
      (λ a. visit_all visit_attribute a ts) _ (λ more. visit_attribute-kept ts more)

visit_class-kept :
    (ts : List HeapTupleData) (rows : List PgClass)
    → visit_all visit_class rows ts ≡ (
        kept (λ t. Class.from_row t (catalog_schema pg_class)) (live_rows ts) >>= λ a.
        ok (rows ++ a))
unfolding visit_all kept visit_class live_rows
visit_class-kept [] rows = ap ok (sym (append-nil rows))
visit_class-kept (t ∷ ts) rows = elim (Bool-cases (t.header.t_xmax == 0)) [
  | inl live ↦ rw live (
      keep_row-keep_first rows (Class.from_row t (catalog_schema pg_class))
        (λ a. visit_all visit_class a ts) _ (λ more. visit_class-kept ts more))
  | inr dead ↦ rw dead (visit_class-kept ts rows)
]

module _ (fs : FileSystem) (fuel : ℕ) where
  loop_rows-Stored :
      {A : Type 0} (visit : A → HeapTupleData → Result PgError A) (db_id relation : ℕ)
      (pages : List HeapPageData) (a : A)
      → Stored fs db_id relation pages
      → rounds pages < fuel
      → loop_rows fs fuel visit db_id relation a ≡ some (visit_all visit a (rows_of pages))
  unfolding loop_rows rows_in
  loop_rows-Stored visit db_id relation pages a (serves, all, small) enough =
      for_each_row-rows_of (get_page_by_index fs) visit
        (get_page_reader (record { relation_id = relation; db_id = db_id })) pages fuel a serves all
        small enough

  pub bootstrap_catalogs-kept :
      (db_id : ℕ) (class_pages attribute_pages : List HeapPageData) (classes : List PgClass)
      (attributes : List PgAttribute)
      → Stored fs db_id 1259 class_pages
      → Stored fs db_id 1249 attribute_pages
      → rounds class_pages < fuel
      → rounds attribute_pages < fuel
      → kept (λ t. Class.from_row t (catalog_schema pg_class)) (live_rows (rows_of class_pages))
        ≡ ok classes
      → kept (λ t. Attribute.from_row t (catalog_schema pg_attribute)) (rows_of attribute_pages)
        ≡ ok attributes
      → bootstrap_catalogs fs fuel db_id ≡ some (ok (classes, attributes))
  unfolding bootstrap_catalogs then_loop pg_class pg_attribute
  bootstrap_catalogs-kept db_id class_pages attribute_pages classes attributes c a fc fa hc ha =
      let read_classes : loop_rows fs fuel visit_class db_id 1259 [] ≡ some (ok classes) =
        loop_rows-Stored visit_class db_id 1259 class_pages [] c fc
        ∙ ap some (
            visit_class-kept (rows_of class_pages) []
            ∙ ap (λ (r : Result PgError (List PgClass)). r >>= λ x. ok x) hc) in
      let read_attributes : loop_rows fs fuel visit_attribute db_id 1249 [] ≡ some (ok attributes) =
        loop_rows-Stored visit_attribute db_id 1249 attribute_pages [] a fa
        ∙ ap some (
            visit_attribute-kept (rows_of attribute_pages) []
            ∙ ap (λ (r : Result PgError (List PgAttribute)). r >>= λ x. ok x) ha) in
      rw (read_classes, read_attributes) refl

  pub fetch_all-decode_all :
      (r : PgTableReader) (table : PgClass) (schema : PgSchema) (pages : List HeapPageData)
      → require_table r ≡ ok (table, schema)
      → Stored fs r.db_id table.relfilenode pages
      → rounds pages < fuel
      → fetch_all fs fuel r ≡ some (decode_all schema (rows_of pages))
  unfolding fetch_all fetch
  fetch_all-decode_all r table schema pages selected stored enough =
      ap
        (λ (x : Result PgError (PgClass × PgSchema)). elim x [
          | ok (t, s) ↦ loop_rows fs fuel (visit_row s) r.db_id t.relfilenode []
          | err e ↦ some (err e)
          | panic ↦ some panic
        ])
        selected
      ∙ (loop_rows-Stored (visit_row schema) r.db_id table.relfilenode pages [] stored enough
          ∙ ap some (
              visit_all-decode_all schema (rows_of pages) []
              ∙ same_result (decode_all schema (rows_of pages))))
