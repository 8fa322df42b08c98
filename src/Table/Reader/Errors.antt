-- ===== src/Table/Reader/Errors.antt =====
-- The errors of a new reader.
use pg_arrow.Base.{
  ℕ, zero, suc, ◌≡◌, ◌≢◌, refl, ap, List, ok, err, panic, Option, none, some, Result, inl, inr,
  Bool-cases, ◌==◌,
}
use pg_arrow.Types.Catalog.Relation.{catalog_schema}
use pg_arrow.Types.Catalog.Tables.{pg_class, pg_attribute}
use pg_arrow.Types.Catalog.Class
use pg_arrow.Types.Catalog.Class.{PgClass}
use pg_arrow.Types.Catalog.Attribute
use pg_arrow.Types.Schema.{PgAttribute}
use pg_arrow.File.Error.{PgError}
use pg_arrow.File.Reader.{FileSystem}
use pg_arrow.File.Reader.Pages.{get_page_by_index}
use pg_arrow.File.Scan.{
  PageRowIter, Round, yield, again, finished, crashed, round, Looped, visit_row, after_round,
  for_each_row,
}
use pg_arrow.Heap.Page.{HeapPageData}
use pg_arrow.Heap.Tuple.{HeapTupleData}
use pg_arrow.Table.Reader.{
  keep_row, visit_class, visit_attribute, then_loop, loop_rows, bootstrap_catalogs, new_reader,
}

keep_row-ne-err :
    {A : Type 0} (rows : List A) (r : Result PgError A) (e : PgError) → keep_row rows r ≢ err e
unfolding keep_row
keep_row-ne-err rows (ok row) e h = cc
keep_row-ne-err rows (err x) e h = cc
keep_row-ne-err rows panic e h = cc

visit_class-ne-err :
    (rows : List PgClass) (t : HeapTupleData) (e : PgError) → visit_class rows t ≢ err e
unfolding visit_class
visit_class-ne-err rows t e h = elim (Bool-cases (t.header.t_xmax == 0)) [
  | inl live ↦ keep_row-ne-err rows (Class.from_row t (catalog_schema pg_class)) e (rw live at h)
  | inr dead ↦ let bad : ok rows ≡ err e = rw dead at h in cc
]

visit_attribute-ne-err :
    (rows : List PgAttribute) (t : HeapTupleData) (e : PgError) → visit_attribute rows t ≢ err e
unfolding visit_attribute
visit_attribute-ne-err rows t e h =
    keep_row-ne-err rows (Attribute.from_row t (catalog_schema pg_attribute)) e h

-- A loop whose body has no error.
module _ {S A : Type 0} (get_page : S → ℕ → Result PgError HeapPageData × S)
    (visit : A → HeapTupleData → Result PgError A)
    (no_error : (a : A) (t : HeapTupleData) (e : PgError) → visit a t ≢ err e) (e : PgError) where
  visit_row-ne-err :
      (rest : A → Looped get_page visit) (a : A) (t : HeapTupleData) (r : Result PgError A)
      → visit a t ≡ r
      → ((a' : A) → rest a' ≢ some (err e))
      → visit_row get_page visit rest r ≢ some (err e)
  unfolding visit_row
  visit_row-ne-err rest a t (ok a') found ih h = ih a' h
  visit_row-ne-err rest a t (err x) found ih h = no_error a t x found
  visit_row-ne-err rest a t panic found ih h = cc

  after_round-ne-err :
      (rest : PageRowIter S → A → Looped get_page visit) (a : A) (r : Round S)
      → ((iter : PageRowIter S) (a' : A) → rest iter a' ≢ some (err e))
      → after_round get_page visit rest a r ≢ some (err e)
  unfolding after_round
  after_round-ne-err rest a (yield row iter) ih h =
      visit_row-ne-err (rest iter) a row (visit a row) refl (ih iter) h
  after_round-ne-err rest a (again iter) ih h = ih iter a h
  after_round-ne-err rest a (finished iter) ih h = cc
  after_round-ne-err rest a crashed ih h = cc

  for_each_row-ne-err :
      (fuel : ℕ) (iter : PageRowIter S) (a : A)
      → for_each_row get_page visit fuel iter a ≢ some (err e)
  unfolding for_each_row
  for_each_row-ne-err zero iter a h = cc
  for_each_row-ne-err (suc fuel) iter a h =
      after_round-ne-err (for_each_row get_page visit fuel) a (round get_page iter)
        (λ iter' a' k. for_each_row-ne-err fuel iter' a' k) h

then_loop-ne-err :
    {A B : Type 0} (r : Option (Result PgError A)) (rest : A → Option (Result PgError B))
    (e : PgError)
    → r ≢ some (err e)
    → ((a : A) → rest a ≢ some (err e))
    → then_loop r rest ≢ some (err e)
unfolding then_loop
then_loop-ne-err none rest e h k x = cc
then_loop-ne-err (some (ok a)) rest e h k x = k a x
then_loop-ne-err (some (err y)) rest e h k x =
    let same : y ≡ e = cc in h (ap (λ (z : PgError). some (err z)) same)
then_loop-ne-err (some panic) rest e h k x = cc

bootstrap_catalogs-ne-err :
    (fs : FileSystem) (fuel db_id : ℕ) (e : PgError)
    → bootstrap_catalogs fs fuel db_id ≢ some (err e)
unfolding bootstrap_catalogs loop_rows
bootstrap_catalogs-ne-err fs fuel db_id e =
    then_loop-ne-err _ _ e
      (for_each_row-ne-err (get_page_by_index fs) visit_class visit_class-ne-err e fuel _ _)
      (λ classes.
        then_loop-ne-err _ _ e
          (for_each_row-ne-err (get_page_by_index fs) visit_attribute visit_attribute-ne-err e fuel
            _ _)
          (λ attributes h. cc))

-- Whatever the file system answers, a new reader is never an error: the errors of pages and rows are
-- passed over, so that what remains is a reader with the catalogs that could be read, or a panic.
pub new_reader-ne-err :
    (fs : FileSystem) (fuel db_id : ℕ) (e : PgError) → new_reader fs fuel db_id ≢ some (err e)
unfolding new_reader
new_reader-ne-err fs fuel db_id e =
    then_loop-ne-err (bootstrap_catalogs fs fuel db_id) _ e
      (bootstrap_catalogs-ne-err fs fuel db_id e) (λ catalogs h. cc)
